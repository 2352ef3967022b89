-- ===== src/Images/Settling.antt =====
-- An owner settles its future, and no other owner's future is lost.
use llm_aio_gateway.Prelude.{
  ℕ, ◌≡◌, refl, sym, ap, subst, ◌∙◌, ◌⊎◌, inl, inr, String, Bool, true, false, ◌||◌, none, some,
  List, ◌==◌, nat_eq, string_eq, beq_self, if◌then◌else◌, arith, Bool-cases, Option-cases,
}
use llm_aio_gateway.Dict.{get, put, keys, get-put, keys-put, AreDistinct-add_key}
use llm_aio_gateway.Images.Defs.{
  Settled, result, raised, was_cancelled, Entry, Invocations, Claim, is_done, settle, invalidate,
  resolve, reject,
}
use llm_aio_gateway.Images.Keys.{get_of_put}
use llm_aio_gateway.Images.Dropping.{
  IsTracked, is_claimed, is_done-settle, settle_entries, settle_next, settle_dropped-IsTracked,
}

module _ {V E : Type 0} where
  pub resolve_own :
      (c : Claim) (value : V) (now : ℕ) (s : Invocations V E) (entry : Entry)
      → get c.key s.entries ≡ some entry
      → (entry.future == c.future) ≡ true
      → resolve c value now s
        ≡ settle c.future
            (result value)
            (record s { entries = put c.key (record entry { completed_at = some now }) s.entries })
  unfolding resolve
  resolve_own c value now s entry here own = rw (here, resolve) (rw own refl)

  pub resolve_other :
      (c : Claim) (value : V) (now : ℕ) (s : Invocations V E)
      → ((entry : Entry) × (get c.key s.entries ≡ some entry)
          × ((entry.future == c.future) ≡ false))
        ⊎ (get c.key s.entries ≡ none)
      → resolve c value now s ≡ s
  unfolding resolve
  resolve_other c value now s (inl (entry, here, other)) = rw (here, resolve) (rw other refl)
  resolve_other c value now s (inr missing) = rw (missing, resolve) refl

  complete-IsTracked :
      (k : String) (f now : ℕ) (o : Settled V E) (entry : Entry) (s : Invocations V E)
      (cs : List (String × ℕ))
      → get k s.entries ≡ some entry
      → entry.future ≡ f
      → IsTracked s cs
      → IsTracked
          (settle f o
            (record s { entries = put k (record entry { completed_at = some now }) s.entries }))
          cs
  unfolding is_done
  complete-IsTracked k f now o entry s cs here own t =
      let new : Entry = record entry { completed_at = some now } in
      let s1 : Invocations V E = record s { entries = put k new s.entries } in
      let same_entries = settle_entries f o s1 in
      let same_next = settle_next f o s1 in
      let done_of : (g : ℕ) → is_done g (settle f o s1) ≡ (f == g || is_done g s) =
        λ g. is_done-settle g f o s1 in
      let before : (j : String) (e : Entry)
          → get j (settle f o s1).entries ≡ some e
          → (((k == j) ≡ true) × (e ≡ new)) ⊎ (((k == j) ≡ false) × (get j s.entries ≡ some e)) =
        λ j e found.
          get_of_put k j new e s.entries (ap (λ d. get j d) (sym same_entries) ∙ found) in
      let origin : (j : String) (e : Entry)
          → get j (settle f o s1).entries ≡ some e
          → (old : Entry) × (get j s.entries ≡ some old) × (old.future ≡ e.future) =
        λ j e found. elim (before j e found) [
          | inl (same, eq) ↦ (
            entry,
            subst (λ i. get i s.entries ≡ some entry) ((string_eq.beq_iff k j).0 same) here,
            ap (λ (x : Entry). x.future) (sym eq),
          )
          | inr (_, old) ↦ (e, old, refl)
        ] in
      record {
        known = λ j e found.
            let (old, there, eq) = origin j e found in
            omega (arith, t.known j old there, eq, same_next);
        known_done = λ g done. elim (Bool-cases (f == g)) [
          | inl same ↦
              omega (arith, t.known k entry here, own, (nat_eq.beq_iff f g).0 same, same_next)
          | inr other ↦
              omega (arith, t.known_done g (ground (arith, done, done_of g, other)), same_next)
        ];
        known_claim = λ j g claimed. omega (arith, t.known_claim j g claimed, same_next);
        timely = λ j e found. elim (before j e found) [
          | inl (_, eq) ↦ rw eq (done_of entry.future ∙ ground (arith, own, beq_self f))
          | inr (other, old) ↦ elim (Bool-cases (f == e.future)) [
            | inl same ↦ absurd (
                ground (
                  arith,
                  other,
                  t.apart k j entry e here old (own ∙ (nat_eq.beq_iff f e.future).0 same),
                ))
            | inr apart ↦ done_of e.future ∙ ground (arith, apart, t.timely j e old)
          ]
        ];
        apart = λ i j a b found found' same.
            let (a', there, eq) = origin i a found in
            let (b', there', eq') = origin j b found' in
            t.apart i j a' b' there there' (eq ∙ same ∙ sym eq');
        distinct = rw (same_entries, keys-put) (AreDistinct-add_key k (keys s.entries) t.distinct);
        kept = λ j g claimed waits.
            let (e, found, eq) = t.kept j g claimed (ground (arith, waits, done_of g)) in
            (
              e,
              elim (Bool-cases (k == j)) [
                | inr other ↦ ap (λ d. get j d) same_entries ∙ rw (get-put, other) found
                | inl same ↦
                    let there : get j s.entries ≡ some entry =
                      subst (λ i. get i s.entries ≡ some entry) ((string_eq.beq_iff k j).0 same)
                        here in
                    absurd
                      (ground (arith, waits, done_of g, eq, own, there, found, nat_eq.beq_iff f g))
              ],
              eq,
            );
      }

  pub resolve-IsTracked :
      (c : Claim) (value : V) (now : ℕ) (s : Invocations V E) (cs : List (String × ℕ))
      → IsTracked s cs
      → IsTracked (resolve c value now s) cs
  resolve-IsTracked c value now s cs t = elim (Option-cases (get c.key s.entries)) [
    | inl missing ↦ rw (resolve_other c value now s (inr missing)) t
    | inr (entry, here) ↦ elim (Bool-cases (entry.future == c.future)) [
      | inr other ↦ rw (resolve_other c value now s (inl (entry, here, other))) t
      | inl own ↦ rw (resolve_own c value now s entry here own) (
          complete-IsTracked c.key c.future now (result value) entry s cs here
            ((nat_eq.beq_iff entry.future c.future).0 own) t)
    ]
  ]

  abbrev pub outcome_of : (E → Bool) → E → Settled V E
  outcome_of is_cancelled exc = if is_cancelled exc then was_cancelled else raised exc

  -- A future that is settled stays as it is.
  settle_done :
      (f : ℕ) (o : Settled V E) (s : Invocations V E) → is_done f s ≡ true → settle f o s ≡ s
  unfolding settle
  settle_done f o s done = rw (done, settle) refl

  pub reject_own :
      (is_cancelled : E → Bool) (c : Claim) (exc : E) (s : Invocations V E) (entry : Entry)
      → get c.key s.entries ≡ some entry
      → (entry.future == c.future) ≡ true
      → reject is_cancelled c exc s
        ≡ settle c.future (outcome_of is_cancelled exc) (invalidate c.key s)
  unfolding reject
  reject_own is_cancelled c exc s entry here own = rw (here, reject) (rw own refl)

  pub reject_other :
      (is_cancelled : E → Bool) (c : Claim) (exc : E) (s : Invocations V E)
      → ((entry : Entry) × (get c.key s.entries ≡ some entry)
          × ((entry.future == c.future) ≡ false))
        ⊎ (get c.key s.entries ≡ none)
      → reject is_cancelled c exc s ≡ settle c.future (outcome_of is_cancelled exc) s
  unfolding reject
  reject_other is_cancelled c exc s (inl (entry, here, other)) = rw (here, reject) (rw other refl)
  reject_other is_cancelled c exc s (inr missing) = rw (missing, reject) refl

  -- A claim whose future is not at its key has a settled one.
  lost_is_done :
      (c : Claim) (s : Invocations V E) (cs : List (String × ℕ))
      → IsTracked s cs
      → is_claimed c.key c.future cs ≡ true
      → ((entry : Entry) × (get c.key s.entries ≡ some entry)
          × ((entry.future == c.future) ≡ false))
        ⊎ (get c.key s.entries ≡ none)
      → is_done c.future s ≡ true
  lost_is_done c s cs t claimed lost = elim (Bool-cases (is_done c.future s)) [
    | inl done ↦ done
    | inr waits ↦
        let (e, found, eq) = t.kept c.key c.future claimed waits in
        elim lost [
          | inl (entry, here, other) ↦
              absurd (ground (arith, found, here, other, eq, nat_eq.beq_iff entry.future c.future))
          | inr missing ↦ absurd (ground (arith, found, missing))
        ]
  ]

  pub reject-IsTracked :
      (is_cancelled : E → Bool) (c : Claim) (exc : E) (s : Invocations V E) (cs : List (String × ℕ))
      → IsTracked s cs
      → is_claimed c.key c.future cs ≡ true
      → IsTracked (reject is_cancelled c exc s) cs
  reject-IsTracked is_cancelled c exc s cs t claimed =
      let lost : ((entry : Entry) × (get c.key s.entries ≡ some entry)
              × ((entry.future == c.future) ≡ false))
            ⊎ (get c.key s.entries ≡ none)
          → IsTracked (reject is_cancelled c exc s) cs =
        λ why.
          rw
            (
              reject_other is_cancelled c exc s why,
              settle_done c.future (outcome_of is_cancelled exc) s
                  (lost_is_done c s cs t claimed why),
            )
            t in
      elim (Option-cases (get c.key s.entries)) [
        | inl missing ↦ lost (inr missing)
        | inr (entry, here) ↦ elim (Bool-cases (entry.future == c.future)) [
          | inr other ↦ lost (inl (entry, here, other))
          | inl own ↦
              rw
                (
                  reject_own is_cancelled c exc s entry here own,
                  sym ((nat_eq.beq_iff entry.future c.future).0 own),
                )
                (settle_dropped-IsTracked c.key entry (outcome_of is_cancelled exc) s cs here t)
        ]
      ]
