-- ===== src/Images/Dropping.antt =====
-- What the claims of one key share: an owner's future that is not settled is the one at its key,
-- through all that a claim drops.
use llm_aio_gateway.Prelude.{
  ℕ, ◌<◌, ◌≡◌, refl, sym, ap, subst, ◌∙◌, String, Bool, true, false, ◌&&◌, ◌||◌, none, some, List,
  [], ◌∷◌, ◌==◌, nat_eq, string_eq, beq_self, arith, inl, inr, Bool-cases, Option-cases,
}
use llm_aio_gateway.Dict.{
  get, keys, contains, get-put, get-pop, keys-pop, AreDistinct, AreDistinct-drop_key,
}
use llm_aio_gateway.Images.Keys.{get_of_pop, get_of_pop_at, keys_where_lem, expired_complete}
use llm_aio_gateway.Images.Defs.{
  Settled, was_abandoned, Entry, Invocations, is_complete, is_expired, is_abandoned, keys_where,
  is_done, settle, invalidate, abandon_one, abandon, drop_all, drop_old,
}

-- A claim is listed with its key and its future.
unfoldable pub is_claimed : String → ℕ → List (String × ℕ) → Bool
is_claimed k f [] = false
is_claimed k f ((j, g) ∷ cs) = (j == k && g == f) || is_claimed k f cs

module _ {V E : Type 0} where
  abbrev pub IsAt : String → ℕ → Invocations V E → Type 0
  IsAt k f s = (entry : Entry) × (get k s.entries ≡ some entry) × (entry.future ≡ f)

  pub record IsTracked (s : Invocations V E) (cs : List (String × ℕ)) : Type 0 where
    pub known :
        (k : String) (entry : Entry) → get k s.entries ≡ some entry → entry.future < s.next_future
    pub known_done : (f : ℕ) → is_done f s ≡ true → f < s.next_future
    pub known_claim : (k : String) (f : ℕ) → is_claimed k f cs ≡ true → f < s.next_future
    pub timely :
        (k : String) (entry : Entry)
        → get k s.entries ≡ some entry
        → is_done entry.future s ≡ is_complete entry
    pub apart :
        (j k : String) (a b : Entry)
        → get j s.entries ≡ some a
        → get k s.entries ≡ some b
        → a.future ≡ b.future
        → (j == k) ≡ true
    pub distinct : AreDistinct (keys s.entries)
    pub kept : (k : String) (f : ℕ) → is_claimed k f cs ≡ true → is_done f s ≡ false → IsAt k f s

  pub is_done-settle :
      (f g : ℕ) (o : Settled V E) (s : Invocations V E)
      → is_done f (settle g o s) ≡ (g == f || is_done f s)
  unfolding is_done settle
  is_done-settle f g o s = ground (arith, get-put g f o s.settled, nat_eq.beq_iff g f)

  pub settle_entries :
      (f : ℕ) (o : Settled V E) (s : Invocations V E) → (settle f o s).entries ≡ s.entries
  unfolding settle
  settle_entries f o s = ground arith

  pub settle_next :
      (f : ℕ) (o : Settled V E) (s : Invocations V E) → (settle f o s).next_future ≡ s.next_future
  unfolding settle
  settle_next f o s = ground arith

  pub drop_complete-IsTracked :
      (k : String) (s : Invocations V E) (cs : List (String × ℕ))
      → ((entry : Entry) → get k s.entries ≡ some entry → is_complete entry ≡ true)
      → IsTracked s cs
      → IsTracked (invalidate k s) cs
  unfolding invalidate is_done
  drop_complete-IsTracked k s cs whole t = record {
    known = λ j entry found. t.known j entry (get_of_pop k j s.entries entry found).1;
    known_done = λ f done. t.known_done f done;
    known_claim = t.known_claim;
    timely = λ j entry found. t.timely j entry (get_of_pop k j s.entries entry found).1;
    apart = λ i j a b found found'.
        t.apart i j a b (get_of_pop k i s.entries a found).1 (get_of_pop k j s.entries b found').1;
    distinct = rw keys-pop (AreDistinct-drop_key k (keys s.entries) t.distinct);
    kept = λ j f claimed waits.
        let (entry, found, eq) = t.kept j f claimed waits in
        (
          entry,
          elim (Bool-cases (k == j)) [
            | inr other ↦ rw (get-pop, other) found
            | inl same ↦
                let here : get k s.entries ≡ some entry =
                  subst (λ i. get i s.entries ≡ some entry) (sym ((string_eq.beq_iff k j).0 same))
                    found in
                absurd (ground (arith, waits, eq, whole entry here, t.timely k entry here))
          ],
          eq,
        );
  }

  -- An entry is dropped whose future is settled by then.
  pub settle_dropped-IsTracked :
      (k : String) (e : Entry) (o : Settled V E) (s : Invocations V E) (cs : List (String × ℕ))
      → get k s.entries ≡ some e
      → IsTracked s cs
      → IsTracked (settle e.future o (invalidate k s)) cs
  unfolding invalidate is_done
  settle_dropped-IsTracked k e o s cs here t =
      let s1 = invalidate k s in
      let same_entries = settle_entries e.future o s1 in
      let same_next = settle_next e.future o s1 in
      let done_of : (f : ℕ) → is_done f (settle e.future o s1) ≡ (e.future == f || is_done f s) =
        λ f. is_done-settle f e.future o s1 in
      let before : (j : String) (entry : Entry)
          → get j (settle e.future o s1).entries ≡ some entry
          → ((k == j) ≡ false) × (get j s.entries ≡ some entry) =
        λ j entry found.
          get_of_pop k j s.entries entry (ap (λ d. get j d) (sym same_entries) ∙ found) in
      record {
        known = λ j entry found.
            subst (λ n. entry.future < n) (sym same_next)
              (t.known j entry (before j entry found).1);
        known_done = λ f done.
            subst (λ n. f < n) (sym same_next)
              (elim (Bool-cases (e.future == f)) [
                | inl same ↦
                    subst (λ g. g < s.next_future) ((nat_eq.beq_iff e.future f).0 same)
                      (t.known k e here)
                | inr other ↦ t.known_done f (ground (arith, done, done_of f, other))
              ]);
        known_claim = λ j f claimed. subst (λ n. f < n) (sym same_next) (t.known_claim j f claimed);
        timely = λ j entry found.
            let (other, old) = before j entry found in
            elim (Bool-cases (e.future == entry.future)) [
              | inl same ↦ absurd (
                  ground (
                    arith,
                    other,
                    t.apart k j e entry here old ((nat_eq.beq_iff e.future entry.future).0 same),
                  ))
              | inr apart ↦ done_of entry.future ∙ ground (arith, apart, t.timely j entry old)
            ];
        apart = λ i j a b found found'. t.apart i j a b (before i a found).1 (before j b found').1;
        distinct = rw (same_entries, keys-pop) (AreDistinct-drop_key k (keys s.entries) t.distinct);
        kept = λ j f claimed waits.
            let waited : is_done f s ≡ false = ground (arith, waits, done_of f) in
            let (entry, found, eq) = t.kept j f claimed waited in
            (
              entry,
              elim (Bool-cases (k == j)) [
                | inr other ↦
                    ap (λ d. get j d) same_entries ∙ get_of_pop_at k j s.entries entry other found
                | inl same ↦
                    let there : get j s.entries ≡ some e =
                      subst (λ i. get i s.entries ≡ some e) ((string_eq.beq_iff k j).0 same) here in
                    absurd (
                      ground (arith, waits, done_of f, eq, there, found, nat_eq.beq_iff e.future f))
              ],
              eq,
            );
      }

  abandon_one-IsTracked :
      (k : String) (s : Invocations V E) (cs : List (String × ℕ))
      → IsTracked s cs
      → IsTracked (abandon_one k s) cs
  unfolding abandon_one
  abandon_one-IsTracked k s cs t = elim (Option-cases (get k s.entries)) [
    | inl missing ↦ rw (missing, abandon_one) t
    | inr (e, here) ↦
        rw (here, abandon_one) (settle_dropped-IsTracked k e was_abandoned s cs here t)
  ]

  pub abandon-IsTracked :
      (ks : List String) (s : Invocations V E) (cs : List (String × ℕ))
      → IsTracked s cs
      → IsTracked (abandon ks s) cs
  unfolding abandon
  abandon-IsTracked [] s cs t = t
  abandon-IsTracked (k ∷ ks) s cs t =
      abandon-IsTracked ks (abandon_one k s) cs (abandon_one-IsTracked k s cs t)

  -- What is abandoned is dropped; the others stay as they were.
  pub abandon_one_missing :
      (k : String) (s : Invocations V E) → get k s.entries ≡ none → abandon_one k s ≡ s
  unfolding abandon_one
  abandon_one_missing k s missing = rw (missing, abandon_one) refl

  pub abandon_one_present :
      (k : String) (s : Invocations V E) (e : Entry)
      → get k s.entries ≡ some e
      → abandon_one k s ≡ settle e.future was_abandoned (invalidate k s)
  unfolding abandon_one
  abandon_one_present k s e here = rw (here, abandon_one) refl

  get-abandon_one :
      (k j : String) (s : Invocations V E) (entry : Entry)
      → get j (abandon_one k s).entries ≡ some entry
      → get j s.entries ≡ some entry
  unfolding invalidate
  get-abandon_one k j s entry found = elim (Option-cases (get k s.entries)) [
    | inl missing ↦
        ap (λ (x : Invocations V E). get j x.entries) (sym (abandon_one_missing k s missing))
        ∙ found
    | inr (e, here) ↦
        (get_of_pop k j s.entries entry (
          ap (λ d. get j d) (sym (settle_entries e.future was_abandoned (invalidate k s)))
          ∙ ap (λ (x : Invocations V E). get j x.entries) (sym (abandon_one_present k s e here))
          ∙ found)).1
  ]

  pub get-abandon :
      (ks : List String) (j : String) (s : Invocations V E) (entry : Entry)
      → get j (abandon ks s).entries ≡ some entry
      → get j s.entries ≡ some entry
  unfolding abandon
  get-abandon [] j s entry found = found
  get-abandon (k ∷ ks) j s entry found =
      get-abandon_one k j s entry (get-abandon ks j (abandon_one k s) entry found)

  drop_all-IsTracked :
      (ks : List String) (s : Invocations V E) (cs : List (String × ℕ))
      → ((k : String) (entry : Entry)
          → contains k ks ≡ true
          → get k s.entries ≡ some entry
          → is_complete entry ≡ true)
      → IsTracked s cs
      → IsTracked (drop_all ks s) cs
  unfolding drop_all contains invalidate
  drop_all-IsTracked [] s cs whole t = t
  drop_all-IsTracked (k ∷ ks) s cs whole t =
      drop_all-IsTracked ks (invalidate k s) cs
        (λ j entry listed found.
          whole j entry (ground (arith, listed)) (get_of_pop k j s.entries entry found).1)
        (drop_complete-IsTracked k s cs
          (λ entry found. whole k entry (ground (arith, beq_self k)) found) t)

  -- What is too old is dropped, and no owner's future is lost that is not settled.
  pub drop_old-IsTracked :
      (ttl age now : ℕ) (s : Invocations V E) (cs : List (String × ℕ))
      → IsTracked s cs
      → IsTracked (drop_old ttl age now s) cs
  unfolding drop_old
  drop_old-IsTracked ttl age now s cs t =
      let abandoned = keys_where (is_abandoned age now) s.entries in
      drop_all-IsTracked (keys_where (is_expired ttl now) s.entries) (abandon abandoned s) cs
        (λ k entry listed found. expired_complete ttl now entry (
          sym (
            keys_where_lem (is_expired ttl now) s.entries k entry t.distinct
              (get-abandon abandoned k s entry found))
          ∙ listed))
        (abandon-IsTracked abandoned s cs t)
