-- ===== src/Images/Withdrawn.antt =====
-- Entries that are taken out while they are in flight: the claims that lost theirs are forgotten, and
-- an error that their owners send later settles their own futures alone.
use llm_aio_gateway.Prelude.{
  ℕ, ◌<◌, ◌≡◌, sym, ap, subst, ◌∙◌, String, Bool, false, not, ◌&&◌, ◌||◌, some, List, [], ◌∷◌, ◌==◌,
  nat_eq, string_eq, arith, inl, inr, Bool-cases, Option-cases, if◌then◌else◌,
}
use llm_aio_gateway.Dict.{get, keys, get-pop, keys-pop, AreDistinct-drop_key}
use llm_aio_gateway.Images.Keys.{get_of_pop}
use llm_aio_gateway.Images.Defs.{
  Settled, Entry, Invocations, Claim, is_done, settle, invalidate, clear, reject,
}
use llm_aio_gateway.Images.Dropping.{
  IsTracked, is_claimed, is_done-settle, settle_entries, settle_next,
}
use llm_aio_gateway.Images.Settling.{outcome_of, reject_other}

-- The claims of the other keys.
unfoldable pub without : String → List (String × ℕ) → List (String × ℕ)
without k [] = []
without k ((j, f) ∷ cs) = let rest = without k cs in if j == k then rest else (j, f) ∷ rest

is_claimed-without :
    (j k : String) (f : ℕ) (cs : List (String × ℕ))
    → is_claimed j f (without k cs) ≡ (not (k == j) && is_claimed j f cs)
unfolding without is_claimed
is_claimed-without j k f [] = ground arith
is_claimed-without j k f ((i, g) ∷ cs) = ground (
  arith,
  is_claimed-without j k f cs,
  string_eq.beq_iff i k,
  string_eq.beq_iff i j,
  string_eq.beq_iff k j,
)

module _ {V E : Type 0} where
  -- No entry has the future.
  abbrev pub IsGone : ℕ → Invocations V E → Type 0
  IsGone f s =
      (k : String) (entry : Entry) → get k s.entries ≡ some entry → (entry.future == f) ≡ false

  pub invalidate-IsTracked :
      (k : String) (s : Invocations V E) (cs : List (String × ℕ))
      → IsTracked s cs
      → IsTracked (invalidate k s) (without k cs)
  unfolding invalidate is_done
  invalidate-IsTracked k s cs t = record {
    known = λ j entry found. t.known j entry (get_of_pop k j s.entries entry found).1;
    known_done = λ f done. t.known_done f done;
    known_claim =
        λ j f claimed. t.known_claim j f (ground (arith, is_claimed-without j k f cs, claimed));
    timely = λ j entry found. t.timely j entry (get_of_pop k j s.entries entry found).1;
    apart = λ i j a b found found'.
        t.apart i j a b (get_of_pop k i s.entries a found).1 (get_of_pop k j s.entries b found').1;
    distinct = rw keys-pop (AreDistinct-drop_key k (keys s.entries) t.distinct);
    kept = λ j f claimed waits.
        let listed = is_claimed-without j k f cs in
        let (entry, found, eq) = t.kept j f (ground (arith, listed, claimed)) waits in
        let other : (k == j) ≡ false = ground (arith, listed, claimed) in
        (entry, rw (get-pop, other) found, eq);
  }

  pub clear-IsTracked :
      (s : Invocations V E) (cs : List (String × ℕ)) → IsTracked s cs → IsTracked (clear s) []
  unfolding clear is_done get is_claimed keys
  clear-IsTracked s cs t = record {
    known = λ k entry found. cc;
    known_done = λ f done. t.known_done f done;
    known_claim = λ k f claimed. cc;
    timely = λ k entry found. cc;
    apart = λ j k a b found found' same. cc;
    distinct = tt;
    kept = λ k f claimed waits. cc;
  }

  settle_gone-IsTracked :
      (f : ℕ) (o : Settled V E) (s : Invocations V E) (cs : List (String × ℕ))
      → f < s.next_future
      → IsGone f s
      → IsTracked s cs
      → IsTracked (settle f o s) cs
  settle_gone-IsTracked f o s cs made gone t =
      let same_entries = settle_entries f o s in
      let same_next = settle_next f o s in
      let done_of : (g : ℕ) → is_done g (settle f o s) ≡ (f == g || is_done g s) =
        λ g. is_done-settle g f o s in
      let before : (k : String) (entry : Entry)
          → get k (settle f o s).entries ≡ some entry
          → get k s.entries ≡ some entry =
        λ k entry found. ap (λ d. get k d) (sym same_entries) ∙ found in
      record {
        known = λ k entry found.
            subst (λ n. entry.future < n) (sym same_next) (t.known k entry (before k entry found));
        known_done = λ g done.
            subst (λ n. g < n) (sym same_next)
              (elim (Bool-cases (f == g)) [
                | inl same ↦ subst (λ n. n < s.next_future) ((nat_eq.beq_iff f g).0 same) made
                | inr other ↦ t.known_done g (ground (arith, done_of g, done, other))
              ]);
        known_claim = λ k g claimed. subst (λ n. g < n) (sym same_next) (t.known_claim k g claimed);
        timely = λ k entry found.
            let old = before k entry found in
            done_of entry.future ∙ ground (arith, gone k entry old, t.timely k entry old);
        apart = λ i j a b found found'. t.apart i j a b (before i a found) (before j b found');
        distinct = rw same_entries t.distinct;
        kept = λ k g claimed waits.
            let (entry, found, eq) = t.kept k g claimed (ground (arith, done_of g, waits)) in
            (entry, ap (λ d. get k d) same_entries ∙ found, eq);
      }

  pub reject_late-IsTracked :
      (is_cancelled : E → Bool) (c : Claim) (exc : E) (s : Invocations V E) (cs : List (String × ℕ))
      → c.future < s.next_future
      → IsGone c.future s
      → IsTracked s cs
      → IsTracked (reject is_cancelled c exc s) cs
  reject_late-IsTracked is_cancelled c exc s cs made gone t =
      rw
        (reject_other is_cancelled c exc s (elim (Option-cases (get c.key s.entries)) [
          | inl missing ↦ inr missing
          | inr (entry, here) ↦ inl (entry, here, gone c.key entry here)
        ]))
        (settle_gone-IsTracked c.future (outcome_of is_cancelled exc) s cs made gone t)
