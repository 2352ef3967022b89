-- ===== src/Model/Wildcard.antt =====
-- `wildcard_match` of app/core/policy.py: `re.fullmatch` of the pattern in which each `*` became
-- `.*`, so a `*` takes any run of code points without a line feed. `same` is the comparison of two
-- code points under `re.IGNORECASE`.
use llm_aio_gateway.Prelude.{
  ℕ, Bool, true, false, not, ◌&&◌, ◌||◌, List, [], ◌∷◌, ◌==◌, nat_eq, if◌then◌else◌, String, codes,
}

-- `.*` and then the rest of the pattern
unfoldable pub star : (List ℕ → Bool) → List ℕ → Bool
star rest [] = rest []
star rest (c ∷ cs) = rest (c ∷ cs) || (not (c == 10) && star rest cs)

abbrev pub first_is : (ℕ → Bool) → (List ℕ → Bool) → List ℕ → Bool
first_is test rest [] = false
first_is test rest (c ∷ cs) = test c && rest cs

abbrev pub at_end : List ℕ → Bool
at_end [] = true
at_end (c ∷ cs) = false

module _ (same : ℕ → ℕ → Bool) where
  unfoldable pub full_match : List ℕ → List ℕ → Bool
  unfolding star
  full_match [] cs = at_end cs
  full_match (p ∷ ps) cs =
      if p == b'*' then star (full_match ps) cs else first_is (same p) (full_match ps) cs

  unfoldable pub wildcard_match : String → String → Bool
  unfolding full_match
  wildcard_match pattern value = full_match (codes pattern) (codes value)
