-- ===== src/Model/WildcardLaws.antt =====
-- The matcher decides what a pattern with `*` means.
use llm_aio_gateway.Prelude.{
  ℕ, ◌≡◌, refl, ap, subst, Bool, true, List, [], ◌∷◌, ◌++◌, ◌==◌, nat_eq, ◌↔◌, ◌≢◌, String, codes,
  arith, Bool-cases, inl, inr, All,
}
use llm_aio_gateway.Model.Wildcard.{star, first_is, full_match, wildcard_match}

-- A line feed is the one code point that `*` does not take.
abbrev pub HasNoLineFeed : List ℕ → Type 0
HasNoLineFeed = All (λ c. c ≢ 10)

-- A pattern against a text, piece by piece.
pub data Matches (same : ℕ → ℕ → Bool) : List ℕ → List ℕ → Type 0 where
  nothing : Matches same [] []
  literal :
      (p c : ℕ) (ps cs : List ℕ)
      → p ≢ b'*'
      → same p c ≡ true
      → Matches same ps cs
      → Matches same (p ∷ ps) (c ∷ cs)
  run :
      (p : ℕ) (ps skipped cs all : List ℕ)
      → p ≡ b'*'
      → HasNoLineFeed skipped
      → skipped ++ cs ≡ all
      → Matches same ps cs
      → Matches same (p ∷ ps) all

-- What `star` looks for: a split behind which the rest matches.
abbrev Split : (List ℕ → Bool) → List ℕ → Type 0
Split rest cs =
    (skipped : List ℕ) × (left : List ℕ) × HasNoLineFeed skipped
    × (skipped ++ left ≡ cs)
    × (rest left ≡ true)

star_sound : (rest : List ℕ → Bool) (cs : List ℕ) → star rest cs ≡ true → Split rest cs
unfolding star
star_sound rest [] h = ([], [], tt, refl, h)
star_sound rest (c ∷ cs) h = elim (Bool-cases (rest (c ∷ cs))) [
  | inl here ↦ ([], c ∷ cs, tt, refl, here)
  | inr later ↦
      let (skipped, left, plain, split, found) = star_sound rest cs (ground arith) in
      let no_feed : c ≢ 10 = ground arith in
      (c ∷ skipped, left, (no_feed, plain), ap (λ l. c ∷ l) split, found)
]

star_complete :
    (rest : List ℕ → Bool) (skipped left : List ℕ)
    → HasNoLineFeed skipped
    → rest left ≡ true
    → star rest (skipped ++ left) ≡ true
unfolding star
star_complete rest [] [] p h = h
star_complete rest [] (c ∷ left) p h = ground (arith, h)
star_complete rest (c ∷ skipped) left (no_feed, plain) h =
    ground (arith, star_complete rest skipped left plain h)

module _ (same : ℕ → ℕ → Bool) where
  literal_sound :
      (p : ℕ) (ps cs : List ℕ)
      → p ≢ b'*'
      → ((ds : List ℕ) → full_match same ps ds ≡ true → Matches same ps ds)
      → first_is (same p) (full_match same ps) cs ≡ true
      → Matches same (p ∷ ps) cs
  literal_sound p ps [] ne ih h = cc
  literal_sound p ps (c ∷ cs) ne ih h = literal p c ps cs ne (ground arith) (ih cs (ground arith))

  full_match_sound : (ps cs : List ℕ) → full_match same ps cs ≡ true → Matches same ps cs
  unfolding full_match
  full_match_sound [] [] h = nothing
  full_match_sound [] (c ∷ cs) h = cc
  full_match_sound (p ∷ ps) cs h = elim (Bool-cases (p == b'*')) [
    | inl any_run ↦
        let (skipped, left, plain, split, found) =
          star_sound (full_match same ps) cs (rw any_run at h) in
        run p ps skipped left cs ((nat_eq.beq_iff p 42).0 any_run) plain split
          (full_match_sound ps left found)
    | inr other ↦
        literal_sound p ps cs (ground arith) (λ ds. full_match_sound ps ds) (rw other at h)
  ]

  full_match_complete : {ps cs : List ℕ} → Matches same ps cs → full_match same ps cs ≡ true
  unfolding full_match
  full_match_complete nothing = refl
  full_match_complete (literal p c ps cs ne fits m) = ground (arith, full_match_complete m, fits)
  full_match_complete (run p ps skipped cs all is_star plain split m) =
      rw ((nat_eq.beq_iff p 42).1 is_star) (
        subst (λ l. star (full_match same ps) l ≡ true) split
          (star_complete (full_match same ps) skipped cs plain (full_match_complete m)))

  -- The test accepts a text exactly when the pattern's literals and runs cover it, where a run
  -- takes any code points but line feeds.
  pub wildcard_match_iff :
      (pattern value : String)
      → (wildcard_match same pattern value ≡ true) ↔ Matches same (codes pattern) (codes value)
  unfolding wildcard_match
  wildcard_match_iff pattern value =
      (full_match_sound (codes pattern) (codes value), full_match_complete)
