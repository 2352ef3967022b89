-- ===== src/ToolArgs/Chunks.antt =====
-- The repair in chunks is the repair of the whole text, for texts without a backslash.
use llm_aio_gateway.Prelude.{
  ℕ, ◌≡◌, refl, sym, ap, subst, ap₂, ◌∙◌, ◌⊎◌, inl, inr, Bool, true, false, not, ◌&&◌, Option, none,
  some, List, [], ◌∷◌, ◌++◌, ◌==◌, nat_eq, if◌then◌else◌, codes, arith, Bool-cases, Option-cases,
}
use llm_aio_gateway.ToolArgs.Defs.{
  quote, backslash, word, empty_string, is_boundary, after, is_cut_word, ends_at_boundary,
  is_bare_word, scan, Step, hold, replace, pass, step_at, feed_loop,
}

-- No code point of the text is a backslash.
abbrev pub is_plain : List ℕ → Bool
is_plain [] = true
is_plain (c ∷ cs) = not (c == backslash) && is_plain cs

pub is_plain-append : (cs ds : List ℕ) → is_plain (cs ++ ds) ≡ (is_plain cs && is_plain ds)
is_plain-append [] ds = refl
is_plain-append (c ∷ cs) ds = ground (arith, is_plain-append cs ds)

-- A word that is found in a text is found in a longer one, and one that is neither found nor cut off
-- by the end is in no longer text.
after-append :
    (w cs rest ds : List ℕ) → after w cs ≡ some rest → after w (cs ++ ds) ≡ some (rest ++ ds)
after-append [] cs rest ds h = ground (arith, h)
after-append (p ∷ w) [] rest ds h = cc
after-append (p ∷ w) (c ∷ cs) rest ds h = ground (arith, h, after-append w cs rest ds)

after_none :
    (w cs ds : List ℕ) → after w cs ≡ none → is_cut_word w cs ≡ false → after w (cs ++ ds) ≡ none
after_none [] cs ds h g = cc
after_none (p ∷ w) [] ds h g = cc
after_none (p ∷ w) (c ∷ cs) ds h g = ground (arith, h, g, after_none w cs ds)

-- What a found word leaves is the text without the word.
pub after-eq : (w cs rest : List ℕ) → after w cs ≡ some rest → cs ≡ w ++ rest
after-eq [] cs rest h = ground (arith, h)
after-eq (p ∷ w) [] rest h = cc
after-eq (p ∷ w) (c ∷ cs) rest h = elim (Bool-cases (p == c)) [
  | inl same ↦
      ap₂ (λ x xs. x ∷ xs) (sym ((nat_eq.beq_iff p c).0 same))
        (after-eq w cs rest (ground (arith, h, same)))
  | inr other ↦ absurd (ground (arith, h, other))
]

-- How the loop of a chunk goes on: with the rest of the text, it comes to what the whole comes to.
unfoldable pub IsPart : Bool → List ℕ → Type 0
IsPart b buf =
    (rest : List ℕ)
    → scan b 0 0 (buf ++ rest)
      ≡ (feed_loop b 0 0 buf).out
        ++ scan (feed_loop b 0 0 buf).open_string 0 0 ((feed_loop b 0 0 buf).kept ++ rest)

pub IsPart-nil : (b : Bool) → IsPart b []
unfolding IsPart feed_loop
IsPart-nil b rest = refl

pub IsPart-inside :
    (c : ℕ) (cs : List ℕ)
    → (c == backslash) ≡ false
    → IsPart true cs
    → IsPart false cs
    → IsPart true (c ∷ cs)
unfolding IsPart feed_loop scan
IsPart-inside c cs plain inside outside rest = elim (Bool-cases (c == quote)) [
  | inl closes ↦ rw closes (ap (λ xs. c ∷ xs) (outside rest))
  | inr other ↦ rw (other, plain) (ap (λ xs. c ∷ xs) (inside rest))
]

-- A quote outside of strings opens one.
pub IsPart-opening : (cs : List ℕ) → IsPart true cs → IsPart false (quote ∷ cs)
unfolding IsPart feed_loop scan
IsPart-opening cs inside rest = ap (λ xs. quote ∷ xs) (inside rest)

abbrev pub word_rest : List ℕ
word_rest = codes "ndefined"

scan_skip : (cs : List ℕ) → scan false 0 8 (word_rest ++ cs) ≡ scan false 0 0 cs
unfolding scan
scan_skip cs = refl

feed_skip : (cs : List ℕ) → feed_loop false 0 8 (word_rest ++ cs) ≡ feed_loop false 0 0 cs
unfolding feed_loop
feed_skip cs = refl

-- The word before a boundary is replaced.
pub IsPart-replace :
    (c : ℕ) (cs ds : List ℕ)
    → (c == quote) ≡ false
    → step_at (c ∷ cs) ≡ replace
    → ((rest : List ℕ) → is_bare_word ((c ∷ cs) ++ rest) ≡ true)
    → cs ≡ word_rest ++ ds
    → IsPart false ds
    → IsPart false (c ∷ cs)
unfolding IsPart feed_loop scan
IsPart-replace c cs ds other replaced bare split outside rest =
    rw (other, replaced, bare rest)
      (ap (λ xs. empty_string ++ xs)
        (subst
          (λ xs.
            scan false 0 8 (xs ++ rest)
            ≡ (feed_loop false 0 8 xs).out
              ++ scan (feed_loop false 0 8 xs).open_string 0 0
                  ((feed_loop false 0 8 xs).kept ++ rest))
          (sym split) (outside rest)))

-- The end of a chunk that may be the start of the word is held.
pub IsPart-hold :
    (c : ℕ) (cs : List ℕ) → (c == quote) ≡ false → step_at (c ∷ cs) ≡ hold → IsPart false (c ∷ cs)
unfolding IsPart feed_loop
IsPart-hold c cs other held rest = rw (other, held) refl

-- Any other code point is passed on.
pub IsPart-pass :
    (c : ℕ) (cs : List ℕ)
    → (c == backslash) ≡ false
    → (c == quote) ≡ false
    → step_at (c ∷ cs) ≡ pass
    → ((rest : List ℕ) → is_bare_word ((c ∷ cs) ++ rest) ≡ false)
    → IsPart false cs
    → IsPart false (c ∷ cs)
unfolding IsPart feed_loop scan
IsPart-pass c cs plain other passed bare outside rest =
    rw (other, passed, bare rest, plain) (ap (λ xs. c ∷ xs) (outside rest))

-- What the step at a text comes to, and what the whole scan does there.
abbrev pub StepCase : List ℕ → Type 0
StepCase cs =
    (step_at cs ≡ hold)
    ⊎ ((step_at cs ≡ pass) × ((rest : List ℕ) → is_bare_word (cs ++ rest) ≡ false))
    ⊎ ((step_at cs ≡ replace)
        × ((rest : List ℕ) → is_bare_word (cs ++ rest) ≡ true)
        × (ds : List ℕ) × (cs ≡ word ++ ds))

bare_none : (cs : List ℕ) → after word cs ≡ none → is_bare_word cs ≡ false
unfolding is_bare_word
bare_none cs h =
    ap (λ (o : Option (List ℕ)). elim o [ none ↦ false | some rest ↦ ends_at_boundary rest ]) h

bare_some : (cs rest : List ℕ) → after word cs ≡ some rest → is_bare_word cs ≡ ends_at_boundary rest
unfolding is_bare_word
bare_some cs rest h =
    ap (λ (o : Option (List ℕ)). elim o [ none ↦ false | some rest ↦ ends_at_boundary rest ]) h

abbrev step_by : Bool → Option (List ℕ) → Step
step_by true found = hold
step_by false none = pass
step_by false (some []) = hold
step_by false (some (c ∷ rest)) = if is_boundary c then replace else pass

step_at-eq : (cs : List ℕ) → step_at cs ≡ step_by (is_cut_word word cs) (after word cs)
unfolding step_at
step_at-eq cs = by_cases (is_cut_word word cs) (after word cs)
  where
    by_cases :
        (cut : Bool) (found : Option (List ℕ))
        → (if cut then hold else elim found [
          | none ↦ pass
          | some [] ↦ hold
          | some (c ∷ rest) ↦ if is_boundary c then replace else pass
        ])
          ≡ step_by cut found
    by_cases true found = refl
    by_cases false none = refl
    by_cases false (some []) = refl
    by_cases false (some (c ∷ rest)) = refl

found_cases :
    (cs found : List ℕ) → is_cut_word word cs ≡ false → after word cs ≡ some found → StepCase cs
found_cases cs [] uncut h = inl (step_at-eq cs ∙ ap₂ step_by uncut h)
found_cases cs (d ∷ ds) uncut h = elim (Bool-cases (is_boundary d)) [
  | inl boundary ↦ inr (
      inr (
        step_at-eq cs ∙ ap₂ step_by uncut h ∙ ap (λ b. if b then replace else pass) boundary,
        λ rest. bare_some (cs ++ rest) _ (after-append word cs (d ∷ ds) rest h) ∙ boundary,
        d ∷ ds,
        after-eq word cs (d ∷ ds) h,
      ))
  | inr other ↦ inr (
      inl (
        step_at-eq cs ∙ ap₂ step_by uncut h ∙ ap (λ b. if b then replace else pass) other,
        λ rest. bare_some (cs ++ rest) _ (after-append word cs (d ∷ ds) rest h) ∙ other,
      ))
]

pub step_cases : (cs : List ℕ) → StepCase cs
step_cases cs = elim (Bool-cases (is_cut_word word cs)) [
  | inl cut ↦ inl (step_at-eq cs ∙ ap (λ b. step_by b (after word cs)) cut)
  | inr uncut ↦ elim (Option-cases (after word cs)) [
    | inl missing ↦ inr (
        inl (
          step_at-eq cs ∙ ap₂ step_by uncut missing,
          λ rest. bare_none (cs ++ rest) (after_none word cs rest missing uncut),
        ))
    | inr (found, h) ↦ found_cases cs found uncut h
  ]
]
