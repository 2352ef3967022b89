-- ===== src/Think/Fuel.antt =====
-- The loops of `extract_and_strip_think` end on every text.
use llm_aio_gateway.Prelude.{
  ℕ, zero, suc, ◌+◌, ◌≤◌, ◌<◌, ◌≡◌, ◌⊎◌, refl, inl, inr, nat_eq, List, [], ◌∷◌, ◌++◌, Option, some,
  length, arith, Option-cases,
}
use llm_aio_gateway.Think.Defs.{
  think_open, think_close, after_prefix, find, Tag, opens, closes, next_tag, Block, closed,
  unclosed, cut_off, close_block, skip_blanks, extract_loop, lstrip, rstrip, join_lines,
  extract_and_strip_think,
}

length-after_prefix :
    (tag text rest : List ℕ)
    → after_prefix tag text ≡ some rest
    → length tag + length rest ≡ length text
unfolding after_prefix
length-after_prefix [] text rest h = ground (arith, h)
length-after_prefix (p ∷ ps) [] rest h = cc
length-after_prefix (p ∷ ps) (c ∷ cs) rest h = ground (arith, h, length-after_prefix ps cs rest)

pub length-find :
    (tag text before rest : List ℕ)
    → find tag text ≡ some (before, rest)
    → length before + length tag + length rest ≡ length text
unfolding find
length-find tag [] before rest h = cc
length-find tag (c ∷ cs) before rest h = elim (Option-cases (after_prefix tag (c ∷ cs))) [
  | inl other ↦ elim (Option-cases (find tag cs)) [
    | inl nothing ↦ ground (arith, h, other, nothing)
    | inr ((before', rest'), found) ↦
        ground (arith, h, other, found, length-find tag cs before' rest' found)
  ]
  | inr (rest', here) ↦ ground (arith, h, here, length-after_prefix tag (c ∷ cs) rest' here)
]

-- What stands after the tag.
abbrev after_tag : Tag → List ℕ
after_tag (opens before within) = within
after_tag (closes inside after) = after

next_tag_shorter :
    (text : List ℕ) (t : Tag) → next_tag text ≡ some t → length (after_tag t) < length text
unfolding next_tag
next_tag_shorter text t h = elim (Option-cases (find think_close text)) [
  | inl nothing ↦ ground (arith, h, nothing)
  | inr ((inside, after), closing) ↦ elim (Option-cases (find think_open text)) [
    | inl nothing ↦
        ground (arith, h, nothing, closing, length-find think_close text inside after closing)
    | inr ((before, within), opening) ↦ ground (
      arith,
      h,
      closing,
      opening,
      length-find think_close text inside after closing,
      length-find think_open text before within opening,
    )
  ]
]

-- A block ends, and no more than `n` code points are left behind it.
abbrev pub EndsWithin : Option Block → ℕ → Type 0
EndsWithin o n =
    ((thought rest : List ℕ) × (o ≡ some (closed thought rest)) × (length rest ≤ n))
    ⊎ (o ≡ some unclosed)
    ⊎ (o ≡ some cut_off)

EndsWithin-weaken : (o : Option Block) (m n : ℕ) → m ≤ n → EndsWithin o m → EndsWithin o n
EndsWithin-weaken o m n h (inl (thought, rest, eq, short)) =
    inl (thought, rest, eq, omega (arith, h, short))
EndsWithin-weaken o m n h (inr other) = inr other

pub close_block-EndsWithin :
    (n deeper : ℕ) (seen text : List ℕ)
    → length text < n
    → EndsWithin (close_block n deeper seen text) (length text)
unfolding close_block
close_block-EndsWithin zero deeper seen text h = absurd (omega (arith, h))
close_block-EndsWithin (suc n) deeper seen [] h = inr (inr refl)
close_block-EndsWithin (suc n) deeper seen (c ∷ cs) h = elim (Option-cases (next_tag (c ∷ cs))) [
  | inl nothing ↦ inr (inl (rw (nothing, close_block) refl))
  | inr (opens before within, eq) ↦
      let shorter = next_tag_shorter (c ∷ cs) (opens before within) eq in
      rw (eq, close_block)
        (EndsWithin-weaken (close_block n (suc deeper) (seen ++ before ++ think_open) within)
          (length within) (length (c ∷ cs)) (omega (arith, shorter))
          (close_block-EndsWithin n (suc deeper) (seen ++ before ++ think_open) within
            (omega (arith, shorter, h))))
  | inr (closes inside after, eq) ↦
      let shorter = next_tag_shorter (c ∷ cs) (closes inside after) eq in
      elim deeper as (λ k. EndsWithin (close_block (suc n) k seen (c ∷ cs)) (length (c ∷ cs))) [
        | zero ↦ inl (seen ++ inside, after, rw (eq, close_block) refl, omega (arith, shorter))
        | suc d ↦
            rw (eq, close_block)
              (EndsWithin-weaken (close_block n d (seen ++ inside ++ think_close) after)
                (length after) (length (c ∷ cs)) (omega (arith, shorter))
                (close_block-EndsWithin n d (seen ++ inside ++ think_close) after
                  (omega (arith, shorter, h))))
      ]
]

pub length-skip_blanks : (text : List ℕ) → length (skip_blanks text) ≤ length text
unfolding skip_blanks
length-skip_blanks [] = omega arith
length-skip_blanks (c ∷ cs) = ground (arith, length-skip_blanks cs)

extract_loop_ends :
    (n : ℕ) (text : List ℕ)
    → length text < n
    → (r : List ℕ × List (List ℕ)) × (extract_loop n text ≡ some r)
unfolding extract_loop
extract_loop_ends zero text h = absurd (omega (arith, h))
extract_loop_ends (suc n) [] h = (([], []), refl)
extract_loop_ends (suc n) (c ∷ cs) h = elim (Option-cases (find think_open (c ∷ cs))) [
  | inl nothing ↦ ((c ∷ cs, []), rw (nothing, extract_loop) refl)
  | inr ((before, inside), opening) ↦
      elim (close_block-EndsWithin (suc (length inside)) 0 [] inside (omega arith)) [
        | inr (inl eq) ↦ ((before, inside ∷ []), rw (extract_loop, opening, eq) refl)
        | inr (inr eq) ↦ ((before, []), rw (extract_loop, opening, eq) refl)
        | inl (thought, rest, eq, short) ↦
            let shorter = length-find think_open (c ∷ cs) before inside opening in
            let ((body, thoughts), later) =
              extract_loop_ends n (skip_blanks rest)
                (omega (arith, h, short, shorter, length-skip_blanks rest)) in
            ((before ++ body, thought ∷ thoughts), rw (extract_loop, opening, eq, later) refl)
      ]
]

-- The extraction gives a body and thoughts for every text.
pub extract_and_strip_think_ends :
    (text : List ℕ) → (r : List ℕ × List ℕ) × (extract_and_strip_think text ≡ some r)
unfolding extract_and_strip_think
extract_and_strip_think_ends text =
    let ((body, thoughts), eq) = extract_loop_ends (suc (length text)) text (omega arith) in
    ((rstrip (lstrip body), join_lines thoughts), rw (extract_and_strip_think, eq) refl)
