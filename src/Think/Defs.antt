-- ===== src/Think/Defs.antt =====
-- `extract_and_strip_think`, on the code points of a text. The position of the loops is the rest of
-- the text from it.
use llm_aio_gateway.Prelude.{
  ℕ, zero, suc, nat_eq, Bool, ◌==◌, ◌||◌, List, [], ◌∷◌, ◌++◌, if◌then◌else◌, Option, none, some,
  length, ltb, codes, is_space,
}

abbrev pub think_open : List ℕ
think_open = codes "<think>"

abbrev pub think_close : List ℕ
think_close = codes "</think>"

-- What follows a text's beginning.
unfoldable pub after_prefix : List ℕ → List ℕ → Option (List ℕ)
after_prefix [] text = some text
after_prefix (p ∷ ps) [] = none
after_prefix (p ∷ ps) (c ∷ cs) = if p == c then after_prefix ps cs else none

-- `str.find`: what stands before the first occurrence and what stands after it.
unfoldable pub find : List ℕ → List ℕ → Option (List ℕ × List ℕ)
unfolding after_prefix
find tag [] = none
find tag (c ∷ cs) = elim (after_prefix tag (c ∷ cs)) [
  | some rest ↦ some ([], rest)
  | none ↦ elim (find tag cs) [ none ↦ none | some (before, rest) ↦ some (c ∷ before, rest) ]
]

-- The next tag of a block, if a closing one is left.
pub data Tag : Type 0 where
  opens : List ℕ → List ℕ → Tag
  closes : List ℕ → List ℕ → Tag

unfoldable pub next_tag : List ℕ → Option Tag
unfolding find
next_tag text = elim (find think_close text) [
  | none ↦ none
  | some (inside, after) ↦ elim (find think_open text) [
    | none ↦ some (closes inside after)
    | some (before, within) ↦
        if ltb (length before) (length inside)
        then some (opens before within)
        else some (closes inside after)
  ]
]

-- How a block ends: closed, with its thought and what follows; with no closing tag left; or with
-- the text, after a closing tag of a block inside it.
pub data Block : Type 0 where
  closed : List ℕ → List ℕ → Block
  unclosed cut_off : Block

-- The inner loop: the depth is one more than `deeper`, and `seen` is the thought so far.
unfoldable pub close_block : ℕ → ℕ → List ℕ → List ℕ → Option Block
unfolding next_tag
close_block zero deeper seen text = none
close_block (suc n) deeper seen [] = some cut_off
close_block (suc n) deeper seen (c ∷ cs) = elim (next_tag (c ∷ cs)) [
  | none ↦ some unclosed
  | some (opens before within) ↦ close_block n (suc deeper) (seen ++ before ++ think_open) within
  | some (closes inside after) ↦ elim deeper [
    | zero ↦ some (closed (seen ++ inside) after)
    | suc d ↦ close_block n d (seen ++ inside ++ think_close) after
  ]
]

abbrev pub is_blank : ℕ → Bool
is_blank c = c == 32 || c == 9 || c == 10 || c == 13 || c == 12

unfoldable pub skip_blanks : List ℕ → List ℕ
skip_blanks [] = []
skip_blanks (c ∷ cs) = if is_blank c then skip_blanks cs else c ∷ cs

-- The outer loop, to the body and the thoughts.
unfoldable pub extract_loop : ℕ → List ℕ → Option (List ℕ × List (List ℕ))
unfolding find close_block skip_blanks
extract_loop zero text = none
extract_loop (suc n) [] = some ([], [])
extract_loop (suc n) (c ∷ cs) = elim (find think_open (c ∷ cs)) [
  | none ↦ some (c ∷ cs, [])
  | some (before, inside) ↦ elim (close_block (suc (length inside)) 0 [] inside) [
    | none ↦ none
    | some unclosed ↦ some (before, inside ∷ [])
    | some cut_off ↦ some (before, [])
    | some (closed thought rest) ↦ elim (extract_loop n (skip_blanks rest)) [
      | none ↦ none
      | some (body, thoughts) ↦ some (before ++ body, thought ∷ thoughts)
    ]
  ]
]

-- `str.strip`, and `"\n".join`
unfoldable pub lstrip : List ℕ → List ℕ
lstrip [] = []
lstrip (c ∷ cs) = if is_space c then lstrip cs else c ∷ cs

unfoldable pub rstrip : List ℕ → List ℕ
rstrip [] = []
rstrip (c ∷ cs) = elim (rstrip cs) [ [] ↦ if is_space c then [] else c ∷ [] | d ∷ ds ↦ c ∷ d ∷ ds ]

unfoldable pub join_lines : List (List ℕ) → List ℕ
join_lines [] = []
join_lines (x ∷ []) = x
join_lines (x ∷ y ∷ ys) = x ++ 10 ∷ join_lines (y ∷ ys)

-- extract_and_strip_think
unfoldable pub extract_and_strip_think : List ℕ → Option (List ℕ × List ℕ)
unfolding extract_loop lstrip rstrip join_lines
extract_and_strip_think text = elim (extract_loop (suc (length text)) text) [
  | none ↦ none
  | some (body, thoughts) ↦ some (rstrip (lstrip body), join_lines thoughts)
]
