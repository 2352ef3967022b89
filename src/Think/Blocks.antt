-- ===== src/Think/Blocks.antt =====
-- The blocks of a text that is written from its words and its thoughts.
use llm_aio_gateway.Prelude.{
  ℕ, zero, suc, subst, ◌<◌, ◌≡◌, refl, ap, ◌∙◌, inl, inr, Bool, true, not, ◌&&◌, nat_eq, beq_self,
  ◌==◌, List, [], ◌∷◌, ◌++◌, all, none, some, length, codes, arith, Option-cases,
}
use llm_aio_gateway.Think.Fuel.{length-find, length-skip_blanks}
use llm_aio_gateway.Think.Defs.{
  think_open, think_close, after_prefix, find, closes, next_tag, closed, close_block, skip_blanks,
  extract_loop, lstrip, rstrip, join_lines, extract_and_strip_think,
}

-- A text in which no tag begins.
abbrev pub is_plain_text : List ℕ → Bool
is_plain_text text = all (λ c. not (c == 60)) text

after_prefix-append : (tag rest : List ℕ) → after_prefix tag (tag ++ rest) ≡ some rest
unfolding after_prefix
after_prefix-append [] rest = refl
after_prefix-append (c ∷ cs) rest = rw (beq_self c) (after_prefix-append cs rest)

-- Tags begin with the code point 60.
find_behind :
    (tag words rest : List ℕ)
    → is_plain_text words ≡ true
    → find (60 ∷ tag) (words ++ ((60 ∷ tag) ++ rest)) ≡ some (words, rest)
unfolding find after_prefix
find_behind tag [] rest h = rw (after_prefix-append tag rest) refl
find_behind tag (c ∷ cs) rest h = ground (arith, h, find_behind tag cs rest)

find_nothing : (tag words : List ℕ) → is_plain_text words ≡ true → find (60 ∷ tag) words ≡ none
unfolding find after_prefix
find_nothing tag [] h = refl
find_nothing tag (c ∷ cs) h = ground (arith, h, find_nothing tag cs)

-- The closing tag is no opening one: what is found stands later.
find_past :
    (words rest before after : List ℕ)
    → is_plain_text words ≡ true
    → find think_open (words ++ (think_close ++ rest)) ≡ some (before, after)
    → length words < length before
unfolding find after_prefix
find_past [] rest before after h eq =
    elim (Option-cases (find think_open (codes "/think>" ++ rest))) [
      | inl nothing ↦ ground (arith, eq, nothing)
      | inr ((before', after'), found) ↦ ground (arith, eq, found)
    ]
find_past (c ∷ cs) rest before after h eq =
    elim (Option-cases (find think_open (cs ++ (think_close ++ rest)))) [
      | inl nothing ↦ ground (arith, h, eq, nothing)
      | inr ((before', after'), found) ↦
          ground (arith, h, eq, found, find_past cs rest before' after' (ground (arith, h)) found)
    ]

next_tag_closes :
    (words rest : List ℕ)
    → is_plain_text words ≡ true
    → next_tag (words ++ (think_close ++ rest)) ≡ some (closes words rest)
unfolding next_tag
next_tag_closes words rest h =
    let closing = find_behind (codes "/think>") words rest h in
    elim (Option-cases (find think_open (words ++ (think_close ++ rest)))) [
      | inl nothing ↦ rw (next_tag, closing, nothing) refl
      | inr ((before, within), found) ↦
          let later = find_past words rest before within h found in
          ground (arith, closing, found, later)
    ]

closing_step :
    (n : ℕ) (seen text inside after : List ℕ)
    → next_tag text ≡ some (closes inside after)
    → close_block (suc n) 0 seen text ≡ some (closed (seen ++ inside) after)
unfolding close_block next_tag find
closing_step n seen [] inside after h = cc
closing_step n seen (c ∷ cs) inside after h = rw (close_block, h) refl

block_step :
    (n : ℕ) (text before inside thought rest body : List ℕ) (thoughts : List (List ℕ))
    → find think_open text ≡ some (before, inside)
    → close_block (suc (length inside)) 0 [] inside ≡ some (closed thought rest)
    → extract_loop n (skip_blanks rest) ≡ some (body, thoughts)
    → extract_loop (suc n) text ≡ some (before ++ body, thought ∷ thoughts)
unfolding extract_loop find
block_step n [] before inside thought rest body thoughts opening block later = cc
block_step n (c ∷ cs) before inside thought rest body thoughts opening block later =
    rw (extract_loop, opening, block, later) refl

-- A text: words, and then thoughts in tags, each with the words behind it.
unfoldable pub written : List ℕ → List (List ℕ × List ℕ) → List ℕ
written words [] = words
written words ((thought, more) ∷ blocks) =
    words ++ (think_open ++ (thought ++ (think_close ++ written more blocks)))

-- Its words, without the blanks behind a thought.
unfoldable pub words_of : List ℕ → List (List ℕ × List ℕ) → List ℕ
unfolding skip_blanks
words_of words [] = words
words_of words ((thought, more) ∷ blocks) = words ++ words_of (skip_blanks more) blocks

unfoldable pub thoughts_of : List (List ℕ × List ℕ) → List (List ℕ)
thoughts_of [] = []
thoughts_of ((thought, more) ∷ blocks) = thought ∷ thoughts_of blocks

unfoldable pub is_plain_all : List (List ℕ × List ℕ) → Bool
is_plain_all [] = true
is_plain_all ((thought, more) ∷ blocks) =
    is_plain_text thought && is_plain_text more && is_plain_all blocks

skip_blanks_plain :
    (words : List ℕ) → is_plain_text words ≡ true → is_plain_text (skip_blanks words) ≡ true
unfolding skip_blanks
skip_blanks_plain [] h = refl
skip_blanks_plain (c ∷ cs) h = ground (arith, h, skip_blanks_plain cs)

skip_blanks-append :
    (words rest : List ℕ) → skip_blanks (words ++ 60 ∷ rest) ≡ skip_blanks words ++ 60 ∷ rest
unfolding skip_blanks
skip_blanks-append [] rest = refl
skip_blanks-append (c ∷ cs) rest = ground (arith, skip_blanks-append cs rest)

skip_blanks-written :
    (words : List ℕ) (blocks : List (List ℕ × List ℕ))
    → skip_blanks (written words blocks) ≡ written (skip_blanks words) blocks
unfolding written
skip_blanks-written words [] = refl
skip_blanks-written words ((thought, more) ∷ blocks) =
    skip_blanks-append words (codes "think>" ++ (thought ++ (think_close ++ written more blocks)))

extract_plain :
    (n : ℕ) (words : List ℕ)
    → is_plain_text words ≡ true
    → extract_loop (suc n) words ≡ some (words, [])
unfolding extract_loop
extract_plain n [] h = refl
extract_plain n (c ∷ cs) h = rw (extract_loop, find_nothing (codes "think>") (c ∷ cs) h) refl

extract_loop-written :
    (n : ℕ) (words : List ℕ) (blocks : List (List ℕ × List ℕ))
    → is_plain_text words ≡ true
    → is_plain_all blocks ≡ true
    → length (written words blocks) < n
    → extract_loop n (written words blocks) ≡ some (words_of words blocks, thoughts_of blocks)
unfolding written words_of thoughts_of is_plain_all
extract_loop-written zero words blocks h g enough = absurd (omega (arith, enough))
extract_loop-written (suc n) words [] h g enough = extract_plain n words h
extract_loop-written (suc n) words ((thought, more) ∷ blocks) h g enough =
    let rest = written more blocks in
    let inside = thought ++ (think_close ++ rest) in
    let opening = find_behind (codes "think>") words inside h in
    let plain : is_plain_text thought ≡ true = ground (arith, g) in
    let plain_more : is_plain_text more ≡ true = ground (arith, g) in
    let closing = find_behind (codes "/think>") thought rest plain in
    let skipped = skip_blanks-written more blocks in
    let shorter = length-find think_open (words ++ (think_open ++ inside)) words inside opening in
    let shorter_still = length-find think_close inside thought rest closing in
    let few : length (written (skip_blanks more) blocks) < n =
      subst (λ text. length text < n) skipped
        (omega (arith, enough, shorter, shorter_still, length-skip_blanks rest)) in
    let later =
      extract_loop-written n (skip_blanks more) blocks (skip_blanks_plain more plain_more)
        (ground (arith, g)) few in
    block_step n (words ++ (think_open ++ inside)) words inside thought rest
      (words_of (skip_blanks more) blocks) (thoughts_of blocks) opening
      (closing_step (length inside) [] inside thought rest (next_tag_closes thought rest plain))
      (ap (λ text. extract_loop n text) skipped ∙ later)

-- From a text of words and thoughts, none with a character that begins a tag, the words are taken
-- without the blanks behind the thoughts, and stripped, and the thoughts are joined line by line.
pub extract_and_strip_think-written :
    (words : List ℕ) (blocks : List (List ℕ × List ℕ))
    → is_plain_text words ≡ true
    → is_plain_all blocks ≡ true
    → extract_and_strip_think (written words blocks)
      ≡ some (rstrip (lstrip (words_of words blocks)), join_lines (thoughts_of blocks))
unfolding extract_and_strip_think
extract_and_strip_think-written words blocks h g =
    rw
      (
        extract_and_strip_think,
        extract_loop-written (suc (length (written words blocks))) words blocks h g (omega arith),
      )
      refl
