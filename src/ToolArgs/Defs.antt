-- ===== src/ToolArgs/Defs.antt =====
-- `sanitize_args` and `StreamingArgsSanitizer`, over texts as code points. An index into the text is
-- the rest of the text from there, with the number of backslashes that stand before it; a word that
-- was replaced is passed over by a count of code points to skip.
use llm_aio_gateway.Prelude.{
  ℕ, suc, zero, ◌-◌, ◌%◌, Bool, true, false, not, ◌&&◌, Option, none, some, List, [], ◌∷◌, ◌++◌,
  ◌==◌, nat_eq, if◌then◌else◌, codes, is_empty, any, length,
}

abbrev pub quote : ℕ
quote = 34

abbrev pub backslash : ℕ
backslash = 92

-- `_UNDEFINED`
abbrev pub word : List ℕ
word = codes "undefined"

abbrev pub empty_string : List ℕ
empty_string = codes "\"\""

-- `c in ',}] \t\r\n:'`
abbrev pub is_boundary : ℕ → Bool
is_boundary c = any (λ d. c == d) (codes ",}] \t\r\n:")

-- What is after a prefix, if the text starts with it.
abbrev pub after : List ℕ → List ℕ → Option (List ℕ)
after [] cs = some cs
after (p ∷ ps) [] = none
after (p ∷ ps) (c ∷ cs) = if p == c then after ps cs else none

-- The text is shorter than the word and the word starts with it.
abbrev pub is_cut_word : List ℕ → List ℕ → Bool
is_cut_word [] cs = false
is_cut_word (p ∷ ps) [] = true
is_cut_word (p ∷ ps) (c ∷ cs) = p == c && is_cut_word ps cs

abbrev pub ends_at_boundary : List ℕ → Bool
ends_at_boundary [] = true
ends_at_boundary (c ∷ cs) = is_boundary c

-- The test of `sanitize_args`: the word and then the end or a boundary.
unfoldable pub is_bare_word : List ℕ → Bool
is_bare_word cs = elim (after word cs) [ none ↦ false | some rest ↦ ends_at_boundary rest ]

abbrev pub slashes_after : ℕ → ℕ → ℕ
slashes_after n c = if c == backslash then suc n else 0

-- The loop of `sanitize_args`: whether a string is open, the backslashes before, and what to skip.
unfoldable pub scan : Bool → ℕ → ℕ → List ℕ → List ℕ
scan in_str slashes skip [] = []
scan in_str slashes (suc skip) (c ∷ cs) = scan in_str 0 skip cs
scan in_str slashes zero (c ∷ cs) =
    let toggled = scan (not in_str) 0 0 cs in
    let next = scan in_str (slashes_after slashes c) 0 cs in
    let replaced = scan in_str 0 8 cs in
    if c == quote
    then c ∷ (if slashes % 2 == 0 then toggled else scan in_str 0 0 cs)
    else if not in_str && is_bare_word (c ∷ cs)
    then empty_string ++ replaced
    else c ∷ next

unfoldable pub sanitize_args : List ℕ → List ℕ
unfolding scan
sanitize_args args = scan false 0 0 args

pub record Sanitizer : Type 0 where
  pub in_str : Bool
  pub pending : List ℕ

abbrev pub initial : Sanitizer
initial = record { in_str = false; pending = [] }

-- What the loop of `feed` comes to: its output, what it keeps back, and whether a string is open.
pub record Fed : Type 0 where
  pub out : List ℕ
  pub kept : List ℕ
  pub open_string : Bool

abbrev pub emit : List ℕ → Fed → Fed
emit cs fed = record fed { out = cs ++ fed.out }

-- Outside of strings, at a code point that is no quote: the word is cut off by the end of the chunk,
-- or stands at the end of it; it is bare; or the code point is passed on.
pub data Step : Type 0 where
  hold replace pass : Step

unfoldable pub step_at : List ℕ → Step
step_at cs = if is_cut_word word cs then hold else elim (after word cs) [
  | none ↦ pass
  | some [] ↦ hold
  | some (c ∷ rest) ↦ if is_boundary c then replace else pass
]

unfoldable pub feed_loop : Bool → ℕ → ℕ → List ℕ → Fed
feed_loop in_str slashes skip [] = record { out = []; kept = []; open_string = in_str }
feed_loop in_str slashes (suc skip) (c ∷ cs) = feed_loop in_str 0 skip cs
feed_loop in_str slashes zero (c ∷ cs) =
    let next = feed_loop in_str (slashes_after slashes c) 0 cs in
    let closed = feed_loop false 0 0 cs in
    let opened = feed_loop true 0 0 cs in
    let replaced = feed_loop false 0 8 cs in
    if in_str
    then if c == quote && slashes % 2 == 0 then emit (c ∷ []) closed else emit (c ∷ []) next
    else if c == quote
    then emit (c ∷ []) opened
    else elim (step_at (c ∷ cs)) [
      | hold ↦ record { out = []; kept = c ∷ cs; open_string = false }
      | replace ↦ emit empty_string replaced
      | pass ↦ emit (c ∷ []) next
    ]

-- The backslashes at the end of a text, and the text before them.
abbrev pub trailing : List ℕ → List ℕ
trailing [] = []
trailing (c ∷ cs) =
    let rest = trailing cs in if length rest == length cs && c == backslash then c ∷ rest else rest

abbrev pub take_first : ℕ → List ℕ → List ℕ
take_first zero cs = []
take_first (suc n) [] = []
take_first (suc n) (c ∷ cs) = c ∷ take_first n cs

-- StreamingArgsSanitizer.feed
unfoldable pub feed : Sanitizer → List ℕ → Sanitizer × List ℕ
unfolding feed_loop
feed s chunk =
    if is_empty chunk
    then (s, [])
    else (let buf = s.pending ++ chunk in
        let fed = feed_loop s.in_str 0 0 buf in
        let tail = trailing buf in
        if is_empty fed.kept && fed.open_string
        then (
          record { in_str = fed.open_string; pending = tail },
          take_first (length fed.out - length tail) fed.out,
        )
        else (record { in_str = fed.open_string; pending = fed.kept }, fed.out))

-- StreamingArgsSanitizer.flush, the output
unfoldable pub flush : Sanitizer → List ℕ
unfolding sanitize_args
flush s =
    if s.in_str
    then s.pending
    else elim (after word s.pending) [ some [] ↦ empty_string | _ ↦ sanitize_args s.pending ]

-- The chunks of an argument one after another, and the flush.
unfoldable pub feed_all : Sanitizer → List (List ℕ) → List ℕ
unfolding feed flush
feed_all s [] = flush s
feed_all s (chunk ∷ chunks) = let (s', out) = feed s chunk in out ++ feed_all s' chunks
