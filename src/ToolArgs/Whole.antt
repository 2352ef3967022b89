-- ===== src/ToolArgs/Whole.antt =====
-- From the chunks of a text to the whole of it.
use mathlib.Core.Bool.{false≢true}
use llm_aio_gateway.Prelude.{
  ℕ, zero, suc, ◌%◌, ◌≤◌, ◌≡◌, refl, sym, ap, subst, ap₂, ◌∙◌, inl, inr, Bool, true, false, ◌&&◌,
  Option, none, some, List, [], ◌∷◌, ◌++◌, ◌==◌, nat_eq, is_empty, length, length-append, arith,
  Bool-cases,
}
use llm_aio_gateway.ToolArgs.Defs.{
  quote, backslash, word, empty_string, after, scan, sanitize_args, Sanitizer, initial, Fed,
  feed_loop, trailing, take_first, is_bare_word, feed, flush, feed_all, slashes_after,
}
use llm_aio_gateway.ToolArgs.Chunks.{
  is_plain, is_plain-append, IsPart, IsPart-nil, IsPart-inside, IsPart-opening, IsPart-replace,
  IsPart-hold, IsPart-pass, step_cases, word_rest, after-eq,
}

abbrev rest_of : List ℕ → List ℕ
rest_of [] = []
rest_of (c ∷ cs) = cs

plain_tail :
    (c : ℕ) (cs : List ℕ)
    → is_plain (c ∷ cs) ≡ true
    → ((c == backslash) ≡ false) × (is_plain cs ≡ true)
plain_tail c cs h = ground (arith, h)

plain_second : (cs ds : List ℕ) → is_plain (cs ++ ds) ≡ true → is_plain ds ≡ true
plain_second cs ds h = ground (arith, h, is_plain-append cs ds)

part : (fuel : ℕ) (b : Bool) (buf : List ℕ) → length buf ≤ fuel → is_plain buf ≡ true → IsPart b buf
part fuel b [] few plain = IsPart-nil b
part zero b (c ∷ cs) few plain = absurd (omega (arith, few))
part (suc fuel) true (c ∷ cs) few plain =
    let (other, rest) = plain_tail c cs plain in
    IsPart-inside c cs other (part fuel true cs (omega (arith, few)) rest)
      (part fuel false cs (omega (arith, few)) rest)
part (suc fuel) false (c ∷ cs) few plain =
    let (no_slash, rest) = plain_tail c cs plain in
    elim (Bool-cases (c == quote)) [
      | inl opens ↦
          subst (λ x. IsPart false (x ∷ cs)) (sym ((nat_eq.beq_iff c quote).0 opens))
            (IsPart-opening cs (part fuel true cs (omega (arith, few)) rest))
      | inr other ↦ elim (step_cases (c ∷ cs)) [
        | inl held ↦ IsPart-hold c cs other held
        | inr (inl (passed, bare)) ↦
            IsPart-pass c cs no_slash other passed bare
              (part fuel false cs (omega (arith, few)) rest)
        | inr (inr (replaced, bare, ds, split)) ↦
            let tail_split : cs ≡ word_rest ++ ds = ap rest_of split in
            IsPart-replace c cs ds other replaced bare tail_split (
              part fuel false ds
                (omega (arith, few, ap length tail_split ∙ length-append word_rest ds))
                (plain_second word_rest ds (subst (λ xs. is_plain xs ≡ true) tail_split rest)))
      ]
    ]

-- What is kept back has no backslash, and inside of a string nothing is.
abbrev IsKept : Fed → Type 0
IsKept fed = (is_plain fed.kept ≡ true) × (fed.open_string ≡ true → fed.kept ≡ [])

feed_loop-IsKept :
    (buf : List ℕ) (b : Bool) (slashes skip : ℕ)
    → is_plain buf ≡ true
    → IsKept (feed_loop b slashes skip buf)
unfolding feed_loop
feed_loop-IsKept [] b slashes skip plain = (refl, λ _. refl)
feed_loop-IsKept (c ∷ cs) b slashes (suc skip) plain =
    feed_loop-IsKept cs b 0 skip (plain_tail c cs plain).1
feed_loop-IsKept (c ∷ cs) true slashes zero plain =
    elim (Bool-cases (c == quote && slashes % 2 == 0)) [
      | inl closes ↦ rw closes (feed_loop-IsKept cs false 0 0 (plain_tail c cs plain).1)
      | inr other ↦
          rw other (feed_loop-IsKept cs true (slashes_after slashes c) 0 (plain_tail c cs plain).1)
    ]
feed_loop-IsKept (c ∷ cs) false slashes zero plain = elim (Bool-cases (c == quote)) [
  | inl opens ↦ rw opens (feed_loop-IsKept cs true 0 0 (plain_tail c cs plain).1)
  | inr other ↦ rw other (elim (step_cases (c ∷ cs)) [
    | inl held ↦ rw held (plain, λ h. absurd (false≢true h))
    | inr (inl (passed, _)) ↦
        rw passed (feed_loop-IsKept cs false (slashes_after slashes c) 0 (plain_tail c cs plain).1)
    | inr (inr (replaced, _, _, _)) ↦
        rw replaced (feed_loop-IsKept cs false 0 8 (plain_tail c cs plain).1)
  ])
]

trailing_plain : (cs : List ℕ) → is_plain cs ≡ true → trailing cs ≡ []
trailing_plain [] h = refl
trailing_plain (c ∷ cs) h =
    ground (arith, trailing_plain cs (plain_tail c cs h).1, (plain_tail c cs h).0)

take_all : (cs : List ℕ) → take_first (length cs) cs ≡ cs
take_all [] = refl
take_all (c ∷ cs) = ap (λ xs. c ∷ xs) (take_all cs)

-- Between chunks of plain texts: what is kept back is plain, and nothing is inside of a string.
record IsReady (s : Sanitizer) : Type 0 where
  plain_pending : is_plain s.pending ≡ true
  none_inside : s.in_str ≡ true → s.pending ≡ []

abbrev fed_at : Sanitizer → List ℕ → Fed
fed_at s chunk = feed_loop s.in_str 0 0 (s.pending ++ chunk)

feed-eq :
    (s : Sanitizer) (chunk : List ℕ)
    → is_empty chunk ≡ false
    → is_plain (s.pending ++ chunk) ≡ true
    → feed s chunk ≡ (
      record { in_str = (fed_at s chunk).open_string; pending = (fed_at s chunk).kept },
      (fed_at s chunk).out,
    )
unfolding feed
feed-eq s chunk some_there plain =
    elim (Bool-cases (is_empty (fed_at s chunk).kept && (fed_at s chunk).open_string)) [
      | inr other ↦ rw (some_there, other) refl
      | inl inside ↦
          rw (some_there, inside, trailing_plain (s.pending ++ chunk) plain)
            (ap₂ (λ xs out. (record { in_str = (fed_at s chunk).open_string; pending = xs }, out))
              (sym (
                (feed_loop-IsKept (s.pending ++ chunk) s.in_str 0 0 plain).1
                  (ground (arith, inside))))
              (ap (λ n. take_first n (fed_at s chunk).out) (omega arith)
                ∙ take_all (fed_at s chunk).out))
    ]

append_assoc : (xs ys zs : List ℕ) → (xs ++ ys) ++ zs ≡ xs ++ (ys ++ zs)
append_assoc [] ys zs = refl
append_assoc (x ∷ xs) ys zs = ap (λ us. x ∷ us) (append_assoc xs ys zs)

append-nil : (xs : List ℕ) → xs ++ [] ≡ xs
append-nil [] = refl
append-nil (x ∷ xs) = ap (λ us. x ∷ us) (append-nil xs)

-- The chunks one after another.
unfoldable pub flat : List (List ℕ) → List ℕ
flat [] = []
flat (chunk ∷ chunks) = chunk ++ flat chunks

-- What is pending at the end is the word alone, or is repaired as a text of its own.
flushed :
    (pending : List ℕ) (found : Option (List ℕ))
    → after word pending ≡ found
    → (elim found [
      | none ↦ sanitize_args pending
      | some [] ↦ empty_string
      | some (c ∷ rest) ↦ sanitize_args pending
    ])
      ≡ scan false 0 0 pending
unfolding sanitize_args scan is_bare_word
flushed pending none h = refl
flushed pending (some []) h =
    subst (λ xs. empty_string ≡ scan false 0 0 xs) (sym (after-eq word pending [] h)) refl
flushed pending (some (c ∷ rest)) h = refl

flush-scan : (s : Sanitizer) → IsReady s → flush s ≡ scan s.in_str 0 0 s.pending
unfolding flush scan sanitize_args
flush-scan s r = elim (Bool-cases s.in_str) [
  | inl inside ↦ rw (inside, r.none_inside inside) refl
  | inr outside ↦ rw outside (flushed s.pending (after word s.pending) refl)
]

feed_all-scan :
    (chunks : List (List ℕ)) (s : Sanitizer)
    → IsReady s
    → is_plain (flat chunks) ≡ true
    → feed_all s chunks ≡ scan s.in_str 0 0 (s.pending ++ flat chunks)
unfolding feed_all flat IsPart
feed_all-scan [] s r plain =
    flush-scan s r ∙ ap (λ xs. scan s.in_str 0 0 xs) (sym (append-nil s.pending))
feed_all-scan ([] ∷ chunks) s r plain = feed_all-scan chunks s r plain
feed_all-scan ((c ∷ cs) ∷ chunks) s r plain =
    let chunk = c ∷ cs in
    let buf_plain : is_plain (s.pending ++ chunk) ≡ true = ground (
      arith,
      is_plain-append s.pending chunk,
      r.plain_pending,
      is_plain-append chunk (flat chunks),
      plain,
    ) in
    let rest_plain = plain_second chunk (flat chunks) plain in
    let s' : Sanitizer = record {
      in_str = (fed_at s chunk).open_string;
      pending = (fed_at s chunk).kept;
    } in
    let kept = feed_loop-IsKept (s.pending ++ chunk) s.in_str 0 0 buf_plain in
    rw (feed-eq s chunk refl buf_plain) (
      ap (λ xs. (fed_at s chunk).out ++ xs)
        (feed_all-scan chunks s' (record { plain_pending = kept.0; none_inside = kept.1 })
          rest_plain)
      ∙ sym (
          part (length (s.pending ++ chunk)) s.in_str (s.pending ++ chunk) (omega arith) buf_plain
            (flat chunks))
      ∙ ap (λ xs. scan s.in_str 0 0 xs) (append_assoc s.pending chunk (flat chunks)))

-- If no chunk of the arguments has a backslash, then what the chunks are repaired to, one after
-- another and with what the end gives out, is what the whole text is repaired to, wherever it is
-- cut.
pub feed_all-sanitize_args :
    (chunks : List (List ℕ))
    → is_plain (flat chunks) ≡ true
    → feed_all initial chunks ≡ sanitize_args (flat chunks)
unfolding sanitize_args
feed_all-sanitize_args chunks plain =
    feed_all-scan chunks initial
      (record { plain_pending = refl; none_inside = λ h. absurd (false≢true h) }) plain
