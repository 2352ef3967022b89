-- ===== src/Merging/Runs.antt =====
-- What the merging of adjacent messages, the loop of `normalize_messages`, keeps.
use mathlib.Core.List.{append_assoc, append-nil}
use llm_aio_gateway.Prelude.{
  ◌≡◌, refl, sym, ap, ap₂, ◌∙◌, inl, inr, String, Bool, true, false, not, ◌&&◌, List, [], ◌∷◌, ◌++◌,
  if◌then◌else◌, Bool-cases, arith,
}
use llm_aio_gateway.Messages.{
  Role, system, user, assistant, tool, InternalPart, InternalMessage, is_text_kind, keep_if,
}
use llm_aio_gateway.Merging.Defs.{
  is_system, is_user, message_parts_are_text_only, join_texts, merge_parts,
  merge_compatible_messages, same_merged_role, messages_where, clean_system, merge_run,
  merge_adjacent,
}

-- The parts of a message that are no texts, and those of all messages of the user.
unfoldable pub other_parts : List InternalPart → List InternalPart
unfolding keep_if
other_parts parts = keep_if (λ p. not (is_text_kind p.kind)) parts

unfoldable pub user_parts : List InternalMessage → List InternalPart
unfolding other_parts
user_parts [] = []
user_parts (m ∷ ms) =
    let rest = user_parts ms in if is_user m.role then other_parts m.parts ++ rest else rest

-- The messages of the assistant and of tools.
abbrev pub is_plain : InternalMessage → Bool
is_plain m = not (is_system m.role) && not (is_user m.role)

other_parts-append :
    (xs ys : List InternalPart) → other_parts (xs ++ ys) ≡ other_parts xs ++ other_parts ys
unfolding other_parts
other_parts-append [] ys = refl
other_parts-append (x ∷ xs) ys = elim (Bool-cases (is_text_kind x.kind)) [
  | inl text ↦ rw text (other_parts-append xs ys)
  | inr other ↦ rw other (ap (λ ps. x ∷ ps) (other_parts-append xs ys))
]

texts_only : (xs : List InternalPart) → message_parts_are_text_only xs ≡ true → other_parts xs ≡ []
unfolding message_parts_are_text_only other_parts
texts_only [] h = refl
texts_only (x ∷ xs) h = ground (arith, h, texts_only xs)

join_texts-texts :
    (xs : List InternalPart) (s : InternalPart) (rest : List InternalPart)
    → message_parts_are_text_only xs ≡ true
    → message_parts_are_text_only (s ∷ rest) ≡ true
    → message_parts_are_text_only (join_texts xs s rest) ≡ true
unfolding join_texts message_parts_are_text_only
join_texts-texts [] s rest h g = g
join_texts-texts (p ∷ []) s rest h g = ground (arith, h, g)
join_texts-texts (p ∷ q ∷ ps) s rest h g = ground (arith, h, join_texts-texts (q ∷ ps) s rest)

other_parts-merge :
    (xs ys : List InternalPart) → other_parts (merge_parts xs ys) ≡ other_parts xs ++ other_parts ys
unfolding merge_parts other_parts
other_parts-merge xs [] = sym (append-nil (other_parts xs))
other_parts-merge xs (s ∷ rest) =
    elim (Bool-cases (message_parts_are_text_only xs && message_parts_are_text_only (s ∷ rest))) [
      | inr mixed ↦ rw mixed (other_parts-append xs (s ∷ rest))
      | inl texts ↦ rw texts (
          texts_only (join_texts xs s rest)
            (join_texts-texts xs s rest (ground (arith, texts)) (ground (arith, texts)))
          ∙ sym (
              ap₂ (λ ps qs. ps ++ qs) (texts_only xs (ground (arith, texts)))
                (texts_only (s ∷ rest) (ground (arith, texts)))))
    ]

pub no_system_user : (r : Role) → is_user r ≡ true → is_system r ≡ false
no_system_user user h = refl
no_system_user system h = cc
no_system_user assistant h = refl
no_system_user tool h = refl

module _ (strip_billing_header : String → String) where
  clean_system_role : (m : InternalMessage) → (clean_system strip_billing_header m).role ≡ m.role
  clean_system_role m = ground arith

  clean_other :
      (m : InternalMessage) → is_system m.role ≡ false → clean_system strip_billing_header m ≡ m
  clean_other m h = rw h refl

  user_parts-clean :
      (m : InternalMessage) (ms : List InternalMessage)
      → user_parts (clean_system strip_billing_header m ∷ ms) ≡ user_parts (m ∷ ms)
  unfolding user_parts
  user_parts-clean m ms = elim (Bool-cases (is_system m.role)) [
    | inl is_one ↦ rw is_one (ground (arith, no_system_user m.role, is_one))
    | inr other ↦ rw other refl
  ]

  plain-clean :
      (m : InternalMessage) (ms : List InternalMessage)
      → messages_where is_plain (clean_system strip_billing_header m ∷ ms)
        ≡ messages_where is_plain (m ∷ ms)
  unfolding messages_where
  plain-clean m ms = elim (Bool-cases (is_system m.role)) [
    | inl is_one ↦ rw is_one (ground (arith, is_one))
    | inr other ↦ ap (λ x. messages_where is_plain (x ∷ ms)) (clean_other m other)
  ]

  -- A message of the user or of the system that is merged into another one.
  merged_user :
      (last m : InternalMessage) (ms : List InternalMessage)
      → same_merged_role last m ≡ true
      → user_parts (merge_compatible_messages last (clean_system strip_billing_header m) ∷ ms)
        ≡ user_parts (last ∷ m ∷ ms)
  unfolding user_parts
  merged_user last m ms same = elim (Bool-cases (is_user last.role)) [
    | inl of_user ↦
        let user_too : is_user m.role ≡ true =
          ground (arith, same, of_user, no_system_user last.role) in
        rw (of_user, user_too, clean_other m (no_system_user m.role user_too), other_parts-merge)
          (append_assoc (other_parts last.parts) (other_parts m.parts) (user_parts ms))
    | inr other ↦
        let no_user : is_user m.role ≡ false = ground (arith, same, other, no_system_user m.role) in
        rw (other, no_user) refl
  ]

  merged_plain :
      (last m : InternalMessage) (ms : List InternalMessage)
      → same_merged_role last m ≡ true
      → messages_where is_plain
          (merge_compatible_messages last (clean_system strip_billing_header m) ∷ ms)
        ≡ messages_where is_plain (last ∷ m ∷ ms)
  unfolding messages_where
  merged_plain last m ms same = ground (arith, same)

  user_parts-run :
      (ms : List InternalMessage) (last : InternalMessage)
      → user_parts (merge_run strip_billing_header last ms) ≡ user_parts (last ∷ ms)
  unfolding merge_run user_parts
  user_parts-run [] last = refl
  user_parts-run (m ∷ ms) last = elim (Bool-cases (same_merged_role last m)) [
    | inl same ↦ rw same (
        user_parts-run ms (merge_compatible_messages last (clean_system strip_billing_header m))
        ∙ merged_user last m ms same)
    | inr apart ↦ rw apart (
        ap (λ ps. if is_user last.role then other_parts last.parts ++ ps else ps)
          (user_parts-run ms (clean_system strip_billing_header m) ∙ user_parts-clean m ms))
  ]

  plain-run :
      (ms : List InternalMessage) (last : InternalMessage)
      → messages_where is_plain (merge_run strip_billing_header last ms)
        ≡ messages_where is_plain (last ∷ ms)
  unfolding merge_run messages_where
  plain-run [] last = refl
  plain-run (m ∷ ms) last = elim (Bool-cases (same_merged_role last m)) [
    | inl same ↦ rw same (
        plain-run ms (merge_compatible_messages last (clean_system strip_billing_header m))
        ∙ merged_plain last m ms same)
    | inr apart ↦ rw apart (
        ap (λ xs. if is_plain last then last ∷ xs else xs)
          (plain-run ms (clean_system strip_billing_header m) ∙ plain-clean m ms))
  ]

module _ (strip_billing_header : String → String) where
  pub merge_adjacent_kept :
      (ms : List InternalMessage)
      → (messages_where is_plain (merge_adjacent strip_billing_header ms)
          ≡ messages_where is_plain ms)
        × (user_parts (merge_adjacent strip_billing_header ms) ≡ user_parts ms)
  unfolding merge_adjacent
  merge_adjacent_kept [] = (refl, refl)
  merge_adjacent_kept (m ∷ ms) = (
    plain-run strip_billing_header ms (clean_system strip_billing_header m)
        ∙ plain-clean strip_billing_header m ms,
    user_parts-run strip_billing_header ms (clean_system strip_billing_header m)
        ∙ user_parts-clean strip_billing_header m ms,
  )
