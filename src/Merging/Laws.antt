-- ===== src/Merging/Laws.antt =====
-- What the merging keeps, and that one system message is left.
use llm_aio_gateway.Prelude.{
  ◌≤◌, ◌≡◌, refl, sym, ap, ◌∙◌, inl, inr, String, true, false, not, List, [], ◌∷◌, ◌++◌,
  if◌then◌else◌, length, Bool-cases, arith,
}
use llm_aio_gateway.Messages.{InternalMessage}
use llm_aio_gateway.Merging.Defs.{
  is_system, is_user, merge_compatible_messages, combine_all, messages_where, of_system,
  gather_systems, merge_adjacent, normalize_messages,
}
use llm_aio_gateway.Merging.Runs.{
  is_plain, other_parts, user_parts, no_system_user, merge_adjacent_kept,
}

not_system_kept :
    (m : InternalMessage) (ms : List InternalMessage)
    → is_system m.role ≡ false
    → messages_where (λ x. not (of_system x)) (m ∷ ms)
      ≡ m ∷ messages_where (λ x. not (of_system x)) ms
unfolding messages_where
not_system_kept m ms other = rw other refl

no_system_head :
    (m : InternalMessage) (ms : List InternalMessage)
    → is_system m.role ≡ false
    → messages_where of_system (m ∷ ms) ≡ messages_where of_system ms
unfolding messages_where
no_system_head m ms other = rw other refl

system_dropped :
    (m : InternalMessage) (ms : List InternalMessage)
    → is_system m.role ≡ true
    → messages_where (λ x. not (of_system x)) (m ∷ ms) ≡ messages_where (λ x. not (of_system x)) ms
unfolding messages_where
system_dropped m ms is_one = rw is_one refl

plain_head :
    (m : InternalMessage) (xs ys : List InternalMessage)
    → messages_where is_plain xs ≡ messages_where is_plain ys
    → messages_where is_plain (m ∷ xs) ≡ messages_where is_plain (m ∷ ys)
unfolding messages_where
plain_head m xs ys eq = ap (λ zs. if is_plain m then m ∷ zs else zs) eq

user_head :
    (m : InternalMessage) (xs ys : List InternalMessage)
    → user_parts xs ≡ user_parts ys
    → user_parts (m ∷ xs) ≡ user_parts (m ∷ ys)
unfolding user_parts
user_head m xs ys eq = ap (λ ps. if is_user m.role then other_parts m.parts ++ ps else ps) eq

gathered_plain :
    (m : InternalMessage) (ms : List InternalMessage)
    → is_system m.role ≡ true
    → messages_where is_plain (m ∷ ms) ≡ messages_where is_plain ms
unfolding messages_where
gathered_plain m ms is_one = rw is_one refl

gathered_user :
    (m : InternalMessage) (ms : List InternalMessage)
    → is_system m.role ≡ true
    → user_parts (m ∷ ms) ≡ user_parts ms
unfolding user_parts
gathered_user m ms is_one = ground (arith, is_one, no_system_user m.role)

abbrev others_of : List InternalMessage → List InternalMessage
others_of ms = messages_where (λ x. not (of_system x)) ms

where_not :
    (ms : List InternalMessage)
    → (messages_where of_system (others_of ms) ≡ [])
      × (messages_where is_plain (others_of ms) ≡ messages_where is_plain ms)
      × (user_parts (others_of ms) ≡ user_parts ms)
unfolding messages_where user_parts
where_not [] = (refl, refl, refl)
where_not (m ∷ ms) =
    let (none_left, plain, parts) = where_not ms in
    elim (Bool-cases (is_system m.role)) [
      | inl is_one ↦
          let dropped = system_dropped m ms is_one in
          (
            ap (λ xs. messages_where of_system xs) dropped ∙ none_left,
            ap (λ xs. messages_where is_plain xs) dropped
                ∙ plain
                ∙ sym (gathered_plain m ms is_one),
            ap (λ xs. user_parts xs) dropped ∙ parts ∙ sym (gathered_user m ms is_one),
          )
      | inr other ↦
          let kept = not_system_kept m ms other in
          (
            ap (λ xs. messages_where of_system xs) kept
                ∙ no_system_head m (others_of ms) other
                ∙ none_left,
            ap (λ xs. messages_where is_plain xs) kept ∙ plain_head m (others_of ms) ms plain,
            ap (λ xs. user_parts xs) kept ∙ user_head m (others_of ms) ms parts,
          )
    ]

combine_all-role :
    (ms : List InternalMessage) (m : InternalMessage) → (combine_all m ms).role ≡ m.role
unfolding combine_all
combine_all-role [] m = refl
combine_all-role (x ∷ xs) m = combine_all-role xs (merge_compatible_messages m x)

system_of_where :
    (ms : List InternalMessage) (s : InternalMessage) (rest : List InternalMessage)
    → messages_where of_system ms ≡ s ∷ rest
    → is_system s.role ≡ true
unfolding messages_where
system_of_where [] s rest h = cc
system_of_where (m ∷ ms) s rest h = ground (arith, h, system_of_where ms s rest)

-- At most one message of the system is left, the messages of the assistant and of tools are kept as
-- they are and in their order, and so are the parts of the user that are no texts.
abbrev pub IsMerged : List InternalMessage → List InternalMessage → Type 0
IsMerged before after =
    (length (messages_where of_system after) ≤ 1)
    × (messages_where is_plain after ≡ messages_where is_plain before)
    × (user_parts after ≡ user_parts before)

gathered_length :
    (m : InternalMessage) (ms : List InternalMessage)
    → messages_where of_system ms ≡ []
    → length (messages_where of_system (m ∷ ms)) ≤ 1
unfolding messages_where
gathered_length m ms none_left = ground (arith, none_left)

gather-IsMerged :
    (merged ss : List InternalMessage)
    → messages_where of_system merged ≡ ss
    → IsMerged merged (gather_systems merged ss)
unfolding gather_systems
gather-IsMerged merged [] eq = (rw eq (omega arith), refl, refl)
gather-IsMerged merged (s ∷ []) eq = (rw eq (omega arith), refl, refl)
gather-IsMerged merged (s ∷ t ∷ extra) eq =
    let all_in_one = combine_all s (t ∷ extra) in
    let is_one : is_system all_in_one.role ≡ true =
      ap is_system (combine_all-role (t ∷ extra) s) ∙ system_of_where merged s (t ∷ extra) eq in
    let others = messages_where (λ m. not (of_system m)) merged in
    let (none_left, plain, parts) = where_not merged in
    (
      gathered_length all_in_one others none_left,
      gathered_plain all_in_one others is_one ∙ plain,
      gathered_user all_in_one others is_one ∙ parts,
    )

module _ (strip_billing_header : String → String) where
  -- The merging leaves at most one message of the system, keeps the messages of the assistant and of
  -- tools as they are and in their order, and keeps all parts of the user that are no texts in theirs.
  pub normalize_messages-IsMerged :
      (messages : List InternalMessage)
      → IsMerged messages (normalize_messages strip_billing_header messages)
  unfolding normalize_messages
  normalize_messages-IsMerged messages =
      let merged = merge_adjacent strip_billing_header messages in
      let (one, plain, parts) = gather-IsMerged merged (messages_where of_system merged) refl in
      let (plain', parts') = merge_adjacent_kept strip_billing_header messages in
      (one, plain ∙ plain', parts ∙ parts')
