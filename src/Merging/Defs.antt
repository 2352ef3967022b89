-- ===== src/Merging/Defs.antt =====
-- `normalize_messages`. What `strip_billing_header` leaves of a text is a parameter, a regular
-- expression of Python's re; names, raw payloads and extensions of messages are left out.
use Prim.Native.String
use llm_aio_gateway.Prelude.{
  String, Bool, true, false, not, ◌&&◌, ◌||◌, List, [], ◌∷◌, ◌++◌, if◌then◌else◌, all, is_nonempty,
  map,
}
use llm_aio_gateway.Messages.{
  Role, system, user, assistant, tool, InternalPart, InternalMessage, is_text_kind,
}

abbrev pub is_system : Role → Bool
is_system system = true
is_system user = false
is_system assistant = false
is_system tool = false

abbrev pub is_user : Role → Bool
is_user user = true
is_user system = false
is_user assistant = false
is_user tool = false

-- _message_parts_are_text_only
unfoldable pub message_parts_are_text_only : List InternalPart → Bool
message_parts_are_text_only parts = all (λ (p : InternalPart). is_text_kind p.kind) parts

-- The first text of the source goes on in the last part of the target.
unfoldable pub join_texts : List InternalPart → InternalPart → List InternalPart → List InternalPart
join_texts [] s rest = s ∷ rest
join_texts (p ∷ []) s rest =
    record p { text = String.◌++◌ p.text (String.◌++◌ "\n\n" s.text) } ∷ rest
join_texts (p ∷ q ∷ ps) s rest = p ∷ join_texts (q ∷ ps) s rest

unfoldable pub merge_parts : List InternalPart → List InternalPart → List InternalPart
unfolding message_parts_are_text_only join_texts
merge_parts target [] = target
merge_parts target (s ∷ rest) =
    if message_parts_are_text_only target && message_parts_are_text_only (s ∷ rest)
    then join_texts target s rest
    else target ++ (s ∷ rest)

-- _merge_compatible_messages
abbrev pub merge_compatible_messages : InternalMessage → InternalMessage → InternalMessage
merge_compatible_messages target source = record target {
  parts = merge_parts target.parts source.parts;
}

abbrev pub same_merged_role : InternalMessage → InternalMessage → Bool
same_merged_role a b = (is_system a.role && is_system b.role) || (is_user a.role && is_user b.role)

unfoldable pub combine_all : InternalMessage → List InternalMessage → InternalMessage
unfolding merge_parts
combine_all m [] = m
combine_all m (x ∷ xs) = combine_all (merge_compatible_messages m x) xs

-- `[msg for msg in messages if test(msg)]`
unfoldable pub messages_where :
    (InternalMessage → Bool) → List InternalMessage → List InternalMessage
messages_where test [] = []
messages_where test (m ∷ ms) =
    let rest = messages_where test ms in if test m then m ∷ rest else rest

abbrev pub of_system : InternalMessage → Bool
of_system m = is_system m.role

-- The system messages are combined into one that stands first, if there are several.
unfoldable pub gather_systems : List InternalMessage → List InternalMessage → List InternalMessage
unfolding combine_all messages_where
gather_systems merged [] = merged
gather_systems merged (s ∷ []) = merged
gather_systems merged (s ∷ t ∷ extra) =
    combine_all s (t ∷ extra) ∷ messages_where (λ m. not (of_system m)) merged

module _ (strip_billing_header : String → String) where
  abbrev clean_part : InternalPart → InternalPart
  clean_part p =
      if is_text_kind p.kind && is_nonempty p.text
      then record p { text = strip_billing_header p.text }
      else p

  abbrev pub clean_system : InternalMessage → InternalMessage
  clean_system m = if is_system m.role then record m { parts = map clean_part m.parts } else m

  -- The loop, from the last message that was merged.
  unfoldable pub merge_run : InternalMessage → List InternalMessage → List InternalMessage
  unfolding merge_parts
  merge_run last [] = last ∷ []
  merge_run last (m ∷ ms) =
      let apart = merge_run (clean_system m) ms in
      let joined = merge_run (merge_compatible_messages last (clean_system m)) ms in
      if same_merged_role last m then joined else last ∷ apart

  unfoldable pub merge_adjacent : List InternalMessage → List InternalMessage
  unfolding merge_run
  merge_adjacent [] = []
  merge_adjacent (m ∷ ms) = merge_run (clean_system m) ms

  unfoldable pub normalize_messages : List InternalMessage → List InternalMessage
  unfolding merge_adjacent gather_systems
  normalize_messages messages =
      let merged = merge_adjacent messages in
      gather_systems merged (messages_where of_system merged)
