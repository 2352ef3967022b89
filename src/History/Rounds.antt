-- ===== src/History/Rounds.antt =====
-- A round of the repair: an assistant message with calls, and its responses.
use llm_aio_gateway.Prelude.{
  String, ◌≤◌, ◌≡◌, refl, ap, subst, sym, ◌∙◌, true, false, ◌&&◌, List, [], ◌∷◌, ◌++◌, string_eq,
  nat_eq, length, is_empty, any, All, arith, Bool-cases, inl, inr,
}
use llm_aio_gateway.Dict.{contains}
use llm_aio_gateway.Messages.{
  InternalPart, InternalMessage, is_assistant, is_call, is_result, keep_if, message_has_payload,
  nonempty_ids, ids_of, tool_result_ids,
}
use llm_aio_gateway.History.Defs.{
  is_named, drop_unnamed, responses, after_responses, keep_results, kept_after, clean_responses,
  clean_group,
}
use llm_aio_gateway.History.Keep.{keep_calls-AreDistinct, clean_responses-AreDistinct}
use llm_aio_gateway.History.Unchanged.{
  keep_calls-eq, clean_responses-eq, calls-drop_unnamed, drop_unnamed-eq, HaveParts,
  responses-HaveParts,
}
use llm_aio_gateway.History.Inherit.{
  any-drop_unnamed, any-keep_calls, any-clean_responses, all-drop_unnamed, all-keep_calls,
  named_if_call, no_calls_of_payload, eq-nil_of_contains, no_results_of_ids,
}
use llm_aio_gateway.History.Groups.{
  has_calls, has_results, IsApart, IsAnswered, Balanced, plain, group, group_accepted, group_parts,
  group_answers, group_answered,
}

abbrev pub HaveNoCalls : List InternalMessage → Type 0
HaveNoCalls = All (λ r. has_calls r ≡ false)

-- What one round of the outer loop meets: an assistant message with calls, and its responses.
pub record IsRound (m : InternalMessage) (rs : List InternalMessage) : Type 0 where
  from_assistant : is_assistant m.role ≡ true
  no_results : has_results m ≡ false
  no_calls : HaveNoCalls rs
  have_parts : HaveParts rs

abbrev after_round : InternalMessage → List InternalMessage → InternalMessage
after_round m rs = record m { parts = group_parts m rs }

round-IsAnswered :
    (m : InternalMessage) (rs : List InternalMessage)
    → IsRound m rs
    → IsAnswered (after_round m rs) (group_answers m rs)
round-IsAnswered m rs r = record {
  from_assistant = r.from_assistant;
  no_results =
      any-keep_calls is_result (group_accepted m rs) [] (drop_unnamed m.parts)
        (any-drop_unnamed is_result m.parts r.no_results);
  named =
      all-keep_calls named_if_call (group_accepted m rs) [] (drop_unnamed m.parts)
        (all-drop_unnamed m.parts);
  distinct = keep_calls-AreDistinct (group_accepted m rs) [] (drop_unnamed m.parts);
  answered_once = clean_responses-AreDistinct (group_accepted m rs) [] rs;
  answered = λ i. group_answered i m rs;
  no_calls = any-clean_responses is_call (group_accepted m rs) [] rs r.no_calls;
}

-- Without a call left, no result is left either.
no_answers :
    (m : InternalMessage) (rs : List InternalMessage)
    → message_has_payload (after_round m rs) ≡ false
    → All (λ r. has_results r ≡ false) (group_answers m rs)
no_answers m rs h = no_results_of_ids (group_answers m rs) (
    eq-nil_of_contains _ λ i.
      sym (group_answered i m rs)
      ∙ ap (λ ps. contains i (ids_of ps)) (no_calls_of_payload (after_round m rs) h)
      ∙ unfold contains ids_of in refl)

module _ (P : InternalMessage → Type 0) where
  plain-append :
      (rs ms : List InternalMessage)
      → All (λ r. has_results r ≡ false) rs
      → HaveNoCalls rs
      → Balanced P ms
      → Balanced P (rs ++ ms)
  plain-append [] ms h k b = b
  plain-append (r ∷ rs) ms (p, h) (q, k) b =
      plain r (rs ++ ms) (record { no_results = p; no_calls = ground arith })
        (plain-append rs ms h k b)

  pub clean_group-Balanced :
      (m : InternalMessage) (rs ms : List InternalMessage)
      → IsRound m rs
      → All P (group_answers m rs)
      → Balanced P ms
      → Balanced P ((clean_group m rs).0 ++ ms)
  unfolding clean_group
  clean_group-Balanced m rs ms r q b = elim (Bool-cases (message_has_payload (after_round m rs))) [
    | inl kept ↦
        rw kept (group (after_round m rs) (group_answers m rs) ms (round-IsAnswered m rs r) q b)
    | inr dropped ↦ rw dropped (
        plain-append (group_answers m rs) ms (no_answers m rs dropped)
          (any-clean_responses is_call (group_accepted m rs) [] rs r.no_calls) b)
  ]

-- A round that removes nothing found the group as it should be.
unchanged_parts :
    (m : InternalMessage) (rs : List InternalMessage)
    → (clean_group m rs).1 ≡ 0
    → group_parts m rs ≡ m.parts
unfolding clean_group
unchanged_parts m rs h =
    let calls = keep_if is_call m.parts in
    let all_named : length calls ≤ length (keep_if is_named calls) = ground arith in
    let same = drop_unnamed-eq m.parts all_named in
    let kept : length (keep_if is_named calls) ≤ length (keep_if is_call (group_parts m rs)) =
      ground arith in
    keep_calls-eq (group_accepted m rs) [] (drop_unnamed m.parts) (rw calls-drop_unnamed kept)
    ∙ same

pub unchanged_answers :
    (m : InternalMessage) (rs : List InternalMessage)
    → HaveParts rs
    → (clean_group m rs).1 ≡ 0
    → group_answers m rs ≡ rs
unfolding clean_group
unchanged_answers m rs p h = clean_responses-eq (group_accepted m rs) [] rs p (ground arith)

pub unchanged-IsAnswered :
    (m : InternalMessage) (rs : List InternalMessage)
    → IsRound m rs
    → (clean_group m rs).1 ≡ 0
    → IsAnswered m rs
unchanged-IsAnswered m rs r h =
    subst (λ a. IsAnswered m a) (unchanged_answers m rs r.have_parts h)
      (subst (λ (ps : List InternalPart). IsAnswered (record m { parts = ps }) (group_answers m rs))
        (unchanged_parts m rs h) (round-IsAnswered m rs r))

has_results_of_ids :
    (ps : List InternalPart)
    → is_empty (nonempty_ids (keep_if is_result ps)) ≡ false
    → any is_result ps ≡ true
unfolding nonempty_ids keep_if
has_results_of_ids [] h = cc
has_results_of_ids (p ∷ ps) h = ground (arith, has_results_of_ids ps)

responses-no_calls : (ms : List InternalMessage) → All IsApart ms → HaveNoCalls (responses ms)
unfolding responses tool_result_ids
responses-no_calls [] h = tt
responses-no_calls (m ∷ ms) (p, h) =
    elim (Bool-cases (is_empty (nonempty_ids (keep_if is_result m.parts)))) [
      | inl none_there ↦ rw none_there tt
      | inr some_there ↦
          rw some_there (p (has_results_of_ids m.parts some_there), responses-no_calls ms h)
    ]

pub after_responses-All :
    (Q : InternalMessage → Type 0) (ms : List InternalMessage)
    → All Q ms
    → All Q (after_responses ms)
unfolding after_responses
after_responses-All Q [] h = tt
after_responses-All Q (m ∷ ms) (p, h) = elim (Bool-cases (is_empty (tool_result_ids m))) [
  | inl none_there ↦ rw none_there (p, h)
  | inr some_there ↦ rw some_there (after_responses-All Q ms h)
]

responses-All :
    (Q : InternalMessage → Type 0) (ms : List InternalMessage)
    → All Q ms
    → All (λ r. Q r × (has_results r ≡ true)) (responses ms)
unfolding responses tool_result_ids
responses-All Q [] h = tt
responses-All Q (m ∷ ms) (p, h) =
    elim (Bool-cases (is_empty (nonempty_ids (keep_if is_result m.parts)))) [
      | inl none_there ↦ rw none_there tt
      | inr some_there ↦
          rw some_there ((p, has_results_of_ids m.parts some_there), responses-All Q ms h)
    ]

-- What is kept of a message with results has the property `P` where the message has `Q`.
abbrev pub IsKeptAs : (P Q : InternalMessage → Type 0) → Type 0
IsKeptAs P Q =
    (accepted kept : List String) (m : InternalMessage)
    → Q m
    → has_results m ≡ true
    → is_empty (keep_results accepted kept m.parts) ≡ false
    → P (record m { parts = keep_results accepted kept m.parts })

clean_responses-All :
    (P Q : InternalMessage → Type 0) (accepted kept : List String) (rs : List InternalMessage)
    → IsKeptAs P Q
    → All (λ r. Q r × (has_results r ≡ true)) rs
    → All P (clean_responses accepted kept rs).0
unfolding clean_responses
clean_responses-All P Q accepted kept [] keeps h = tt
clean_responses-All P Q accepted kept (r ∷ rs) keeps ((q, held), h) =
    let later = clean_responses-All P Q accepted (kept_after accepted kept r.parts) rs keeps h in
    elim (Bool-cases (is_empty (keep_results accepted kept r.parts))) [
      | inl gone ↦ rw gone later
      | inr left ↦ rw left (keeps accepted kept r q held left, later)
    ]

pub answers-All :
    (P Q : InternalMessage → Type 0) (m : InternalMessage) (ms : List InternalMessage)
    → IsKeptAs P Q
    → All Q ms
    → All P (group_answers m (responses ms))
answers-All P Q m ms keeps h =
    clean_responses-All P Q (group_accepted m (responses ms)) [] (responses ms) keeps
      (responses-All Q ms h)

pub length-after_responses : (ms : List InternalMessage) → length (after_responses ms) ≤ length ms
unfolding after_responses
length-after_responses [] = omega arith
length-after_responses (m ∷ ms) = ground (arith, length-after_responses ms)

pub IsRound-of :
    (m : InternalMessage) (ms : List InternalMessage)
    → IsApart m
    → All IsApart ms
    → (is_assistant m.role && any is_call m.parts) ≡ true
    → IsRound m (responses ms)
IsRound-of m ms apart h test = record {
  from_assistant = ground arith;
  no_results = elim (Bool-cases (any is_result m.parts)) [
    | inl results ↦ ground (arith, apart results)
    | inr none_there ↦ none_there
  ];
  no_calls = responses-no_calls ms h;
  have_parts = responses-HaveParts ms;
}
