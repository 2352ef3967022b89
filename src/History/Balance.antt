-- ===== src/History/Balance.antt =====
-- `sanitize_tool_history` leaves a history in which calls and results pair off.
use llm_aio_gateway.Prelude.{
  String, ℕ, zero, suc, ◌≤◌, ◌≡◌, refl, subst, true, false, not, ◌&&◌, ◌||◌, List, [], ◌∷◌, ◌==◌,
  string_eq, nat_eq, if◌then◌else◌, length, is_empty, any, all, All, All-weaken, arith, Bool-cases,
  inl, inr,
}
use llm_aio_gateway.Messages.{
  InternalPart, InternalMessage, is_assistant, is_tool, is_call, is_result, keep_if,
}
use llm_aio_gateway.History.Defs.{
  keep_results, responses, after_responses, clean, sanitize_tool_history,
}
use llm_aio_gateway.History.Unchanged.{keep_if-eq, responses-append, responses-HaveParts}
use llm_aio_gateway.History.Inherit.{any-keep_if, any-keep_if-not}
use llm_aio_gateway.History.Groups.{has_results, IsApart, Balanced, done, plain, group}
use llm_aio_gateway.History.Rounds.{
  clean_group-Balanced, unchanged-IsAnswered, after_responses-All, length-after_responses, IsKeptAs,
  answers-All, unchanged_answers, IsRound-of,
}

no_calls_kept :
    (m : InternalMessage)
    → (is_assistant m.role && any is_call m.parts) ≡ false
    → (is_assistant m.role && any is_call (keep_if (λ p. not (is_result p)) m.parts)) ≡ false
no_calls_kept m test = ground (arith, any-keep_if is_call (λ p. not (is_result p)) m.parts)

module _ (P : InternalMessage → Type 0) where
  -- A message outside a round: its results go.
  stripped-Balanced :
      (m : InternalMessage) (ms : List InternalMessage)
      → (is_assistant m.role && any is_call m.parts) ≡ false
      → Balanced P ms
      → Balanced P (
          let parts = keep_if (λ p. not (is_result p)) m.parts in
          if is_empty parts then ms else record m { parts = parts } ∷ ms)
  stripped-Balanced m ms test b =
      elim (Bool-cases (is_empty (keep_if (λ p. not (is_result p)) m.parts))) [
        | inl gone ↦ rw gone b
        | inr left ↦ rw left (
            plain (record m { parts = keep_if (λ p. not (is_result p)) m.parts }) ms
              (record {
                no_results = any-keep_if-not is_result m.parts;
                no_calls = no_calls_kept m test;
              })
              b)
      ]

  unstripped-Balanced :
      (m : InternalMessage) (ms : List InternalMessage)
      → (is_assistant m.role && any is_call m.parts) ≡ false
      → length m.parts ≤ length (keep_if (λ p. not (is_result p)) m.parts)
      → Balanced P ms
      → Balanced P (m ∷ ms)
  unstripped-Balanced m ms test le b =
      plain m ms
        (record {
          no_results =
              subst (λ ps. any is_result ps ≡ false)
                (keep_if-eq (λ p. not (is_result p)) m.parts le)
                (any-keep_if-not is_result m.parts);
          no_calls = test;
        })
        b

module _ (P Q : InternalMessage → Type 0) where
  -- Enough fuel: the loop's result, and what it found if it removed nothing.
  clean-Balanced :
      (fuel : ℕ) (ms : List InternalMessage)
      → length ms ≤ fuel
      → ((m : InternalMessage) → Q m → IsApart m)
      → IsKeptAs P Q
      → All Q ms
      → Balanced P (clean fuel ms).0 × ((clean fuel ms).1 ≡ 0 → Balanced P ms)
  unfolding clean
  clean-Balanced zero [] le apart keeps h = (done, λ _. done)
  clean-Balanced zero (m ∷ ms) le apart keeps h = absurd (omega arith)
  clean-Balanced (suc fuel) [] le apart keeps h = (done, λ _. done)
  clean-Balanced (suc fuel) (m ∷ ms) le apart keeps (p, h) =
      let after =
        clean-Balanced fuel (after_responses ms) (omega (arith, length-after_responses ms)) apart
          keeps (after_responses-All Q ms h) in
      let next = clean-Balanced fuel ms (omega arith) apart keeps h in
      elim (Bool-cases (is_assistant m.role && any is_call m.parts)) [
        | inl calls ↦
            let r = IsRound-of m ms (apart m p) (All-weaken Q IsApart ms apart h) calls in
            let answers = answers-All P Q m ms keeps h in
            rw calls (
              clean_group-Balanced P m (responses ms) _ r answers after.0,
              λ none_removed.
                  subst (λ l. Balanced P (m ∷ l)) (responses-append ms)
                    (group m (responses ms) (after_responses ms)
                      (unchanged-IsAnswered m (responses ms) r (omega arith))
                      (subst (λ rs. All P rs)
                        (unchanged_answers m (responses ms) (responses-HaveParts ms) (omega arith))
                        answers)
                      (after.1 (omega arith))),
            )
        | inr other ↦ elim (Bool-cases (is_tool m.role || any is_result m.parts)) [
          | inl stray ↦
              rw (other, stray)
                (
                  stripped-Balanced P m _ other next.0,
                  λ none_removed.
                      unstripped-Balanced P m ms other (omega arith) (next.1 (omega arith)),
                )
          | inr simple ↦
              rw (other, simple)
                (
                  plain m _ (record { no_results = ground arith; no_calls = other }) next.0,
                  λ none_removed.
                      plain m ms (record { no_results = ground arith; no_calls = other })
                        (next.1 none_removed),
                )
        ]
      ]

  sanitize-Balanced :
      (ms : List InternalMessage)
      → ((m : InternalMessage) → Q m → IsApart m)
      → IsKeptAs P Q
      → All Q ms
      → Balanced P (sanitize_tool_history ms).0
  unfolding sanitize_tool_history
  sanitize-Balanced ms apart keeps h =
      let (cleaned, found) = clean-Balanced (length ms) ms (omega arith) apart keeps h in
      elim (Bool-cases ((clean (length ms) ms).1 == 0)) [
        | inl nothing ↦ rw nothing (found (ground arith))
        | inr something ↦ rw something cleaned
      ]

-- If no message holds both calls and results, then after the repair the calls and results pair off:
-- an assistant message with calls is followed by a run of messages with no calls that hold together
-- one result for each of its calls, which are named and have different ids, and no other result; no
-- other message holds a result, and no other assistant message a call. The run may also contain
-- messages without a result: what is left of a message when the results in it were removed.
pub sanitize_tool_history-Balanced :
    (ms : List InternalMessage)
    → All IsApart ms
    → Balanced (λ r. Unit {0}) (sanitize_tool_history ms).0
sanitize_tool_history-Balanced ms h =
    sanitize-Balanced (λ r. Unit {0}) IsApart ms (λ m p. p) (λ accepted kept m p held left. tt) h

-- A message that holds a result holds nothing else.
abbrev pub IsPure : InternalMessage → Type 0
IsPure m = has_results m ≡ true → all is_result m.parts ≡ true

kept_results_only :
    (accepted kept : List String) (ps : List InternalPart)
    → all is_result ps ≡ true
    → is_empty (keep_results accepted kept ps) ≡ false
    → any is_result (keep_results accepted kept ps) ≡ true
unfolding keep_results
kept_results_only accepted kept [] h left = cc
kept_results_only accepted kept (p ∷ ps) h left = ground (
  arith,
  h,
  left,
  kept_results_only accepted kept ps,
  kept_results_only accepted (p.tool_call_id ∷ kept) ps,
)

results_are_no_calls : (ps : List InternalPart) → all is_result ps ≡ true → any is_call ps ≡ false
results_are_no_calls [] h = refl
results_are_no_calls (p ∷ ps) h = ground (arith, h, results_are_no_calls ps)

-- If no message holds a result and anything else, then after the repair each assistant message with
-- calls is followed at once by the messages that answer it: each of them holds a result, and together
-- they hold one for each of its calls, which are named and have different ids, and no other; no other
-- message holds a result, and no other assistant message a call.
pub sanitize_tool_history-IsFollowed :
    (ms : List InternalMessage)
    → All IsPure ms
    → Balanced (λ r. has_results r ≡ true) (sanitize_tool_history ms).0
sanitize_tool_history-IsFollowed ms h =
    sanitize-Balanced (λ r. has_results r ≡ true) IsPure ms
      (λ m pure held. results_are_no_calls m.parts (pure held))
      (λ accepted kept m pure held left. kept_results_only accepted kept m.parts (pure held) left) h
