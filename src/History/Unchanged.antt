-- ===== src/History/Unchanged.antt =====
-- When a filter of `sanitize_tool_history` removes nothing, it changes nothing.
use llm_aio_gateway.Prelude.{
  ◌≤◌, String, ◌≡◌, refl, Bool, false, not, ◌||◌, List, [], ◌∷◌, ◌++◌, string_eq, nat_eq, length,
  is_empty, All, arith, Bool-cases, inl, inr,
}
use llm_aio_gateway.Messages.{
  InternalPart, InternalMessage, is_call, is_result, keep_if, nonempty_ids, tool_result_ids,
}
use llm_aio_gateway.History.Defs.{
  is_named, drop_unnamed, responses, after_responses, keep_calls, keep_results, kept_after,
  clean_responses,
}

length-keep_if :
    (t : InternalPart → Bool) (ps : List InternalPart) → length (keep_if t ps) ≤ length ps
unfolding keep_if
length-keep_if t [] = omega arith
length-keep_if t (p ∷ ps) = ground (arith, length-keep_if t ps)

pub keep_if-eq :
    (t : InternalPart → Bool) (ps : List InternalPart)
    → length ps ≤ length (keep_if t ps)
    → keep_if t ps ≡ ps
unfolding keep_if
keep_if-eq t [] h = refl
keep_if-eq t (p ∷ ps) h = ground (arith, keep_if-eq t ps, length-keep_if t ps)

length-keep_results :
    (accepted kept : List String) (ps : List InternalPart)
    → length (keep_results accepted kept ps) ≤ length ps
unfolding keep_results
length-keep_results accepted kept [] = omega arith
length-keep_results accepted kept (p ∷ ps) = ground (
  arith,
  length-keep_results accepted kept ps,
  length-keep_results accepted (p.tool_call_id ∷ kept) ps,
)

keep_results-eq :
    (accepted kept : List String) (ps : List InternalPart)
    → length ps ≤ length (keep_results accepted kept ps)
    → keep_results accepted kept ps ≡ ps
unfolding keep_results
keep_results-eq accepted kept [] h = refl
keep_results-eq accepted kept (p ∷ ps) h = ground (
  arith,
  keep_results-eq accepted kept ps,
  keep_results-eq accepted (p.tool_call_id ∷ kept) ps,
  length-keep_results accepted kept ps,
  length-keep_results accepted (p.tool_call_id ∷ kept) ps,
)

length-keep_calls :
    (accepted kept : List String) (ps : List InternalPart)
    → length (keep_if is_call (keep_calls accepted kept ps)) ≤ length (keep_if is_call ps)
unfolding keep_calls keep_if
length-keep_calls accepted kept [] = omega arith
length-keep_calls accepted kept (p ∷ ps) = ground (
  arith,
  length-keep_calls accepted kept ps,
  length-keep_calls accepted (p.tool_call_id ∷ kept) ps,
)

pub keep_calls-eq :
    (accepted kept : List String) (ps : List InternalPart)
    → length (keep_if is_call ps) ≤ length (keep_if is_call (keep_calls accepted kept ps))
    → keep_calls accepted kept ps ≡ ps
unfolding keep_calls keep_if
keep_calls-eq accepted kept [] h = refl
keep_calls-eq accepted kept (p ∷ ps) h = ground (
  arith,
  keep_calls-eq accepted kept ps,
  keep_calls-eq accepted (p.tool_call_id ∷ kept) ps,
  length-keep_calls accepted kept ps,
  length-keep_calls accepted (p.tool_call_id ∷ kept) ps,
)

-- The messages that the inner loop gathers have parts.
abbrev pub HaveParts : List InternalMessage → Type 0
HaveParts = All (λ m. is_empty m.parts ≡ false)

has_parts :
    (ps : List InternalPart)
    → is_empty (nonempty_ids (keep_if is_result ps)) ≡ false
    → is_empty ps ≡ false
unfolding nonempty_ids keep_if
has_parts [] h = h
has_parts (p ∷ ps) h = refl

pub responses-HaveParts : (ms : List InternalMessage) → HaveParts (responses ms)
unfolding responses tool_result_ids
responses-HaveParts [] = tt
responses-HaveParts (m ∷ ms) =
    elim (Bool-cases (is_empty (nonempty_ids (keep_if is_result m.parts)))) [
      | inl none_there ↦ rw none_there tt
      | inr some_there ↦ rw some_there (has_parts m.parts some_there, responses-HaveParts ms)
    ]

pub responses-append : (ms : List InternalMessage) → responses ms ++ after_responses ms ≡ ms
unfolding responses after_responses
responses-append [] = refl
responses-append (m ∷ ms) = ground (arith, responses-append ms)

pub clean_responses-eq :
    (accepted kept : List String) (ms : List InternalMessage)
    → HaveParts ms
    → (clean_responses accepted kept ms).1 ≡ 0
    → (clean_responses accepted kept ms).0 ≡ ms
unfolding clean_responses
clean_responses-eq accepted kept [] h none_removed = refl
clean_responses-eq accepted kept (m ∷ ms) (p, h) none_removed = ground (
  arith,
  p,
  length-keep_results accepted kept m.parts,
  keep_results-eq accepted kept m.parts,
  clean_responses-eq accepted (kept_after accepted kept m.parts) ms h,
)

-- Of the calls, `drop_unnamed` keeps the named ones.
keep_if-keep_if :
    (ps : List InternalPart)
    → keep_if is_call (keep_if (λ p. not (is_call p) || is_named p) ps)
      ≡ keep_if is_named (keep_if is_call ps)
unfolding keep_if
keep_if-keep_if [] = refl
keep_if-keep_if (p ∷ ps) = ground (arith, keep_if-keep_if ps)

pub calls-drop_unnamed :
    (ps : List InternalPart)
    → keep_if is_call (drop_unnamed ps) ≡ keep_if is_named (keep_if is_call ps)
unfolding drop_unnamed
calls-drop_unnamed ps = ground (arith, keep_if-keep_if ps, keep_if-eq is_named (keep_if is_call ps))

pub drop_unnamed-eq :
    (ps : List InternalPart)
    → length (keep_if is_call ps) ≤ length (keep_if is_named (keep_if is_call ps))
    → drop_unnamed ps ≡ ps
unfolding drop_unnamed
drop_unnamed-eq ps h = ground (arith, length-keep_if is_named (keep_if is_call ps))
