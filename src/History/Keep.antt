-- ===== src/History/Keep.antt =====
-- Which ids the two filters of `sanitize_tool_history` let through.
use llm_aio_gateway.Prelude.{
  String, ◌≡◌, refl, true, false, not, ◌&&◌, ◌||◌, List, [], ◌∷◌, ◌++◌, string_eq, nat_eq,
  if◌then◌else◌, is_empty, is_nonempty, arith, beq_self,
}
use llm_aio_gateway.Dict.{contains, contains-append, AreDistinct}
use llm_aio_gateway.Messages.{
  InternalPart, InternalMessage, is_call, is_result, keep_if, ids_of, nonempty_ids,
}
use llm_aio_gateway.History.Defs.{
  accepted_ids, keep_calls, keep_results, kept_after, clean_responses,
}

-- The ids of the calls, and of the results, in a list of parts, empty ids included.
abbrev pub call_ids : List InternalPart → List String
call_ids ps = ids_of (keep_if is_call ps)

abbrev pub result_ids : List InternalPart → List String
result_ids ps = ids_of (keep_if is_result ps)

unfoldable pub results_of : List InternalMessage → List String
unfolding ids_of keep_if
results_of [] = []
results_of (m ∷ ms) = result_ids m.parts ++ results_of ms

pub contains-nonempty_ids :
    (i : String) (ps : List InternalPart)
    → contains i (nonempty_ids ps) ≡ (is_nonempty i && contains i (ids_of ps))
unfolding contains nonempty_ids ids_of
contains-nonempty_ids i [] = ground arith
contains-nonempty_ids i (p ∷ ps) =
    ground (arith, contains-nonempty_ids i ps, string_eq.beq_iff p.tool_call_id i)

pub contains-accepted_ids :
    (i : String) (is available : List String)
    → contains i (accepted_ids is available) ≡ (contains i is && contains i available)
unfolding contains accepted_ids
contains-accepted_ids i [] available = refl
contains-accepted_ids i (j ∷ is) available =
    ground (arith, contains-accepted_ids i is available, string_eq.beq_iff j i)

pub contains-keep_calls :
    (i : String) (accepted kept : List String) (ps : List InternalPart)
    → contains i (call_ids (keep_calls accepted kept ps))
      ≡ (contains i accepted && not (contains i kept) && contains i (call_ids ps))
unfolding contains keep_calls keep_if ids_of
contains-keep_calls i accepted kept [] = ground arith
contains-keep_calls i accepted kept (p ∷ ps) = ground (
  arith,
  contains-keep_calls i accepted kept ps,
  contains-keep_calls i accepted (p.tool_call_id ∷ kept) ps,
  string_eq.beq_iff p.tool_call_id i,
)

pub keep_calls-AreDistinct :
    (accepted kept : List String) (ps : List InternalPart)
    → AreDistinct (call_ids (keep_calls accepted kept ps))
unfolding contains keep_calls keep_if ids_of
keep_calls-AreDistinct accepted kept [] = tt
keep_calls-AreDistinct accepted kept (p ∷ ps) = ground (
  arith,
  keep_calls-AreDistinct accepted kept ps,
  keep_calls-AreDistinct accepted (p.tool_call_id ∷ kept) ps,
  contains-keep_calls p.tool_call_id accepted (p.tool_call_id ∷ kept) ps,
  beq_self p.tool_call_id,
)

-- The same for the results, message by message.
contains-keep_results :
    (i : String) (accepted kept : List String) (ps : List InternalPart)
    → contains i (result_ids (keep_results accepted kept ps))
      ≡ (contains i accepted && not (contains i kept) && contains i (result_ids ps))
unfolding contains keep_results keep_if ids_of
contains-keep_results i accepted kept [] = ground arith
contains-keep_results i accepted kept (p ∷ ps) = ground (
  arith,
  contains-keep_results i accepted kept ps,
  contains-keep_results i accepted (p.tool_call_id ∷ kept) ps,
  string_eq.beq_iff p.tool_call_id i,
)

keep_results-AreDistinct :
    (accepted kept : List String) (ps : List InternalPart)
    → AreDistinct (result_ids (keep_results accepted kept ps))
unfolding contains keep_results keep_if ids_of
keep_results-AreDistinct accepted kept [] = tt
keep_results-AreDistinct accepted kept (p ∷ ps) = ground (
  arith,
  keep_results-AreDistinct accepted kept ps,
  keep_results-AreDistinct accepted (p.tool_call_id ∷ kept) ps,
  contains-keep_results p.tool_call_id accepted (p.tool_call_id ∷ kept) ps,
  beq_self p.tool_call_id,
)

contains-kept_after :
    (i : String) (accepted kept : List String) (ps : List InternalPart)
    → contains i (kept_after accepted kept ps)
      ≡ (contains i kept || (contains i accepted && contains i (result_ids ps)))
unfolding contains kept_after keep_if ids_of
contains-kept_after i accepted kept [] = ground arith
contains-kept_after i accepted kept (p ∷ ps) = ground (
  arith,
  contains-kept_after i accepted kept ps,
  contains-kept_after i accepted (p.tool_call_id ∷ kept) ps,
  string_eq.beq_iff p.tool_call_id i,
)

AreDistinct-append :
    (xs ys : List String)
    → AreDistinct xs
    → AreDistinct ys
    → ((i : String) → contains i xs ≡ true → contains i ys ≡ false)
    → AreDistinct (xs ++ ys)
unfolding contains
AreDistinct-append [] ys h k apart = k
AreDistinct-append (x ∷ xs) ys h k apart = (
  ground (arith, contains-append x xs ys, h.0, apart x, beq_self x),
  AreDistinct-append xs ys h.1 k (λ i found. apart i (ground arith)),
)

-- A message that lost all its parts has no results.
results_of-kept :
    (m : InternalMessage) (ps : List InternalPart) (ms : List InternalMessage)
    → results_of (if is_empty ps then ms else record m { parts = ps } ∷ ms)
      ≡ result_ids ps ++ results_of ms
unfolding results_of
results_of-kept m [] ms = refl
results_of-kept m (p ∷ ps) ms = refl

pub results_of-cons :
    (m : InternalMessage) (ms : List InternalMessage)
    → results_of (m ∷ ms) ≡ result_ids m.parts ++ results_of ms
unfolding results_of
results_of-cons m ms = refl

contains-results_of_nil : (i : String) → contains i (results_of []) ≡ false
unfolding results_of contains
contains-results_of_nil i = refl

pub contains-clean_responses :
    (i : String) (accepted kept : List String) (ms : List InternalMessage)
    → contains i (results_of (clean_responses accepted kept ms).0)
      ≡ (contains i accepted && not (contains i kept) && contains i (results_of ms))
unfolding clean_responses
contains-clean_responses i accepted kept [] = ground (arith, contains-results_of_nil i)
contains-clean_responses i accepted kept (m ∷ ms) =
    let ps = keep_results accepted kept m.parts in
    let next = kept_after accepted kept m.parts in
    rw (results_of-kept, results_of-cons)
      (ground (
        arith,
        contains-append i (result_ids ps) (results_of (clean_responses accepted next ms).0),
        contains-append i (result_ids m.parts) (results_of ms),
        contains-keep_results i accepted kept m.parts,
        contains-kept_after i accepted kept m.parts,
        contains-clean_responses i accepted next ms,
      ))

pub clean_responses-AreDistinct :
    (accepted kept : List String) (ms : List InternalMessage)
    → AreDistinct (results_of (clean_responses accepted kept ms).0)
unfolding clean_responses
clean_responses-AreDistinct accepted kept [] = unfold results_of in tt
clean_responses-AreDistinct accepted kept (m ∷ ms) =
    let ps = keep_results accepted kept m.parts in
    let next = kept_after accepted kept m.parts in
    rw results_of-kept (
      AreDistinct-append (result_ids ps) _ (keep_results-AreDistinct accepted kept m.parts)
        (clean_responses-AreDistinct accepted next ms)
        λ i found. ground (
          arith,
          contains-keep_results i accepted kept m.parts,
          contains-kept_after i accepted kept m.parts,
          contains-clean_responses i accepted next ms,
        ))
