-- ===== src/History/Inherit.antt =====
-- Tests that the filters of `sanitize_tool_history` hand on from what they are given.
use llm_aio_gateway.Prelude.{
  ◌≤◌, String, ◌≡◌, refl, Bool, true, false, not, ◌&&◌, ◌||◌, List, [], ◌∷◌, ◌++◌, string_eq,
  nat_eq, length, is_empty, any, all, All, arith, has_content, Bool-cases, inl, inr, beq_self,
}
use llm_aio_gateway.Dict.{contains}
use llm_aio_gateway.Messages.{
  InternalPart, InternalMessage, is_call, is_result, keep_if, ids_of, message_has_payload,
  is_text_kind, is_reasoning_kind,
}
use llm_aio_gateway.History.Defs.{
  is_named, drop_unnamed, keep_calls, keep_results, kept_after, clean_responses,
}
use llm_aio_gateway.History.Keep.{results_of}

pub any-keep_if :
    (t u : InternalPart → Bool) (ps : List InternalPart)
    → any t ps ≡ false
    → any t (keep_if u ps) ≡ false
unfolding keep_if
any-keep_if t u [] h = refl
any-keep_if t u (p ∷ ps) h = ground (arith, any-keep_if t u ps)

pub any-keep_if-not :
    (t : InternalPart → Bool) (ps : List InternalPart) → any t (keep_if (λ p. not (t p)) ps) ≡ false
unfolding keep_if
any-keep_if-not t [] = refl
any-keep_if-not t (p ∷ ps) = ground (arith, any-keep_if-not t ps)

pub any-drop_unnamed :
    (t : InternalPart → Bool) (ps : List InternalPart)
    → any t ps ≡ false
    → any t (drop_unnamed ps) ≡ false
unfolding drop_unnamed
any-drop_unnamed t ps h = ground (arith, any-keep_if t (λ p. not (is_call p) || is_named p) ps)

pub any-keep_calls :
    (t : InternalPart → Bool) (accepted kept : List String) (ps : List InternalPart)
    → any t ps ≡ false
    → any t (keep_calls accepted kept ps) ≡ false
unfolding keep_calls
any-keep_calls t accepted kept [] h = refl
any-keep_calls t accepted kept (p ∷ ps) h =
    ground (
      arith,
      any-keep_calls t accepted kept ps,
      any-keep_calls t accepted (p.tool_call_id ∷ kept) ps,
    )

any-keep_results :
    (t : InternalPart → Bool) (accepted kept : List String) (ps : List InternalPart)
    → any t ps ≡ false
    → any t (keep_results accepted kept ps) ≡ false
unfolding keep_results
any-keep_results t accepted kept [] h = refl
any-keep_results t accepted kept (p ∷ ps) h = ground (
  arith,
  any-keep_results t accepted kept ps,
  any-keep_results t accepted (p.tool_call_id ∷ kept) ps,
)

pub any-clean_responses :
    (t : InternalPart → Bool) (accepted kept : List String) (ms : List InternalMessage)
    → All (λ m. any t m.parts ≡ false) ms
    → All (λ m. any t m.parts ≡ false) (clean_responses accepted kept ms).0
unfolding clean_responses
any-clean_responses t accepted kept [] h = tt
any-clean_responses t accepted kept (m ∷ ms) (p, h) =
    let rest = any-clean_responses t accepted (kept_after accepted kept m.parts) ms h in
    elim (Bool-cases (is_empty (keep_results accepted kept m.parts))) [
      | inl gone ↦ rw gone rest
      | inr left ↦ rw left (any-keep_results t accepted kept m.parts p, rest)
    ]

-- A call that is there has a name.
abbrev pub named_if_call : InternalPart → Bool
named_if_call p = not (is_call p) || is_named p

all-keep_if : (ps : List InternalPart) → all named_if_call (keep_if named_if_call ps) ≡ true
unfolding keep_if
all-keep_if [] = refl
all-keep_if (p ∷ ps) = ground (arith, all-keep_if ps)

length-keep_if_le :
    (t : InternalPart → Bool) (ps : List InternalPart) → length (keep_if t ps) ≤ length ps
unfolding keep_if
length-keep_if_le t [] = omega arith
length-keep_if_le t (p ∷ ps) = ground (arith, length-keep_if_le t ps)

all_named :
    (ps : List InternalPart)
    → length (keep_if is_call ps) ≤ length (keep_if is_named (keep_if is_call ps))
    → all named_if_call ps ≡ true
unfolding keep_if
all_named [] h = refl
all_named (p ∷ ps) h = ground (arith, all_named ps, length-keep_if_le is_named (keep_if is_call ps))

pub all-drop_unnamed : (ps : List InternalPart) → all named_if_call (drop_unnamed ps) ≡ true
unfolding drop_unnamed
all-drop_unnamed ps = ground (arith, all-keep_if ps, all_named ps)

pub all-keep_calls :
    (t : InternalPart → Bool) (accepted kept : List String) (ps : List InternalPart)
    → all t ps ≡ true
    → all t (keep_calls accepted kept ps) ≡ true
unfolding keep_calls
all-keep_calls t accepted kept [] h = refl
all-keep_calls t accepted kept (p ∷ ps) h =
    ground (
      arith,
      all-keep_calls t accepted kept ps,
      all-keep_calls t accepted (p.tool_call_id ∷ kept) ps,
    )

-- A message with a call has a payload.
pub no_calls_of_payload :
    (m : InternalMessage) → message_has_payload m ≡ false → keep_if is_call m.parts ≡ []
unfolding message_has_payload keep_if
no_calls_of_payload m h = go m.parts h
  where
    go :
        (ps : List InternalPart)
        → any
            (λ p.
              not (is_reasoning_kind p.kind) && (not (is_text_kind p.kind) || has_content p.text))
            ps
          ≡ false
        → keep_if is_call ps ≡ []
    go [] h = refl
    go (p ∷ ps) h = ground (arith, go ps)

pub eq-nil_of_contains : (xs : List String) → ((i : String) → contains i xs ≡ false) → xs ≡ []
unfolding contains
eq-nil_of_contains [] h = refl
eq-nil_of_contains (x ∷ xs) h = ground (arith, h x, beq_self x)

any_of_ids :
    (ps : List InternalPart) → ids_of (keep_if is_result ps) ≡ [] → any is_result ps ≡ false
unfolding ids_of keep_if
any_of_ids [] h = refl
any_of_ids (p ∷ ps) h = ground (arith, any_of_ids ps)

pub no_results_of_ids :
    (ms : List InternalMessage) → results_of ms ≡ [] → All (λ m. any is_result m.parts ≡ false) ms
unfolding results_of
no_results_of_ids [] h = tt
no_results_of_ids (m ∷ ms) h =
    let (here, later) = append_nil (ids_of (keep_if is_result m.parts)) (results_of ms) h in
    (any_of_ids m.parts here, no_results_of_ids ms later)
  where
    append_nil : (xs ys : List String) → xs ++ ys ≡ [] → (xs ≡ []) × (ys ≡ [])
    append_nil [] ys h = (refl, h)
    append_nil (x ∷ xs) ys h = cc
