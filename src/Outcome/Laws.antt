-- ===== src/Outcome/Laws.antt =====
-- The status of a request is settled once, and the counters follow it.
use llm_aio_gateway.Prelude.{
  ◌≡◌, refl, sym, ap, ◌∙◌, Bool, true, false, not, ◌&&◌, ◌||◌, some, nat_eq, string_eq, is_space,
  arith, ◌⊎◌, inl, inr,
}
use llm_aio_gateway.Outcome.Defs.{
  Status, ok, degraded, partial, fail, rejected, cancelled, Details, name_of, read_status,
  is_fallback_used, resolve_request_status, apply_outcome_to_details, stats_counters_for_status,
}

pub read-name_of : (s : Status) → read_status (name_of s) ≡ some s
unfolding read_status is_space
read-name_of ok = refl
read-name_of degraded = refl
read-name_of partial = refl
read-name_of fail = refl
read-name_of rejected = refl
read-name_of cancelled = refl

read-applied :
    (success partial_output : Bool) (d : Details)
    → read_status (apply_outcome_to_details success partial_output d).status
      ≡ some (resolve_request_status success partial_output d)
unfolding apply_outcome_to_details
read-applied success partial_output d = read-name_of _

-- What a success, and what a failure, can come to.
success-resolve :
    (partial_output : Bool) (d : Details)
    → ((resolve_request_status true partial_output d ≡ ok) × (is_fallback_used d ≡ false))
      ⊎ (resolve_request_status true partial_output d ≡ degraded)
unfolding resolve_request_status
success-resolve partial_output d = ground arith

failure-resolve :
    (partial_output : Bool) (d : Details)
    → let status = resolve_request_status false partial_output d in
      (status ≡ rejected)
      ⊎ (status ≡ cancelled)
      ⊎ ((status ≡ partial) × (d.client_disconnected ≡ false))
      ⊎ ((status ≡ fail) × (partial_output ≡ false) × (d.partial_output ≡ false))
unfolding resolve_request_status
failure-resolve partial_output d = ground arith

used-applied :
    (partial_output : Bool) (d : Details)
    → resolve_request_status true partial_output d ≡ ok
    → is_fallback_used d ≡ false
    → is_fallback_used (apply_outcome_to_details true partial_output d) ≡ false
unfolding apply_outcome_to_details is_fallback_used
used-applied partial_output d h g = rw h g

applied_partial :
    (partial_output : Bool) (d : Details)
    → partial_output ≡ false
    → d.partial_output ≡ false
    → (apply_outcome_to_details false partial_output d).partial_output ≡ false
unfolding apply_outcome_to_details
applied_partial partial_output d h g = ground (arith, h, g)

resolve_ok :
    (partial_output : Bool) (d : Details)
    → read_status d.status ≡ some ok
    → is_fallback_used d ≡ false
    → resolve_request_status true partial_output d ≡ ok
unfolding resolve_request_status
resolve_ok partial_output d h g = rw (h, g) refl

resolve_degraded :
    (partial_output : Bool) (d : Details)
    → read_status d.status ≡ some degraded
    → resolve_request_status true partial_output d ≡ degraded
unfolding resolve_request_status
resolve_degraded partial_output d h = rw h refl

-- What keeps a failure's status as it is written in the details.
abbrev IsKept : Bool → Details → Status → Type 0
IsKept partial_output d partial = d.client_disconnected ≡ false
IsKept partial_output d fail = (partial_output ≡ false) × (d.partial_output ≡ false)
IsKept partial_output d rejected = Unit
IsKept partial_output d cancelled = Unit
IsKept partial_output d ok = ⊥
IsKept partial_output d degraded = ⊥

resolve_again :
    (partial_output : Bool) (d : Details) (s : Status)
    → read_status d.status ≡ some s
    → IsKept partial_output d s
    → resolve_request_status false partial_output d ≡ s
unfolding resolve_request_status
resolve_again partial_output d partial h k = rw h (ground (arith, k))
resolve_again partial_output d fail h k = rw h (ground (arith, k.0, k.1))
resolve_again partial_output d rejected h k = rw h refl
resolve_again partial_output d cancelled h k = rw h refl
resolve_again partial_output d ok h k = absurd k
resolve_again partial_output d degraded h k = absurd k

resolve_read :
    (success partial_output : Bool) (d : Details) (s : Status)
    → resolve_request_status success partial_output d ≡ s
    → read_status (apply_outcome_to_details success partial_output d).status ≡ some s
resolve_read success partial_output d s h = read-applied success partial_output d ∙ ap some h

settled_success :
    (partial_output : Bool) (d : Details)
    → resolve_request_status true partial_output (apply_outcome_to_details true partial_output d)
      ≡ resolve_request_status true partial_output d
settled_success partial_output d = elim (success-resolve partial_output d) [
  | inl (h, unused) ↦
      resolve_ok partial_output _ (resolve_read true partial_output d ok h)
        (used-applied partial_output d h unused)
      ∙ sym h
  | inr h ↦
      resolve_degraded partial_output _ (resolve_read true partial_output d degraded h) ∙ sym h
]

settled_failure :
    (partial_output : Bool) (d : Details)
    → resolve_request_status false partial_output (apply_outcome_to_details false partial_output d)
      ≡ resolve_request_status false partial_output d
unfolding apply_outcome_to_details
settled_failure partial_output d = elim (failure-resolve partial_output d) [
  | inl h ↦
      resolve_again partial_output (apply_outcome_to_details false partial_output d) rejected
        (resolve_read false partial_output d rejected h) tt
      ∙ sym h
  | inr (inl h) ↦
      resolve_again partial_output (apply_outcome_to_details false partial_output d) cancelled
        (resolve_read false partial_output d cancelled h) tt
      ∙ sym h
  | inr (inr (inl (h, still))) ↦
      resolve_again partial_output (apply_outcome_to_details false partial_output d) partial
        (resolve_read false partial_output d partial h) still
      ∙ sym h
  | inr (inr (inr (h, none_now, none_before))) ↦
      resolve_again partial_output (apply_outcome_to_details false partial_output d) fail
        (resolve_read false partial_output d fail h)
        (none_now, applied_partial partial_output d none_now none_before)
      ∙ sym h
]

-- `apply_outcome_to_details` writes the status that the details come to, and it is settled: deriving
-- it again from the details it wrote, for the same result of the request, gives the same status.
pub resolve-apply_outcome :
    (success partial_output : Bool) (d : Details)
    → let status = resolve_request_status success partial_output d in
      let written = apply_outcome_to_details success partial_output d in
      (written.status ≡ name_of status)
      × (read_status written.status ≡ some status)
      × (resolve_request_status success partial_output written ≡ status)
unfolding apply_outcome_to_details
resolve-apply_outcome true partial_output d =
    (refl, read-name_of _, settled_success partial_output d)
resolve-apply_outcome false partial_output d =
    (refl, read-name_of _, settled_failure partial_output d)

-- A request counts as a hard success exactly when it succeeded, whatever its details say, and it
-- counts as degraded only then, and as rejected or cancelled only if it failed.
pub hard_success_iff :
    (success partial_output : Bool) (d : Details)
    → let counters =
        stats_counters_for_status (apply_outcome_to_details success partial_output d).status in
      (counters.hard_success ≡ success)
      × ((counters.is_degraded && not success) ≡ false)
      × ((success && (counters.is_rejected || counters.is_cancelled)) ≡ false)
unfolding stats_counters_for_status
hard_success_iff true partial_output d =
    rw (read-applied true partial_output d) (elim (success-resolve partial_output d) [
      | inl (h, _) ↦ rw h (refl, refl, refl)
      | inr h ↦ rw h (refl, refl, refl)
    ])
hard_success_iff false partial_output d =
    rw (read-applied false partial_output d) (elim (failure-resolve partial_output d) [
      | inl h ↦ rw h (refl, refl, refl)
      | inr (inl h) ↦ rw h (refl, refl, refl)
      | inr (inr (inl (h, _))) ↦ rw h (refl, refl, refl)
      | inr (inr (inr (h, _, _))) ↦ rw h (refl, refl, refl)
    ])
