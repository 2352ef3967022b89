-- ===== src/Attempts/Status.antt =====
-- The status of an answered request follows from its attempts.
use mathlib.Core.Bool.{false≢true}
use llm_aio_gateway.Prelude.{
  ℕ, ◌<◌, ◌≡◌, refl, sym, ap, subst, ◌∙◌, ◌⊎◌, inl, inr, Bool, true, false, ◌||◌, Option, none,
  some, List, [], ◌∷◌, ◌++◌, if◌then◌else◌, ltb, arith, ◌==◌, string_eq, length, is_space,
  length-append,
}
use llm_aio_gateway.Routing.{RouteTarget}
use llm_aio_gateway.Outcome.{
  Attempt, Status, ok, degraded, has_fallback_success, success_after_fail, is_fallback_used,
  read_status, resolve_request_status,
}
use llm_aio_gateway.Attempts.Defs.{Gateway, Reply, call_nonstream_with_fallbacks, details_of}
use llm_aio_gateway.Attempts.Shape.{all_failed, IsEnded, IsEndedBy, IsAnswered}
use llm_aio_gateway.Attempts.Fuel.{call_nonstream_with_fallbacks_lem}

failed_success : (a : Attempt) → (a.status == "failed") ≡ true → (a.status == "success") ≡ false
failed_success a h =
    subst (λ s. (s == "success") ≡ false) (sym ((string_eq.beq_iff a.status "failed").0 h)) refl

-- A success after failures only: it counts as one after a failure if there is a failure.
success_after_fail-snoc :
    (earlier : List Attempt) (failed : Bool) (last : Attempt)
    → all_failed earlier ≡ true
    → last.status ≡ "success"
    → success_after_fail failed (earlier ++ (last ∷ [])) ≡ (failed || ltb 0 (length earlier))
unfolding success_after_fail
success_after_fail-snoc [] failed last h g = rw g (ground arith)
success_after_fail-snoc (a ∷ earlier) failed last h g =
    ground (arith, h, failed_success a, success_after_fail-snoc earlier true last, g)

has_fallback_success-snoc :
    (earlier : List Attempt) (last : Attempt)
    → all_failed earlier ≡ true
    → last.stage ≡ "primary"
    → has_fallback_success (earlier ++ (last ∷ [])) ≡ false
unfolding has_fallback_success
has_fallback_success-snoc [] last h g = rw g refl
has_fallback_success-snoc (a ∷ earlier) last h g =
    ground (arith, h, failed_success a, has_fallback_success-snoc earlier last, g)

module _ {Out : Type 0} (reply : Reply Out) where
  resolve-details_of :
      resolve_request_status true false (details_of reply)
      ≡ (if is_fallback_used (details_of reply) then degraded else ok)
  unfolding resolve_request_status details_of read_status is_space
  resolve-details_of = ground arith

  module _ (earlier : List Attempt) (last : Attempt)
      (split : reply.attempts ≡ earlier ++ (last ∷ [])) (h : all_failed earlier ≡ true)
      (g : last.status ≡ "success") where
    unused-details_of :
        reply.fallback_status ≡ "unused"
        → last.stage ≡ "primary"
        → reply.attempt_index ≡ 0
        → is_fallback_used (details_of reply) ≡ ltb 0 (length earlier)
    unfolding is_fallback_used details_of
    unused-details_of u p z =
        rw (u, z, split)
          (rw
            (
              has_fallback_success-snoc earlier last h p,
              success_after_fail-snoc earlier false last h g,
            )
            refl)

  used-details_of : reply.fallback_status ≡ "used" → is_fallback_used (details_of reply) ≡ true
  unfolding is_fallback_used details_of
  used-details_of u = rw u refl

-- The attempts: a failure before the last one counts as a recovery.
counted :
    (earlier : List Attempt) (last : Attempt)
    → ((ltb 0 (length earlier) ≡ false) × (length (earlier ++ (last ∷ [])) ≡ 1))
      ⊎ ((ltb 0 (length earlier) ≡ true) × (1 < length (earlier ++ (last ∷ []))))
counted [] last = inl (refl, refl)
counted (a ∷ earlier) last =
    inr (ground arith, rw (length-append earlier (last ∷ [])) (omega arith))

-- The status of an output: ok after one attempt, and degraded after more.
abbrev pub IsGraded : Status → ℕ → Type 0
IsGraded status attempts = ((status ≡ ok) × (attempts ≡ 1)) ⊎ ((status ≡ degraded) × (1 < attempts))

graded :
    {Out : Type 0} (reply : Reply Out) (used : Bool)
    → is_fallback_used (details_of reply) ≡ used
    → ((used ≡ false) × (length reply.attempts ≡ 1)) ⊎ ((used ≡ true) × (1 < length reply.attempts))
    → IsGraded (resolve_request_status true false (details_of reply)) (length reply.attempts)
graded reply used eq (inl (unused, one)) = inl (rw (resolve-details_of, eq, unused) refl, one)
graded reply used eq (inr (recovered, more)) =
    inr (rw (resolve-details_of, eq, recovered) refl, more)

pub answered-IsGraded :
    {Out : Type 0} (reply : Reply Out)
    → IsAnswered reply
    → IsGraded (resolve_request_status true false (details_of reply)) (length reply.attempts)
answered-IsGraded reply (earlier, last, split, h, g, _, inl (u, p, z)) =
    graded reply _ (unused-details_of reply earlier last split h g u p z)
      (rw split (counted earlier last))
answered-IsGraded reply (earlier, last, split, h, g, _, inr (u, l, _, _)) =
    graded reply true (used-details_of reply u) (
      inr (
        refl,
        rw split (elim (counted earlier last) [
          | inl (single, _) ↦ absurd (false≢true (sym single ∙ l))
          | inr (_, more) ↦ more
        ]),
      ))

-- A request that is not streamed and gets an output has the status ok if it took a single attempt,
-- and the status degraded if it took more: after a fallback, and after a retry of the primary target.
pub answered-IsOk :
    {S Out : Type 0} (g : Gateway S Out) (requested : RouteTarget) (s : S) (reply : Reply Out)
    (output : Out)
    → (call_nonstream_with_fallbacks g requested s).1 ≡ some reply
    → reply.result ≡ inl output
    → IsGraded (resolve_request_status true false (details_of reply)) (length reply.attempts)
answered-IsOk {S} {Out} g requested s reply output returned answered =
    let (made, equal, ended, _) = call_nonstream_with_fallbacks_lem g requested s in
    let same : made ≡ reply =
      ap (λ (r : Option (Reply Out)). elim r [ none ↦ reply | some x ↦ x ])
        (sym equal ∙ returned) in
    answered-IsGraded reply (subst (IsEndedBy reply) answered (subst IsEnded same ended))
