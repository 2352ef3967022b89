-- ===== src/Limits/BodyLaws.antt =====
-- A limited request is served exactly if its body stays within the limit.
use llm_aio_gateway.Prelude.{
  ℕ, ◌+◌, ◌≤◌, ◌<◌, ◌≡◌, refl, ◌↔◌, String, Bool, true, false, Option, List, [], ◌∷◌, string_eq,
  nat_eq, ltb, arith, Bool-cases, inl, inr,
}
use llm_aio_gateway.Dict.{Dict}
use llm_aio_gateway.Limits.Body.{
  Event, received, received_other, started, sent, served, max_request_body_bytes, declared_length,
  run_limited, over, is_limited, limit_body,
}

-- The bytes of the body that the application receives.
unfoldable pub body_size : List Event → ℕ
body_size [] = 0
body_size (received n ∷ events) = n + body_size events
body_size (received_other ∷ events) = body_size events
body_size (started ∷ events) = body_size events
body_size (sent ∷ events) = body_size events

run_limited_iff :
    (events : List Event) (limit consumed : ℕ) (is_started : Bool)
    → consumed ≤ limit
    → (run_limited limit consumed is_started events ≡ served)
      ↔ (consumed + body_size events ≤ limit)
unfolding run_limited body_size
run_limited_iff [] limit consumed is_started h = (λ _. omega (arith, h), λ _. refl)
run_limited_iff (received n ∷ events) limit consumed is_started h =
    elim (Bool-cases (ltb limit (consumed + n))) [
      | inl above ↦ ground (arith, above)
      | inr within ↦ ground (arith, within, run_limited_iff events limit (consumed + n) is_started)
    ]
run_limited_iff (received_other ∷ events) limit consumed is_started h =
    run_limited_iff events limit consumed is_started h
run_limited_iff (started ∷ events) limit consumed is_started h =
    run_limited_iff events limit consumed true h
run_limited_iff (sent ∷ events) limit consumed is_started h =
    run_limited_iff events limit consumed is_started h

-- A request with a body, under a limit that is set, runs to its end exactly if the length that it
-- declares, if any, and the bytes that the application receives are within the limit, however
-- they are divided into messages.
pub limit_body_iff :
    (setting : Option ℕ) (kind method : String) (headers : Dict String (Option ℕ))
    (events : List Event)
    → is_limited kind method ≡ true
    → 0 < max_request_body_bytes setting
    → (limit_body setting kind method headers events ≡ served) ↔ (
        (over (max_request_body_bytes setting) (declared_length headers) ≡ false)
        × (body_size events ≤ max_request_body_bytes setting))
unfolding limit_body
limit_body_iff setting kind method headers events limited positive =
    let (to, from) =
      run_limited_iff events (max_request_body_bytes setting) 0 false (omega arith) in
    elim (Bool-cases (over (max_request_body_bytes setting) (declared_length headers))) [
      | inl above ↦ ground (arith, above, limited, positive)
      | inr within ↦ ground (arith, within, limited, positive, to, from)
    ]
