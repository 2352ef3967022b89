-- ===== src/Accounting/Once.antt =====
-- Each streamed request is accounted for once, and its entries agree.
use llm_aio_gateway.Prelude.{
  ◌≡◌, refl, ◌⊎◌, inl, inr, String, Bool, true, false, not, ◌&&◌, [], ◌∷◌, if◌then◌else◌,
  Bool-cases,
}
use llm_aio_gateway.Dict.{get_or}
use llm_aio_gateway.Outcome.{Details, stats_counters_for_status}
use llm_aio_gateway.Outcome.Disconnect.{is_client_disconnect_error}
use llm_aio_gateway.Outcome.Laws.{hard_success_iff}
use llm_aio_gateway.Accounting.Gather.{Meter}
use llm_aio_gateway.Accounting.Settle.{
  RequestDetails, no_request_details, Ending, completed, raised, Entry, Count, Account, usage_of,
  logged, settle_success, settle_cancelled, merge_request_details, settle_failure,
  closed_after_output, settle_disconnect, settle,
}

-- An exception that is no `Exception` and no client that left is passed on without an account: the
-- server stops.
unfoldable pub is_let_through : Bool → Ending → Bool
unfolding is_client_disconnect_error
is_let_through shutting_down completed = false
is_let_through shutting_down (raised exc is_exception r) =
    not (is_client_disconnect_error shutting_down exc) && not is_exception

abbrev pub IsUnaccounted : Account → Type 0
IsUnaccounted a = (a.entries ≡ []) × (a.counts ≡ []) × (a.usages ≡ []) × (a.is_reraised ≡ true)

-- One entry and one count, which agree with the status, and the tokens are charged for a success only.
abbrev pub IsOnce : String → Account → Type 0
IsOnce username a =
    (entry : Entry) × (count : Count) × (a.entries ≡ entry ∷ [])
    × (a.counts ≡ count ∷ [])
    × (a.usages ≡ usage_of username entry.success (if entry.success then entry.tokens else 0))
    × (count.success ≡ entry.success)
    × ((stats_counters_for_status entry.status).hard_success ≡ entry.success)
    × ((stats_counters_for_status entry.status).is_degraded ≡ count.is_degraded)
    × ((stats_counters_for_status entry.status).is_rejected ≡ count.is_rejected)
    × ((stats_counters_for_status entry.status).is_cancelled ≡ count.is_cancelled)

success-IsOnce :
    (username : String) (d : Details) (m : Meter) → IsOnce username (settle_success username d m)
unfolding settle_success
success-IsOnce username d m =
    (_, _, refl, refl, rw (hard_success_iff true false d).0 refl, refl, refl, refl, refl, refl)

cancelled-IsOnce : (username : String) (m : Meter) → IsOnce username (settle_cancelled username m)
unfolding settle_cancelled stats_counters_for_status
cancelled-IsOnce username m = (_, _, refl, refl, refl, refl, refl, refl, refl, refl)

failure-IsOnce :
    (username model provider : String) (r : RequestDetails) (m : Meter)
    → IsOnce username (settle_failure username model provider r m)
unfolding settle_failure
failure-IsOnce username model provider r m = (
  _,
  _,
  refl,
  refl,
  refl,
  refl,
  (hard_success_iff false (get_or m.visible_output_started r.partial_output)
      (merge_request_details r m.stream_details)).0,
  refl,
  refl,
  refl,
)

disconnect-IsOnce :
    (username : String) (goes_on : Bool) (m : Meter)
    → IsOnce username (settle_disconnect username goes_on m)
unfolding settle_disconnect
disconnect-IsOnce username goes_on m = elim (Bool-cases (closed_after_output m)) [
  | inl whole ↦
      rw whole (success-IsOnce username (record m.stream_details { client_disconnected = true }) m)
  | inr cut ↦ rw cut (cancelled-IsOnce username m)
]

-- However a streamed request ends: it is logged and counted exactly once, the count agrees with the
-- logged status, and the user is charged its tokens if it succeeded and none otherwise; only an
-- exception that stops the server is passed on with no account at all.
pub settle-IsOnce :
    (shutting_down : Bool) (username model provider : String) (ending : Ending) (m : Meter)
    → ((is_let_through shutting_down ending ≡ true)
        × IsUnaccounted (settle shutting_down username model provider ending m))
      ⊎ ((is_let_through shutting_down ending ≡ false)
          × IsOnce username (settle shutting_down username model provider ending m))
unfolding settle is_let_through
settle-IsOnce shutting_down username model provider completed m =
    inr (refl, success-IsOnce username (record m.stream_details { partial_output = false }) m)
settle-IsOnce shutting_down username model provider (raised exc is_exception r) m =
    elim (Bool-cases (is_client_disconnect_error shutting_down exc)) [
      | inl left ↦ rw left (inr (refl, disconnect-IsOnce username _ (logged model provider m)))
      | inr stays ↦ elim (Bool-cases is_exception) [
        | inl plain ↦
            rw (stays, plain)
              (inr (
                refl,
                failure-IsOnce username model provider
                    (if exc.has_request_details then r else no_request_details) m,
              ))
        | inr stop ↦ rw (stays, stop) (inl (refl, (refl, refl, refl, refl)))
      ]
    ]
