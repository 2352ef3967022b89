-- ===== src/Accounting/Stats.antt =====
-- The counters of all requests, `increment_global_stats`, and what holds between them.
use llm_aio_gateway.Prelude.{
  ℕ, ◌+◌, ◌≤◌, ◌≡◌, refl, inl, inr, String, Bool, false, not, ◌&&◌, List, [], ◌∷◌, if◌then◌else◌,
  arith, length,
}
use llm_aio_gateway.Outcome.{stats_counters_for_status}
use llm_aio_gateway.Accounting.Gather.{Meter}
use llm_aio_gateway.Accounting.Settle.{Ending, Count, Account, settle}
use llm_aio_gateway.Accounting.Once.{is_let_through, IsOnce, settle-IsOnce}

pub record GlobalStats : Type 0 where
  pub total_calls : ℕ
  pub failed_calls : ℕ
  pub degraded_calls : ℕ
  pub rejected_calls : ℕ
  pub cancelled_calls : ℕ
  pub stateful_fallback_blocked_calls : ℕ

abbrev pub no_stats : GlobalStats
no_stats = record {
  total_calls = 0;
  failed_calls = 0;
  degraded_calls = 0;
  rejected_calls = 0;
  cancelled_calls = 0;
  stateful_fallback_blocked_calls = 0;
}

abbrev one_if : Bool → ℕ
one_if b = if b then 1 else 0

unfoldable pub increment_global_stats : Count → GlobalStats → GlobalStats
increment_global_stats c s = record {
  total_calls = s.total_calls + 1;
  failed_calls = s.failed_calls + one_if (not c.success);
  degraded_calls = s.degraded_calls + one_if (c.success && c.is_degraded);
  rejected_calls = s.rejected_calls + one_if (not c.success && c.is_rejected);
  cancelled_calls = s.cancelled_calls + one_if (not c.success && c.is_cancelled);
  stateful_fallback_blocked_calls =
      s.stateful_fallback_blocked_calls + one_if c.stateful_fallback_blocked;
}

unfoldable pub count_all : List Count → GlobalStats → GlobalStats
unfolding increment_global_stats
count_all [] s = s
count_all (c ∷ cs) s = count_all cs (increment_global_stats c s)

-- A streamed request with all that its account depends on.
pub record Request : Type 0 where
  pub shutting_down : Bool
  pub username : String
  pub model : String
  pub provider_id : String
  pub ending : Ending
  pub meter : Meter

abbrev pub account_of : Request → Account
account_of r = settle r.shutting_down r.username r.model r.provider_id r.ending r.meter

-- The counters after requests that end one after the other.
unfoldable pub serve_all : List Request → GlobalStats → GlobalStats
unfolding count_all settle
serve_all [] s = s
serve_all (r ∷ rs) s = serve_all rs (count_all (account_of r).counts s)

-- Those among the requests that are accounted for.
unfoldable pub accounted : List Request → List Request
unfolding is_let_through
accounted [] = []
accounted (r ∷ rs) =
    let rest = accounted rs in if is_let_through r.shutting_down r.ending then rest else r ∷ rest

-- No request is counted as both rejected and cancelled, and only failed ones as either.
abbrev pub IsSound : GlobalStats → Type 0
IsSound s =
    (s.rejected_calls + s.cancelled_calls ≤ s.failed_calls)
    × (s.failed_calls + s.degraded_calls ≤ s.total_calls)

-- The flags of a status exclude each other.
exclusive :
    (status : String)
    → ((stats_counters_for_status status).is_rejected
        && (stats_counters_for_status status).is_cancelled)
      ≡ false
unfolding stats_counters_for_status
exclusive status = ground arith

count-IsSound :
    (username : String) (a : Account) (s : GlobalStats)
    → IsOnce username a
    → IsSound s
    → IsSound (count_all a.counts s) × ((count_all a.counts s).total_calls ≡ s.total_calls + 1)
unfolding count_all increment_global_stats
count-IsSound username a s (entry, count, _, eq, _, _, _, _, rejects, cancels) (few, fewer) =
    let apart : (count.is_rejected && count.is_cancelled) ≡ false =
      ground (arith, exclusive entry.status, rejects, cancels) in
    rw eq ((ground (arith, few, apart), ground (arith, fewer)), refl)

-- The counters of any sequence of streamed requests: each request that is accounted for counts once,
-- the rejected and the cancelled ones are among the failed ones and apart, and the degraded ones are
-- not among them.
pub serve_all-IsSound :
    (rs : List Request) (s : GlobalStats)
    → IsSound s
    → IsSound (serve_all rs s)
      × ((serve_all rs s).total_calls ≡ s.total_calls + length (accounted rs))
unfolding serve_all accounted count_all
serve_all-IsSound [] s sound = (sound, omega arith)
serve_all-IsSound (r ∷ rs) s sound =
    elim (settle-IsOnce r.shutting_down r.username r.model r.provider_id r.ending r.meter) [
      | inl (through, (_, nothing, _, _)) ↦
          rw (through, nothing, serve_all) (serve_all-IsSound rs s sound)
      | inr (counted, once) ↦
          let (sound', total) = count-IsSound r.username (account_of r) s once sound in
          let (ended, sum) = serve_all-IsSound rs (count_all (account_of r).counts s) sound' in
          rw counted (ended, omega (arith, sum, total))
    ]
