-- ===== src/HttpPool/Tests.antt =====
-- Runs of the pool.
use llm_aio_gateway.Prelude.{ℕ, ◌<◌, ◌≡◌, refl, false, some, List, [], ◌∷◌, nat_eq, ltb}
use llm_aio_gateway.Dict.{get, put, pop, keys, contains}
use llm_aio_gateway.HttpPool.Defs.{
  Entry, Pool, empty_pool, pool_key, close_entry, evict_idle, pick_idle, reclaim, evict_locked,
  with_entry, acquire, release,
}
use llm_aio_gateway.HttpPool.Leases.{leased, is_held}
use llm_aio_gateway.HttpPool.Acquire.{drop_lease}
use llm_aio_gateway.HttpPool.Reach.{Reach, start, take, leased_client_stays_open}

machine : Unit {0}
unfolding get put pop keys contains empty_pool pool_key close_entry evict_idle pick_idle reclaim
    evict_locked with_entry acquire release leased is_held drop_lease
machine = tt

abbrev first : Pool ℕ
first = (acquire ltb 10 7 empty_pool).0

abbrev second : Pool ℕ
second = (acquire ltb 1000 8 first).0

-- The first client is under lease and stays, long after its last use.
abbrev leases : List (ℕ × ℕ)
leases = (8, 1) ∷ (7, 0) ∷ []

kept : second.closed ≡ []
unfolding machine
kept = refl

-- Given back, it is closed when the next client is acquired.
closed_later : (acquire ltb 2000 9 (release 1001 7 second)).0.closed ≡ 0 ∷ []
unfolding machine
closed_later = refl

reached : Reach ltb second leases
unfolding machine
reached = take 1000 8 first ((7, 0) ∷ []) (take 10 7 empty_pool [] start)

leased_client_stays_open_example :
    (entry : Entry) × (get 7 second.entries ≡ some entry)
    × (entry.client ≡ 0)
    × (entry.in_use ≡ leased 7 leases)
    × (0 < leased 7 leases)
    × (contains 0 second.closed ≡ false)
unfolding machine
leased_client_stays_open_example = leased_client_stays_open ltb second leases 7 0 reached refl
