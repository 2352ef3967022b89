-- ===== src/HttpPool/Defs.antt =====
-- The state and the operations of the pool. Each runs under the pool's lock, so it is one step; a
-- client is a number, and the clients that were closed are kept in a list. The source closes the
-- victims of an eviction after the lock; they are out of the dict by then, so nobody can get one.
use llm_aio_gateway.Prelude.{
  ℕ, zero, suc, ◌+◌, ◌-◌, String, Bool, not, ◌&&◌, ◌||◌, Option, none, some, List, [], ◌∷◌, ◌++◌,
  ◌==◌, nat_eq, string_eq, EqTest, if◌then◌else◌, ltb, length, is_nonempty, map,
}
use llm_aio_gateway.Dict.{Dict, get, put, pop, keys}

pub record Entry : Type 0 where
  pub client : ℕ
  pub last_used : ℕ
  pub in_use : ℕ

-- The result of `_pool_key`: the origin's parts and the timeout.
pub record PoolKey : Type 0 where
  pub scheme : String
  pub hostname : String
  pub port : ℕ
  pub timeout : ℕ

-- `parts.port or default`
abbrev given : Option ℕ → ℕ → ℕ
given none default = default
given (some port) default = if port == 0 then default else port

-- `_pool_key`, from what `urlsplit` found.
unfoldable pub pool_key : String → String → Option ℕ → ℕ → PoolKey
pool_key scheme hostname port timeout = record {
  scheme = if is_nonempty scheme then scheme else "https";
  hostname = hostname;
  port = given port (if scheme == "https" then 443 else 80);
  timeout = timeout;
}

pub record Pool {ℓ} (K : Type ℓ) : Type ℓ where
  pub entries : Dict K Entry
  pub next_client : ℕ
  pub closed : List ℕ

abbrev pub max_clients : ℕ
max_clients = 32

abbrev pub idle_ttl_seconds : ℕ
idle_ttl_seconds = 300

unfoldable pub empty_pool {ℓ} : {K : Type ℓ} → Pool K
empty_pool = record { entries = []; next_client = 0; closed = [] }

-- A smaller pair `(last_used, key)` takes the place of the best so far.
abbrev pub better {ℓ} : {K : Type ℓ} → (K → K → Bool) → ℕ → K → Option (ℕ × K) → Option (ℕ × K)
better key_lt t k none = some (t, k)
better key_lt t k (some (u, j)) =
    if ltb t u || (t == u && key_lt k j) then some (t, k) else some (u, j)

abbrev pub is_stale : ℕ → Entry → Bool
is_stale now entry = entry.in_use == 0 && ltb idle_ttl_seconds (now - entry.last_used)

module _ {ℓ} {K : Type ℓ} ⦃e : EqTest K⦄ where
  unfoldable pub in_use_at : K → Dict K Entry → ℕ
  in_use_at k d = elim (get k d) [ none ↦ 0 | some entry ↦ entry.in_use ]

  -- An entry leaves the dict and its client is closed.
  unfoldable pub close_entry : K → Pool K → Pool K
  close_entry k p = elim (get k p.entries) [
    | none ↦ p
    | some entry ↦ record p { entries = pop k p.entries; closed = entry.client ∷ p.closed }
  ]

  -- The first loop of `_evict_locked`, over the keys of the dict.
  unfoldable pub evict_idle : ℕ → List K → Pool K → Pool K
  unfolding close_entry
  evict_idle now [] p = p
  evict_idle now (k ∷ ks) p = evict_idle now ks (elim (get k p.entries) [
    | none ↦ p
    | some entry ↦ if is_stale now entry then close_entry k p else p
  ])

  -- The entry of a key, made if there is none, and the pool that holds it.
  unfoldable pub with_entry : ℕ → K → Pool K → Pool K × Entry
  with_entry now k p = elim (get k p.entries) [
    | some entry ↦ (p, entry)
    | none ↦
        let entry : Entry = record { client = p.next_client; last_used = now; in_use = 0 } in
        (record p { entries = put k entry p.entries; next_client = suc p.next_client }, entry)
  ]

  module _ (key_lt : K → K → Bool) where
    -- `min` of the idle pairs, as `idle.sort(); idle[0]` has it
    unfoldable pub pick_idle : List K → Dict K Entry → Option (ℕ × K) → Option (ℕ × K)
    pick_idle [] d best = best
    pick_idle (k ∷ ks) d best = pick_idle ks d (elim (get k d) [
      | none ↦ best
      | some entry ↦ if entry.in_use == 0 then better key_lt entry.last_used k best else best
    ])

    -- The `while` of `_evict_locked`. Each round takes an entry out, so their number is enough fuel.
    unfoldable pub reclaim : ℕ → ℕ → Pool K → Pool K
    unfolding pick_idle close_entry
    reclaim zero limit p = p
    reclaim (suc fuel) limit p =
        if not (ltb limit (length p.entries))
        then p
        else elim (pick_idle (keys p.entries) p.entries none) [
          | none ↦ p
          | some (t, k) ↦ reclaim fuel limit (close_entry k p)
        ]

    unfoldable pub evict_locked : ℕ → ℕ → Pool K → Pool K
    unfolding evict_idle reclaim
    evict_locked now limit p =
        let p' = evict_idle now (keys p.entries) p in reclaim (length p'.entries) limit p'

    unfoldable pub acquire : ℕ → K → Pool K → Pool K × ℕ
    unfolding with_entry evict_locked
    acquire now k p =
        let (p', entry) = with_entry now k p in
        let entry' : Entry = record entry { in_use = entry.in_use + 1; last_used = now } in
        (
          evict_locked now max_clients (record p' { entries = put k entry' p'.entries }),
          entry.client,
        )

  unfoldable pub release : ℕ → K → Pool K → Pool K
  unfolding close_entry
  release now k p = elim (get k p.entries) [
    | none ↦ p
    | some entry ↦
        let entry' : Entry = record entry { in_use = entry.in_use - 1; last_used = now } in
        let p' : Pool K = record p { entries = put k entry' p.entries } in
        if ltb max_clients (length p'.entries) && entry'.in_use == 0 then close_entry k p' else p'
  ]

  -- get_shared_client
  unfoldable pub get_shared_client : (K → K → Bool) → ℕ → ℕ → K → Pool K → Pool K × ℕ
  unfolding acquire release
  get_shared_client key_lt now later k p =
      let (p', client) = acquire key_lt now k p in (release later k p', client)

  unfoldable pub aclose_shared_clients : Pool K → Pool K
  aclose_shared_clients p = record p {
    entries = [];
    closed = map (λ item. (item.1).client) p.entries ++ p.closed;
  }

  unfoldable pub shared_client_pool_size : Pool K → ℕ
  shared_client_pool_size p = length p.entries

  used_entries : Dict K Entry → ℕ
  used_entries [] = 0
  used_entries ((k, entry) ∷ d) = (if entry.in_use == 0 then 0 else 1) + used_entries d

  unfoldable pub in_use_count : Pool K → ℕ
  unfolding used_entries
  in_use_count p = used_entries p.entries
