-- ===== src/HttpPool/Reach.antt =====
-- Every way to use the pool: clients are acquired and released in any order, at any times.
use llm_aio_gateway.Prelude.{
  ℕ, ◌-◌, ◌<◌, ◌≡◌, refl, sym, subst, ◌∙◌, Bool, true, false, ◌&&◌, some, List, [], ◌∷◌, ◌==◌,
  nat_eq, EqTest, ltb, length, arith, Bool-cases, Option-cases, inl, inr, beq_self,
}
use llm_aio_gateway.Dict.{get, put, contains, get-put}
use llm_aio_gateway.HttpPool.Defs.{
  Entry, Pool, empty_pool, in_use_at, with_entry, acquire, release, max_clients,
}
use llm_aio_gateway.HttpPool.Leases.{leased, is_held, IsTracked, close_entry-IsTracked, held-leased}
use llm_aio_gateway.HttpPool.Update.{IsUpdate, update-IsTracked}
use llm_aio_gateway.HttpPool.Steps.{evict_locked-IsTracked}
use llm_aio_gateway.HttpPool.Acquire.{
  drop_lease, leased-drop_lease, held-drop_lease, client_of_held, acquired_old, acquired_new,
  in_use_found,
}

module _ {ℓ} {K : Type ℓ} ⦃e : EqTest K⦄ where
  acquire-IsTracked :
      (key_lt : K → K → Bool) (now : ℕ) (k : K) (p : Pool K) (ls : List (K × ℕ))
      → IsTracked p ls
      → IsTracked (acquire key_lt now k p).0 ((k, (acquire key_lt now k p).1) ∷ ls)
  unfolding acquire
  acquire-IsTracked key_lt now k p ls t = elim (Option-cases (get k p.entries)) [
    | inl missing ↦
        rw (missing, acquire, with_entry)
          (evict_locked-IsTracked key_lt now max_clients _ _
            (update-IsTracked k _ p _ ls _ (acquired_new now k p ls t missing) t))
    | inr (entry, found) ↦
        rw (found, acquire, with_entry)
          (evict_locked-IsTracked key_lt now max_clients _ _
            (update-IsTracked k _ p _ ls _ (acquired_old now k p ls t entry found) t))
  ]

  -- The write of `release`, for a lease that is held.
  released-IsUpdate :
      (now : ℕ) (k : K) (c : ℕ) (entry : Entry) (p : Pool K) (ls : List (K × ℕ))
      → IsTracked p ls
      → get k p.entries ≡ some entry
      → is_held k c ls ≡ true
      → let entry' : Entry = record entry { in_use = entry.in_use - 1; last_used = now } in
        IsUpdate k entry' p (record p { entries = put k entry' p.entries }) ls (drop_lease k c ls)
  released-IsUpdate now k c entry p ls t found h =
      let entry' : Entry = record entry { in_use = entry.in_use - 1; last_used = now } in
      record {
        at_key = λ j. get-put k j entry' p.entries;
        same_closed = refl;
        used = ground (
          arith,
          in_use_found k entry p.entries found,
          t.counted k,
          leased-drop_lease k k c ls h,
          beq_self k,
        );
        others = λ j other. ground (arith, leased-drop_lease k j c ls h, other);
        held = λ j d g.
            let before = held-drop_lease k j c d ls g in
            elim (Bool-cases (k == j)) [
              | inl same ↦ inl (same, client_of_held k j d entry p ls t found same before)
              | inr other ↦ inr (other, before)
            ];
        origin = inl (entry, found, refl);
        grows = omega arith;
        known = t.known_open k entry found;
      }

  release-IsTracked :
      (now : ℕ) (k : K) (c : ℕ) (p : Pool K) (ls : List (K × ℕ))
      → IsTracked p ls
      → is_held k c ls ≡ true
      → IsTracked (release now k p) (drop_lease k c ls)
  unfolding release
  release-IsTracked now k c p ls t h =
      let (entry, found, client) = t.clients k c h in
      let entry' : Entry = record entry { in_use = entry.in_use - 1; last_used = now } in
      let p' : Pool K = record p { entries = put k entry' p.entries } in
      let t' =
        update-IsTracked k entry' p p' ls (drop_lease k c ls)
          (released-IsUpdate now k c entry p ls t found h) t in
      rw (found, release)
        (elim (Bool-cases (ltb max_clients (length p'.entries) && entry'.in_use == 0)) [
          | inr stays ↦ rw stays t'
          | inl goes ↦ rw goes (
              close_entry-IsTracked k p' (drop_lease k c ls)
                (sym (
                    in_use_found k entry' p'.entries
                      (ground (arith, get-put k k entry' p.entries, beq_self k)))
                  ∙ ground arith)
                t')
        ])

  -- The pools that a process comes to, with the leases that are out.
  pub data Reach (key_lt : K → K → Bool) : Pool K → List (K × ℕ) → Type ℓ where
    start : Reach key_lt (empty_pool {K = K}) []
    take :
        (now : ℕ) (k : K) (p : Pool K) (ls : List (K × ℕ))
        → Reach key_lt p ls
        → Reach key_lt (acquire key_lt now k p).0 ((k, (acquire key_lt now k p).1) ∷ ls)
    give :
        (now : ℕ) (k : K) (c : ℕ) (p : Pool K) (ls : List (K × ℕ))
        → Reach key_lt p ls
        → is_held k c ls ≡ true
        → Reach key_lt (release now k p) (drop_lease k c ls)

  empty_pool-IsTracked : IsTracked (empty_pool {K = K}) []
  unfolding empty_pool in_use_at leased is_held get contains
  empty_pool-IsTracked = record {
    counted = λ k. refl;
    clients = λ k c h. cc;
    open_clients = λ k entry h. cc;
    known_open = λ k entry h. cc;
    known_closed = λ c h. cc;
    apart = λ j k a b h g same. cc;
  }

  Reach-IsTracked :
      (key_lt : K → K → Bool) (p : Pool K) (ls : List (K × ℕ)) → Reach key_lt p ls → IsTracked p ls
  Reach-IsTracked key_lt _ _ start = empty_pool-IsTracked
  Reach-IsTracked key_lt _ _ (take now k p ls r) =
      acquire-IsTracked key_lt now k p ls (Reach-IsTracked key_lt p ls r)
  Reach-IsTracked key_lt _ _ (give now k c p ls r h) =
      release-IsTracked now k c p ls (Reach-IsTracked key_lt p ls r) h

  -- However clients are acquired and released, each release for a lease that is out: a client that
  -- is under lease is the one the pool holds under its key, its entry counts exactly the leases of
  -- that key, at least one, and the client has not been closed.
  pub leased_client_stays_open :
      (key_lt : K → K → Bool) (p : Pool K) (ls : List (K × ℕ)) (k : K) (c : ℕ)
      → Reach key_lt p ls
      → is_held k c ls ≡ true
      → (entry : Entry) × (get k p.entries ≡ some entry)
        × (entry.client ≡ c)
        × (entry.in_use ≡ leased k ls)
        × (0 < leased k ls)
        × (contains c p.closed ≡ false)
  leased_client_stays_open key_lt p ls k c r h =
      let t = Reach-IsTracked key_lt p ls r in
      let (entry, found, client) = t.clients k c h in
      (
        entry,
        found,
        client,
        in_use_found k entry p.entries found ∙ t.counted k,
        held-leased k c ls h,
        subst (λ d. contains d p.closed ≡ false) client (t.open_clients k entry found),
      )
