-- ===== src/HttpPool/Steps.antt =====
-- The operations of the pool keep the leases.
use llm_aio_gateway.Prelude.{
  ℕ, zero, suc, ◌≡◌, subst, Bool, ◌&&◌, ◌||◌, Option, none, some, List, [], ◌∷◌, ◌==◌, nat_eq,
  EqTest, if◌then◌else◌, ltb, length, arith, Bool-cases, Option-cases, inl, inr,
}
use llm_aio_gateway.Dict.{Dict, get, keys}
use llm_aio_gateway.HttpPool.Defs.{
  Entry, Pool, is_stale, better, in_use_at, close_entry, evict_idle, pick_idle, reclaim,
  evict_locked,
}
use llm_aio_gateway.HttpPool.Leases.{IsTracked, close_entry-IsTracked}

module _ {ℓ} {K : Type ℓ} ⦃e : EqTest K⦄ where
  in_use_of :
      (k : K) (entry : Entry) (d : Dict K Entry)
      → get k d ≡ some entry
      → entry.in_use ≡ 0
      → in_use_at k d ≡ 0
  unfolding in_use_at
  in_use_of k entry d found idle = ground (arith, found, idle)

  evict_one-IsTracked :
      (now : ℕ) (k : K) (p : Pool K) (ls : List (K × ℕ))
      → IsTracked p ls
      → IsTracked
          (elim (get k p.entries) [
            | none ↦ p
            | some entry ↦ if is_stale now entry then close_entry k p else p
          ])
          ls
  evict_one-IsTracked now k p ls t = elim (Option-cases (get k p.entries)) [
    | inl missing ↦ rw missing t
    | inr (entry, found) ↦ elim (Bool-cases (is_stale now entry)) [
      | inl stale ↦ rw found (
          rw stale
            (close_entry-IsTracked k p ls (in_use_of k entry p.entries found (ground arith)) t))
      | inr kept ↦ rw found (rw kept t)
    ]
  ]

  evict_idle-IsTracked :
      (now : ℕ) (ks : List K) (p : Pool K) (ls : List (K × ℕ))
      → IsTracked p ls
      → IsTracked (evict_idle now ks p) ls
  unfolding evict_idle
  evict_idle-IsTracked now [] p ls t = t
  evict_idle-IsTracked now (k ∷ ks) p ls t =
      evict_idle-IsTracked now ks _ ls (evict_one-IsTracked now k p ls t)

  -- The picked key is one of a pair that is not in use.
  abbrev IsIdle : Dict K Entry → Option (ℕ × K) → Type 0
  IsIdle d none = Unit
  IsIdle d (some (t, k)) = in_use_at k d ≡ 0

  module _ (key_lt : K → K → Bool) where
    better-IsIdle :
        (d : Dict K Entry) (t : ℕ) (k : K) (best : Option (ℕ × K))
        → in_use_at k d ≡ 0
        → IsIdle d best
        → IsIdle d (better key_lt t k best)
    better-IsIdle d t k none h i = h
    better-IsIdle d t k (some (u, j)) h i = elim (Bool-cases (ltb t u || (t == u && key_lt k j))) [
      | inl smaller ↦ rw smaller h
      | inr other ↦ rw other i
    ]

    pick_idle-IsIdle :
        (ks : List K) (d : Dict K Entry) (best : Option (ℕ × K))
        → IsIdle d best
        → IsIdle d (pick_idle key_lt ks d best)
    unfolding pick_idle
    pick_idle-IsIdle [] d best i = i
    pick_idle-IsIdle (k ∷ ks) d best i = elim (Option-cases (get k d)) [
      | inl missing ↦ rw missing (pick_idle-IsIdle ks d best i)
      | inr (entry, found) ↦ elim (Bool-cases (entry.in_use == 0)) [
        | inr busy ↦ rw found (rw busy (pick_idle-IsIdle ks d best i))
        | inl idle ↦ rw found (
            rw idle (
              pick_idle-IsIdle ks d (better key_lt entry.last_used k best) (
                better-IsIdle d entry.last_used k best (in_use_of k entry d found (ground arith))
                  i)))
      ]
    ]

    reclaim-IsTracked :
        (fuel limit : ℕ) (p : Pool K) (ls : List (K × ℕ))
        → IsTracked p ls
        → IsTracked (reclaim key_lt fuel limit p) ls
    unfolding reclaim
    reclaim-IsTracked zero limit p ls t = t
    reclaim-IsTracked (suc fuel) limit p ls t = elim (Bool-cases (ltb limit (length p.entries))) [
      | inr fits ↦ rw fits t
      | inl over ↦ rw over (elim (Option-cases (pick_idle key_lt (keys p.entries) p.entries none)) [
        | inl all_busy ↦ rw all_busy t
        | inr ((u, k), picked) ↦ rw picked (
            reclaim-IsTracked fuel limit (close_entry k p) ls (
              close_entry-IsTracked k p ls
                (subst (IsIdle p.entries) picked
                  (pick_idle-IsIdle (keys p.entries) p.entries none tt))
                t))
      ])
    ]

    pub evict_locked-IsTracked :
        (now limit : ℕ) (p : Pool K) (ls : List (K × ℕ))
        → IsTracked p ls
        → IsTracked (evict_locked key_lt now limit p) ls
    unfolding evict_locked
    evict_locked-IsTracked now limit p ls t =
        reclaim-IsTracked _ limit _ ls (evict_idle-IsTracked now (keys p.entries) p ls t)
