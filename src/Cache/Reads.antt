-- ===== src/Cache/Reads.antt =====
-- What a read finds, and which entry a write to a full cache drops.
use llm_aio_gateway.Prelude.{
  ℕ, ◌-◌, String, ◌≡◌, not, ◌&&◌, none, some, string_eq, nat_eq, if◌then◌else◌, ltb, leb, length,
  arith, beq_self,
}
use llm_aio_gateway.Dict.{keys, contains, get-put, keys-put, contains-add_key}
use llm_aio_gateway.Cache.Defs.{TtlDict, is_expired, make_room, set_item, read}
use llm_aio_gateway.Cache.Shape.{SameKeys, make_room-Shrinks}

module _ {ℓ} {V : Type ℓ} where
  -- What `set_item` writes into: the cache, after a place was made if one was needed.
  target-same_ttl :
      (evict_at : ℕ) (k : String) (d : TtlDict V)
      → SameKeys d
      → (if leb d.max_size (length d.entries) && not (contains k (keys d.entries))
          then make_room evict_at d
          else d).ttl
        ≡ d.ttl
  target-same_ttl evict_at k d h = ground (arith, (make_room-Shrinks evict_at d h).same_ttl)

  -- A read at time `t` after a write at time `now` finds the value exactly until `ttl` ticks have
  -- passed, whatever the cache held, if its two dicts have the same keys.
  pub read-set_item :
      (evict_at now t : ℕ) (k : String) (v : V) (d : TtlDict V)
      → SameKeys d
      → (read t k (set_item evict_at now k v d)).1 ≡ (if ltb d.ttl (t - now) then none else some v)
  unfolding read set_item is_expired
  read-set_item evict_at now t k v d h =
      simp (keys-put, contains-add_key, get-put, beq_self, target-same_ttl evict_at k d h)
        (ground arith)
