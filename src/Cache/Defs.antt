-- ===== src/Cache/Defs.antt =====
-- The methods of `TTLDict` that work for every type of value.
use llm_aio_gateway.Prelude.{
  ℕ, zero, suc, ◌-◌, String, Bool, true, false, not, ◌&&◌, ◌||◌, Option, none, some, List, [], ◌∷◌,
  ◌==◌, string_eq, nat_eq, if◌then◌else◌, ltb, leb, length,
}
use llm_aio_gateway.Dict.{Dict, get, put, pop, keys, contains, get_or}

pub record TtlDict {ℓ} (V : Type ℓ) : Type ℓ where
  pub ttl : ℕ
  pub max_size : ℕ
  pub entries : Dict String V
  pub stamps : Dict String ℕ

-- `min(self._timestamps, key=…)`: the first key of the least stamp
unfoldable pub oldest_from : String → ℕ → Dict String ℕ → String
oldest_from k t [] = k
oldest_from k t ((j, u) ∷ d) = elim (ltb u t) [
  | true ↦ oldest_from j u d
  | false ↦ oldest_from k t d
]

unfoldable pub oldest : Dict String ℕ → Option String
unfolding oldest_from
oldest [] = none
oldest ((k, t) ∷ d) = some (oldest_from k t d)

-- `now - ts > self.ttl`, over the items of the stamps
unfoldable pub expired_keys : ℕ → ℕ → Dict String ℕ → List String
expired_keys now ttl [] = []
expired_keys now ttl ((k, ts) ∷ d) =
    let rest = expired_keys now ttl d in if ltb ttl (now - ts) then k ∷ rest else rest

module _ {ℓ} {V : Type ℓ} where
  unfoldable pub new : ℕ → ℕ → TtlDict V
  new ttl_seconds max_size = record {
    ttl = ttl_seconds;
    max_size = max_size;
    entries = [];
    stamps = [];
  }

  unfoldable pub is_expired : ℕ → String → TtlDict V → Bool
  is_expired now k d = ltb d.ttl (now - get_or 0 (get k d.stamps))

  unfoldable pub drop_locked : String → TtlDict V → TtlDict V
  drop_locked k d = record d { entries = pop k d.entries; stamps = pop k d.stamps }

  unfoldable pub drop_all : List String → TtlDict V → TtlDict V
  drop_all [] d = d
  drop_all (k ∷ ks) d = drop_all ks (drop_locked k d)

  unfoldable pub evict_expired : ℕ → TtlDict V → TtlDict V
  evict_expired now d = drop_all (expired_keys now d.ttl d.stamps) d

  unfoldable pub drop_oldest : TtlDict V → TtlDict V
  drop_oldest d = elim (oldest d.stamps) [ none ↦ d | some k ↦ drop_locked k d ]

  -- The two nested tests before a new key is added.
  unfoldable pub make_room : ℕ → TtlDict V → TtlDict V
  make_room now d =
      if leb d.max_size (length d.entries)
      then (let d' = evict_expired now d in
          if leb d'.max_size (length d'.entries) then drop_oldest d' else d')
      else d

  -- d[k] = v
  unfoldable pub set_item : ℕ → ℕ → String → V → TtlDict V → TtlDict V
  set_item evict_at now k v d =
      let d' =
        if leb d.max_size (length d.entries) && not (contains k (keys d.entries))
        then make_room evict_at d
        else d in
      record d' { entries = put k v d'.entries; stamps = put k now d'.stamps }

  -- The lookup that `get` and `__getitem__` share: an expired entry is dropped.
  unfoldable pub read : ℕ → String → TtlDict V → TtlDict V × Option V
  read now k d =
      if not (contains k (keys d.entries))
      then (d, none)
      else if is_expired now k d
      then (drop_locked k d, none)
      else (d, get k d.entries)

  unfoldable pub get_value : ℕ → String → V → TtlDict V → TtlDict V × V
  get_value now k default d = let (d', found) = read now k d in (d', get_or default found)

  -- d[k]; `none` is a KeyError
  unfoldable pub get_item : ℕ → String → TtlDict V → TtlDict V × Option V
  get_item now k d = read now k d

  unfoldable pub list_keys : ℕ → TtlDict V → TtlDict V × List String
  list_keys now d = let d' = evict_expired now d in (d', keys d'.entries)

  -- The `while` of `configure`. Each round drops an entry, so the number of entries is enough fuel.
  unfoldable pub shrink : ℕ → TtlDict V → TtlDict V
  shrink zero d = d
  shrink (suc fuel) d =
      let next = shrink fuel (drop_oldest d) in
      if ltb d.max_size (length d.entries) && not (length d.stamps == 0) then next else d

  unfoldable pub configure : ℕ → ℕ → ℕ → TtlDict V → TtlDict V × Bool
  configure now ttl_seconds max_size d =
      let changed = not (d.ttl == ttl_seconds) || not (d.max_size == max_size) in
      let d' = record d { ttl = ttl_seconds; max_size = max_size } in
      let trimmed = evict_expired now d' in
      if ltb max_size (length d'.entries)
      then (shrink (length trimmed.entries) trimmed, changed)
      else (d', changed)

  -- len(d)
  unfoldable pub count : TtlDict V → ℕ
  count d = length d.entries
