-- ===== src/Cache/Counter.antt =====
-- The methods that count, and the image budget of app/core/state.py.
use llm_aio_gateway.Prelude.{
  ℕ, ◌+◌, ◌-◌, min, String, not, ◌&&◌, ◌||◌, ◌==◌, string_eq, nat_eq, if◌then◌else◌, is_nonempty,
}
use llm_aio_gateway.Dict.{get, put, keys, contains, get_or}
use llm_aio_gateway.Cache.Defs.{TtlDict, is_expired, drop_locked, make_room}

abbrev pub Counters : Type 0
Counters = TtlDict ℕ

-- An absent key counts from `delta`, a present one goes on, expired or not.
unfoldable pub increment_locked : ℕ → ℕ → String → ℕ → Counters → Counters × ℕ
increment_locked evict_at now k delta d =
    let d' = if contains k (keys d.entries) then d else make_room evict_at d in
    let val = if contains k (keys d.entries) then get_or 0 (get k d.entries) + delta else delta in
    (record d' { entries = put k val d'.entries; stamps = put k now d'.stamps }, val)

unfoldable pub increment : ℕ → ℕ → String → ℕ → Counters → Counters × ℕ
increment evict_at now k delta d = increment_locked evict_at now k delta d

unfoldable pub reset : ℕ → ℕ → String → Counters → Counters
reset check_at now k d =
    if contains k (keys d.entries) && not (is_expired check_at k d)
    then record d { entries = put k 0 d.entries; stamps = put k now d.stamps }
    else d

-- The first test of `reserve`: an expired entry is dropped.
unfoldable pub live_after : ℕ → String → Counters → Counters
live_after now k d =
    if contains k (keys d.entries) && is_expired now k d then drop_locked k d else d

unfoldable pub used_of : String → Counters → ℕ
used_of k d = if contains k (keys d.entries) then get_or 0 (get k d.entries) else 0

-- `max(0, limit - used)` is the subtraction that stops at 0.
unfoldable pub reserve : ℕ → ℕ → ℕ → String → ℕ → ℕ → Counters → Counters × ℕ
reserve check_at evict_at now k limit count d =
    if count == 0
    then (d, 0)
    else let d' = live_after check_at k d in
      let allowed = min count (limit - used_of k d') in
      (if not (allowed == 0) then (increment_locked evict_at now k allowed d').0 else d', allowed)

-- charge_image_generation_budget, where `limit` is the configured number
unfoldable pub charge : ℕ → ℕ → ℕ → ℕ → String → ℕ → Counters → Counters × ℕ
charge check_at evict_at now limit conv_key count d =
    if count == 0
    then (d, 0)
    else if not (is_nonempty conv_key) || limit == 0
    then (d, count)
    else reserve check_at evict_at now conv_key limit count d

-- refund_image_generation_budget
unfoldable pub refund : ℕ → ℕ → String → ℕ → Counters → Counters
refund check_at now conv_key count d =
    if not (is_nonempty conv_key) || count == 0
    then d
    else if contains conv_key (keys d.entries) && is_expired check_at conv_key d
    then drop_locked conv_key d
    else let current = get_or 0 (get conv_key d.entries) in
      if current == 0 then d else record d {
        entries = put conv_key (current - count) d.entries;
        stamps = put conv_key now d.stamps;
      }
