-- ===== src/Cache/Ops.antt =====
-- The operations as values, a run of them, and the shape that every run keeps.
use llm_aio_gateway.Prelude.{
  ℕ, zero, suc, ◌-◌, ◌≤◌, ◌<◌, min, String, ◌≡◌, ap, true, false, not, ◌&&◌, ◌||◌, List, [], ◌∷◌,
  ◌==◌, string_eq, nat_eq, ltb, leb, length, arith, Bool-cases, Option-cases, inl, inr, is_nonempty,
}
use llm_aio_gateway.Dict.{get, keys, contains, length-keys, contains_of_get, get_or}
use llm_aio_gateway.Cache.Defs.{
  TtlDict, new, is_expired, drop_locked, evict_expired, drop_oldest, set_item, read, list_keys,
  shrink, configure,
}
use llm_aio_gateway.Cache.Counter.{
  Counters, increment_locked, increment, reset, live_after, used_of, reserve, charge, refund,
}
use llm_aio_gateway.Cache.Shape.{
  IsWellFormed, SameKeys, Shrinks, Shrinks-refl, Shrinks-trans, Shrinks-IsWellFormed, size,
  drop_locked-Shrinks, evict_expired-Shrinks, drop_oldest-Shrinks, drop_oldest_lt, make_room_small,
  stored_present-IsWellFormed, stored_new-IsWellFormed,
}

-- One call of a method, with the clock readings that it makes.
pub data Op : Type 0 where
  set : (evict_at now : ℕ) → String → ℕ → Op
  get_at : (now : ℕ) → String → Op
  drop : String → Op
  list : (now : ℕ) → Op
  bump : (evict_at now : ℕ) → String → ℕ → Op
  zero_out : (check_at now : ℕ) → String → Op
  charge_for : (check_at evict_at now : ℕ) → (limit : ℕ) → String → ℕ → Op
  refund_for : (check_at now : ℕ) → String → ℕ → Op
  resize : (now : ℕ) → (ttl max_size : ℕ) → Op

unfoldable pub apply : Op → Counters → Counters
apply (set evict_at now k v) d = set_item evict_at now k v d
apply (get_at now k) d = (read now k d).0
apply (drop k) d = drop_locked k d
apply (list now) d = (list_keys now d).0
apply (bump evict_at now k delta) d = (increment evict_at now k delta d).0
apply (zero_out check_at now k) d = reset check_at now k d
apply (charge_for check_at evict_at now limit k n) d = (charge check_at evict_at now limit k n d).0
apply (refund_for check_at now k n) d = refund check_at now k n d
apply (resize now ttl max_size) d = (configure now ttl max_size d).0

unfoldable pub run : List Op → Counters → Counters
run [] d = d
run (op ∷ ops) d = run ops (apply op d)

-- `_limit_value` lets no capacity through that is not positive.
abbrev pub HasCapacity : Op → Type 0
HasCapacity (resize now ttl max_size) = 0 < max_size
HasCapacity _ = Unit

abbrev pub AllHaveCapacity : List Op → Type 0
AllHaveCapacity [] = Unit
AllHaveCapacity (op ∷ ops) = HasCapacity op × AllHaveCapacity ops

module _ {ℓ} {V : Type ℓ} where
  pub set_item-IsWellFormed :
      (evict_at now : ℕ) (k : String) (v : V) (d : TtlDict V)
      → IsWellFormed d
      → IsWellFormed (set_item evict_at now k v d)
  unfolding set_item
  set_item-IsWellFormed evict_at now k v d w = elim (Bool-cases (contains k (keys d.entries))) [
    | inl old ↦ elim (Bool-cases (leb d.max_size (length d.entries))) [
      | inl full ↦ rw (old, full) (stored_present-IsWellFormed k v now d w old)
      | inr free ↦ rw free (stored_present-IsWellFormed k v now d w old)
    ]
    | inr new ↦ elim (Bool-cases (leb d.max_size (length d.entries))) [
      | inl full ↦ rw (new, full) (stored_new-IsWellFormed evict_at now k v d w)
      | inr free ↦
          rw free
            (rw (make_room_small evict_at d free) at (stored_new-IsWellFormed evict_at now k v d w))
    ]
  ]

  pub read-Shrinks :
      (now : ℕ) (k : String) (d : TtlDict V) → SameKeys d → Shrinks d (read now k d).0
  unfolding read
  read-Shrinks now k d h = elim (Bool-cases (contains k (keys d.entries))) [
    | inr new ↦ rw new (Shrinks-refl d h)
    | inl old ↦ elim (Bool-cases (is_expired now k d)) [
      | inl gone ↦ rw (old, gone) (drop_locked-Shrinks k d h)
      | inr live ↦ rw (old, live) (Shrinks-refl d h)
    ]
  ]

  shrink-Shrinks : (fuel : ℕ) (d : TtlDict V) → SameKeys d → Shrinks d (shrink fuel d)
  unfolding shrink
  shrink-Shrinks zero d h = Shrinks-refl d h
  shrink-Shrinks (suc fuel) d h =
      let s = drop_oldest-Shrinks d h in
      let t = Shrinks-trans s (shrink-Shrinks fuel (drop_oldest d) s.same_keys) in
      elim (Bool-cases (ltb d.max_size (length d.entries) && not (length d.stamps == 0))) [
        | inl more ↦ rw more t
        | inr done ↦ rw done (Shrinks-refl d h)
      ]

  -- With as much fuel as there are entries the loop ends by its test, inside the capacity.
  shrink-fits :
      (fuel : ℕ) (d : TtlDict V) → SameKeys d → size d ≤ fuel → size (shrink fuel d) ≤ d.max_size
  unfolding shrink
  shrink-fits zero d h le = omega arith
  shrink-fits (suc fuel) d h le =
      let s = drop_oldest-Shrinks d h in
      ground (
        arith,
        length-keys d.entries,
        length-keys d.stamps,
        ap length h,
        s.same_max,
        drop_oldest_lt d h,
        shrink-fits fuel (drop_oldest d) s.same_keys,
      )

  pub configure-IsWellFormed :
      (now ttl max_size : ℕ) (d : TtlDict V)
      → 0 < max_size
      → SameKeys d
      → IsWellFormed (configure now ttl max_size d).0
  unfolding configure
  configure-IsWellFormed now ttl max_size d p h =
      let d' : TtlDict V = record d { ttl = ttl; max_size = max_size } in
      let s = evict_expired-Shrinks now d' h in
      let e = evict_expired now d' in
      let t = Shrinks-trans s (shrink-Shrinks (length e.entries) e s.same_keys) in
      elim (Bool-cases (ltb max_size (length d.entries))) [
        | inr small ↦
            rw small
              (record { same_keys = h; fits = ground (arith, length-keys d.entries); has_room = p })
        | inl over ↦ rw over (record {
          same_keys = t.same_keys;
          fits = omega (
            arith,
            shrink-fits (length e.entries) e s.same_keys,
            length-keys e.entries,
            s.same_max,
            t.same_max,
          );
          has_room = omega (arith, t.same_max);
        })
      ]

pub live_after-Shrinks :
    (now : ℕ) (k : String) (d : Counters) → SameKeys d → Shrinks d (live_after now k d)
unfolding live_after
live_after-Shrinks now k d h =
    elim (Bool-cases (contains k (keys d.entries) && is_expired now k d)) [
      | inl gone ↦ rw gone (drop_locked-Shrinks k d h)
      | inr live ↦ rw live (Shrinks-refl d h)
    ]

pub increment_locked-IsWellFormed :
    (evict_at now : ℕ) (k : String) (delta : ℕ) (d : Counters)
    → IsWellFormed d
    → IsWellFormed (increment_locked evict_at now k delta d).0
unfolding increment_locked
increment_locked-IsWellFormed evict_at now k delta d w =
    elim (Bool-cases (contains k (keys d.entries))) [
      | inl old ↦ rw old (stored_present-IsWellFormed k _ now d w old)
      | inr new ↦ rw new (stored_new-IsWellFormed evict_at now k delta d w)
    ]

present_of_used :
    (k : String) (d : Counters)
    → (get_or 0 (get k d.entries) == 0) ≡ false
    → contains k (keys d.entries) ≡ true
present_of_used k d h = elim (Option-cases (get k d.entries)) [
  | inl missing ↦ cc (rw missing at h)
  | inr (n, found) ↦ contains_of_get k n d.entries found
]

reset-IsWellFormed :
    (check_at now : ℕ) (k : String) (d : Counters)
    → IsWellFormed d
    → IsWellFormed (reset check_at now k d)
unfolding reset
reset-IsWellFormed check_at now k d w = elim (Bool-cases (contains k (keys d.entries))) [
  | inr new ↦ rw new w
  | inl old ↦ elim (Bool-cases (is_expired check_at k d)) [
    | inl gone ↦ rw (old, gone) w
    | inr live ↦ rw (old, live) (stored_present-IsWellFormed k 0 now d w old)
  ]
]

pub reserve-IsWellFormed :
    (check_at evict_at now : ℕ) (k : String) (limit n : ℕ) (d : Counters)
    → IsWellFormed d
    → IsWellFormed (reserve check_at evict_at now k limit n d).0
unfolding reserve
reserve-IsWellFormed check_at evict_at now k limit n d w = elim (Bool-cases (n == 0)) [
  | inl nothing ↦ rw nothing w
  | inr asked ↦
      let live = live_after check_at k d in
      let w' = Shrinks-IsWellFormed (live_after-Shrinks check_at k d w.same_keys) w in
      elim (Bool-cases (min n (limit - used_of k live) == 0)) [
        | inl full ↦ rw (asked, full) w'
        | inr left ↦
            rw (asked, left)
              (increment_locked-IsWellFormed evict_at now k (min n (limit - used_of k live)) live
                w')
      ]
]

charge-IsWellFormed :
    (check_at evict_at now limit : ℕ) (k : String) (n : ℕ) (d : Counters)
    → IsWellFormed d
    → IsWellFormed (charge check_at evict_at now limit k n d).0
unfolding charge
charge-IsWellFormed check_at evict_at now limit k n d w = elim (Bool-cases (n == 0)) [
  | inl nothing ↦ rw nothing w
  | inr asked ↦ elim (Bool-cases (not (is_nonempty k) || limit == 0)) [
    | inl unlimited ↦ rw (asked, unlimited) w
    | inr limited ↦ rw (asked, limited) (reserve-IsWellFormed check_at evict_at now k limit n d w)
  ]
]

refund-IsWellFormed :
    (check_at now : ℕ) (k : String) (n : ℕ) (d : Counters)
    → IsWellFormed d
    → IsWellFormed (refund check_at now k n d)
unfolding refund
refund-IsWellFormed check_at now k n d w = elim (Bool-cases (not (is_nonempty k) || n == 0)) [
  | inl skipped ↦ rw skipped w
  | inr asked ↦ elim (Bool-cases (contains k (keys d.entries) && is_expired check_at k d)) [
    | inl gone ↦ rw (asked, gone) (Shrinks-IsWellFormed (drop_locked-Shrinks k d w.same_keys) w)
    | inr live ↦ elim (Bool-cases (get_or 0 (get k d.entries) == 0)) [
      | inl unused ↦ rw (asked, live, unused) w
      | inr used ↦
          rw (asked, live, used)
            (stored_present-IsWellFormed k _ now d w (present_of_used k d used))
    ]
  ]
]

apply-IsWellFormed :
    (op : Op) (d : Counters) → HasCapacity op → IsWellFormed d → IsWellFormed (apply op d)
unfolding apply list_keys increment
apply-IsWellFormed (set evict_at now k v) d p w = set_item-IsWellFormed evict_at now k v d w
apply-IsWellFormed (get_at now k) d p w = Shrinks-IsWellFormed (read-Shrinks now k d w.same_keys) w
apply-IsWellFormed (drop k) d p w = Shrinks-IsWellFormed (drop_locked-Shrinks k d w.same_keys) w
apply-IsWellFormed (list now) d p w =
    Shrinks-IsWellFormed (evict_expired-Shrinks now d w.same_keys) w
apply-IsWellFormed (bump evict_at now k delta) d p w =
    increment_locked-IsWellFormed evict_at now k delta d w
apply-IsWellFormed (zero_out check_at now k) d p w = reset-IsWellFormed check_at now k d w
apply-IsWellFormed (charge_for check_at evict_at now limit k n) d p w =
    charge-IsWellFormed check_at evict_at now limit k n d w
apply-IsWellFormed (refund_for check_at now k n) d p w = refund-IsWellFormed check_at now k n d w
apply-IsWellFormed (resize now ttl max_size) d p w =
    configure-IsWellFormed now ttl max_size d p w.same_keys

-- Any sequence of calls, with any clock readings, whose new capacities are positive, keeps the
-- two dicts of a cache on the same keys and its entries within the capacity.
pub run-IsWellFormed :
    (ops : List Op) (d : Counters) → AllHaveCapacity ops → IsWellFormed d → IsWellFormed (run ops d)
unfolding run
run-IsWellFormed [] d p w = w
run-IsWellFormed (op ∷ ops) d p w =
    run-IsWellFormed ops (apply op d) p.1 (apply-IsWellFormed op d p.0 w)
