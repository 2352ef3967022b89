-- ===== src/Cache/Tests.antt =====
-- Runs of the cache, and its theorems at concrete inputs.
use llm_aio_gateway.Prelude.{
  ℕ, String, ◌≡◌, refl, none, some, List, [], ◌∷◌, string_eq, nat_eq, if◌then◌else◌, ltb, ◌==◌,
  arith, min, ◌-◌, ◌+◌, true, ◌≤◌,
}
use llm_aio_gateway.Dict.{get, put, pop, keys, contains, get_or}
use llm_aio_gateway.Cache.Defs.{
  new, is_expired, drop_locked, expired_keys, drop_all, evict_expired, oldest, drop_oldest,
  make_room, set_item, read, shrink, configure,
}
use llm_aio_gateway.Cache.Counter.{
  Counters, increment_locked, increment, reset, live_after, used_of, reserve, charge, refund,
}
use llm_aio_gateway.Cache.Shape.{IsWellFormed}
use llm_aio_gateway.Cache.Ops.{Op, set, bump, charge_for, resize, apply, run, run-IsWellFormed}
use llm_aio_gateway.Cache.Capacity.{set_item_full}
use llm_aio_gateway.Cache.Reads.{read-set_item}
use llm_aio_gateway.Cache.Budget.{Claim, charge_each, charge_each_total, refund-charge}

-- One name for the definitions that a run goes through.
machine : Unit {0}
unfolding new is_expired drop_locked expired_keys drop_all evict_expired oldest drop_oldest
    make_room set_item read shrink configure increment_locked increment reset live_after used_of
    reserve charge refund apply run charge_each get put pop keys contains
machine = tt

abbrev small : Counters
small = record {
  ttl = 10;
  max_size = 2;
  entries = ("a", 1) ∷ ("b", 2) ∷ [];
  stamps = ("a", 5) ∷ ("b", 3) ∷ [];
}

small-IsWellFormed : IsWellFormed small
unfolding machine
small-IsWellFormed = record { same_keys = refl; fits = omega arith; has_room = omega arith }

oldest_is_dropped : (set_item 6 6 "c" 9 small).entries ≡ ("a", 1) ∷ ("c", 9) ∷ []
unfolding machine
oldest_is_dropped = refl

expired_go_first : (set_item 14 14 "c" 9 small).entries ≡ ("a", 1) ∷ ("c", 9) ∷ []
unfolding machine
expired_go_first = refl

smaller_capacity : (configure 6 10 1 small).0.entries ≡ ("a", 1) ∷ []
unfolding machine
smaller_capacity = refl

abbrev calls : List Op
calls = set 6 6 "c" 9 ∷ charge_for 7 7 7 3 "d" 5 ∷ resize 8 10 1 ∷ bump 9 9 "e" 1 ∷ []

run_of_calls : (run calls small).entries ≡ ("e", 1) ∷ []
unfolding machine
run_of_calls = refl

run-IsWellFormed_example : IsWellFormed (run calls small)
run-IsWellFormed_example = run-IsWellFormed calls small (omega arith) small-IsWellFormed

read-set_item_example :
    (read 15 "c" (set_item 6 6 "c" 9 small)).1 ≡ (if ltb 10 (15 - 6) then none else some 9)
unfolding machine
read-set_item_example = read-set_item 6 6 15 "c" 9 small refl

set_item_full_run :
    (victim : String) × (contains victim ("a" ∷ "b" ∷ []) ≡ true)
    × ((j : String)
        → get j (set_item 6 6 "c" 9 small).entries
          ≡ (if "c" == j then some 9 else if victim == j then none else get j small.entries))
    × ((j : String) (u : ℕ) → get j small.stamps ≡ some u → get_or 0 (get victim small.stamps) ≤ u)
unfolding machine
set_item_full_run =
    set_item_full 6 6 "c" 9 small refl (refl, (refl, tt)) (omega arith) refl refl refl

abbrev claims : List Claim
claims =
    record { check_at = 100; evict_at = 100; now = 100; wanted = 3 }
    ∷ record { check_at = 104; evict_at = 104; now = 105; wanted = 4 }
    ∷ []

abbrev fresh : Counters
fresh = record { ttl = 10; max_size = 2; entries = []; stamps = [] }

charge_each_total_example :
    ((charge_each 5 "k" claims fresh).1 ≡ min 7 (5 - used_of "k" fresh))
    × (used_of "k" (charge_each 5 "k" claims fresh).0
        ≡ used_of "k" fresh + (charge_each 5 "k" claims fresh).1)
unfolding machine
charge_each_total_example =
    charge_each_total 100 5 "k" claims fresh
      (record { same_keys = refl; fits = omega arith; has_room = omega arith }) (λ h. cc) refl
      (omega arith) (omega arith) (omega arith)

refund-charge_example :
    let paid = charge 100 100 100 5 "k" 3 fresh in
    used_of "k" (refund 105 106 "k" paid.1 paid.0) ≡ used_of "k" (live_after 100 "k" fresh)
unfolding machine
refund-charge_example =
    refund-charge 100 100 100 105 106 5 "k" 3 fresh refl refl (omega arith) (omega arith)
      (omega arith)
