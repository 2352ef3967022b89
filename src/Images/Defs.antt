-- ===== src/Images/Defs.antt =====
-- The operations of ImageInvocationCache. Each runs under the lock, so it is one step, and the time
-- is read once. A future is a number, with what it is settled to; it is pending if there is nothing.
use llm_aio_gateway.Prelude.{
  ℕ, suc, ◌+◌, max, String, Bool, true, false, not, ◌&&◌, Option, none, some, List, [], ◌∷◌, ◌==◌,
  nat_eq, string_eq, if◌then◌else◌, ltb, leb, length,
}
use llm_aio_gateway.Dict.{Dict, get, put, pop}

pub data Settled (V E : Type 0) : Type 0 where
  result : V → Settled V E
  raised : E → Settled V E
  was_abandoned was_cancelled : Settled V E

pub record Entry : Type 0 where
  pub future : ℕ
  pub created_at : ℕ
  pub completed_at : Option ℕ

pub record Invocations (V E : Type 0) : Type 0 where
  pub entries : Dict String Entry
  pub settled : Dict ℕ (Settled V E)
  pub next_future : ℕ

pub record Claim : Type 0 where
  pub key : String
  pub owner : Bool
  pub future : ℕ

-- The settings of a claim: how long a result is kept, how many entries there may be, and how old
-- one in flight may become.
pub record Settings : Type 0 where
  pub ttl_seconds : ℕ
  pub max_entries : ℕ
  pub inflight_max_age_seconds : ℕ

abbrev pub is_complete : Entry → Bool
is_complete entry = elim entry.completed_at [ none ↦ false | some t ↦ true ]

unfoldable pub is_expired : ℕ → ℕ → Entry → Bool
is_expired ttl now entry = elim entry.completed_at [ none ↦ false | some t ↦ ltb (t + ttl) now ]

-- An age of 0 is no limit.
unfoldable pub is_abandoned : ℕ → ℕ → Entry → Bool
is_abandoned age now entry =
    ltb 0 age && not (is_complete entry) && ltb (entry.created_at + age) now

unfoldable pub keys_where : (Entry → Bool) → Dict String Entry → List String
keys_where test [] = []
keys_where test ((k, entry) ∷ d) =
    let rest = keys_where test d in if test entry then k ∷ rest else rest

-- `entry.completed_at or entry.created_at`, of the completed entries
unfoldable pub completed : Dict String Entry → List (ℕ × String)
completed [] = []
completed ((k, entry) ∷ d) =
    let rest = completed d in
    elim entry.completed_at [
      | none ↦ rest
      | some t ↦ ((if t == 0 then entry.created_at else t), k) ∷ rest
    ]

-- A sort by the first part that keeps the order of equal ones.
unfoldable pub insert_by_time : ℕ × String → List (ℕ × String) → List (ℕ × String)
insert_by_time x [] = x ∷ []
insert_by_time (t, k) ((u, j) ∷ rest) =
    let later = insert_by_time (t, k) rest in
    if leb t u then (t, k) ∷ (u, j) ∷ rest else (u, j) ∷ later

unfoldable pub sort_by_time : List (ℕ × String) → List (ℕ × String)
unfolding insert_by_time
sort_by_time [] = []
sort_by_time (x ∷ xs) = insert_by_time x (sort_by_time xs)

module _ {V E : Type 0} where
  unfoldable pub is_done : ℕ → Invocations V E → Bool
  is_done f s = elim (get f s.settled) [ none ↦ false | some o ↦ true ]

  -- `if not future.done()`, then `set_result` or `set_exception`
  unfoldable pub settle : ℕ → Settled V E → Invocations V E → Invocations V E
  unfolding is_done
  settle f o s = if is_done f s then s else record s { settled = put f o s.settled }

  unfoldable pub invalidate : String → Invocations V E → Invocations V E
  invalidate k s = record s { entries = pop k s.entries }

  unfoldable pub clear : Invocations V E → Invocations V E
  clear s = record s { entries = [] }

  unfoldable pub abandon_one : String → Invocations V E → Invocations V E
  unfolding settle invalidate
  abandon_one k s = elim (get k s.entries) [
    | none ↦ s
    | some entry ↦ settle entry.future was_abandoned (invalidate k s)
  ]

  unfoldable pub abandon : List String → Invocations V E → Invocations V E
  unfolding abandon_one
  abandon [] s = s
  abandon (k ∷ ks) s = abandon ks (abandon_one k s)

  unfoldable pub drop_all : List String → Invocations V E → Invocations V E
  unfolding invalidate
  drop_all [] s = s
  drop_all (k ∷ ks) s = drop_all ks (invalidate k s)

  -- Completed entries make room, those that were completed first before the others.
  unfoldable pub make_room : ℕ → List (ℕ × String) → Invocations V E → Invocations V E
  unfolding invalidate
  make_room limit [] s = s
  make_room limit ((t, k) ∷ rest) s =
      let s' = make_room limit rest (invalidate k s) in
      if leb limit (length s.entries) then s' else s

  -- What is too old is dropped first: entries in flight, then completed ones.
  unfoldable pub drop_old : ℕ → ℕ → ℕ → Invocations V E → Invocations V E
  unfolding keys_where is_expired is_abandoned abandon drop_all
  drop_old ttl age now s =
      let expired = keys_where (is_expired ttl now) s.entries in
      let abandoned = keys_where (is_abandoned age now) s.entries in
      drop_all expired (abandon abandoned s)

  unfoldable pub make_room_for : ℕ → Invocations V E → Invocations V E
  unfolding completed sort_by_time make_room
  make_room_for limit s = make_room limit (sort_by_time (completed s.entries)) s

  abbrev pub add_entry : String → ℕ → Invocations V E → Invocations V E
  add_entry k now s = record s {
    entries =
        put k (record { future = s.next_future; created_at = now; completed_at = none }) s.entries;
    next_future = suc s.next_future;
  }

  -- No claim is the error of too many invocations.
  unfoldable pub claim : String → Settings → ℕ → Invocations V E → Invocations V E × Option Claim
  unfolding drop_old make_room_for
  claim k c now s =
      let limit = max 1 c.max_entries in
      let s1 = drop_old (max 1 c.ttl_seconds) c.inflight_max_age_seconds now s in
      let s2 = make_room_for limit s1 in
      elim (get k s1.entries) [
        | some entry ↦ (s1, some (record { key = k; owner = false; future = entry.future }))
        | none ↦ if leb limit (length s2.entries) then (s2, none) else (
          add_entry k now s2,
          some (record { key = k; owner = true; future = s2.next_future }),
        )
      ]

  unfoldable pub resolve : Claim → V → ℕ → Invocations V E → Invocations V E
  unfolding settle
  resolve c value now s = elim (get c.key s.entries) [
    | none ↦ s
    | some entry ↦
        if not (entry.future == c.future)
        then s
        else settle c.future (result value)
            (record s { entries = put c.key (record entry { completed_at = some now }) s.entries })
  ]

  unfoldable pub reject : (E → Bool) → Claim → E → Invocations V E → Invocations V E
  unfolding settle invalidate
  reject is_cancelled c exc s =
      let outcome = if is_cancelled exc then was_cancelled else raised exc in
      elim (get c.key s.entries) [
        | none ↦ settle c.future outcome s
        | some entry ↦
            settle c.future outcome (if entry.future == c.future then invalidate c.key s else s)
      ]
