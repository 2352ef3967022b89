-- ===== src/Images/Room.antt =====
-- How many entries there are: completed ones make room, and those in flight are never dropped for it.
use llm_aio_gateway.Prelude.{
  ℕ, ◌+◌, ◌≤◌, ◌≡◌, refl, sym, ◌∙◌, inl, inr, String, true, false, some, List, [], ◌∷◌, nat_eq,
  string_eq, beq_self, leb, length, arith, Bool-cases, Option-cases,
}
use llm_aio_gateway.Dict.{
  Dict, get, put, pop, keys, keys-pop, keys-put, length-keys, length-drop_key, length-add_key,
}
use llm_aio_gateway.Images.Defs.{
  Entry, Invocations, is_complete, completed, sort_by_time, invalidate, abandon_one, abandon,
  drop_all, make_room, drop_old, make_room_for,
}
use llm_aio_gateway.Images.Keys.{get_of_pop, is_listed, is_listed-sort, completed_lem}
use llm_aio_gateway.Images.Dropping.{
  IsTracked, drop_complete-IsTracked, settle_entries, abandon_one_missing, abandon_one_present,
}

length-pop : (k : String) (d : Dict String Entry) → length (pop k d) ≤ length d
length-pop k d = rw (length-keys (pop k d), length-keys d, keys-pop) (length-drop_key k (keys d))

pub length-put :
    (k : String) (e : Entry) (d : Dict String Entry) → length (put k e d) ≤ length d + 1
length-put k e d = rw (length-keys (put k e d), length-keys d, keys-put) (length-add_key k (keys d))

module _ {V E : Type 0} where
  pub make_room-IsTracked :
      (limit : ℕ) (xs : List (ℕ × String)) (s : Invocations V E) (cs : List (String × ℕ))
      → ((k : String) (entry : Entry)
          → is_listed k xs ≡ true
          → get k s.entries ≡ some entry
          → is_complete entry ≡ true)
      → IsTracked s cs
      → IsTracked (make_room limit xs s) cs
  unfolding make_room is_listed invalidate
  make_room-IsTracked limit [] s cs whole t = t
  make_room-IsTracked limit ((u, k) ∷ rest) s cs whole t =
      elim (Bool-cases (leb limit (length s.entries))) [
        | inr fits ↦ rw fits t
        | inl full ↦ rw full (
            make_room-IsTracked limit rest (invalidate k s) cs
              (λ j entry listed found.
                whole j entry (ground (arith, listed)) (get_of_pop k j s.entries entry found).1)
              (drop_complete-IsTracked k s cs
                (λ entry found. whole k entry (ground (arith, beq_self k)) found) t))
      ]

  pub make_room_for-IsTracked :
      (limit : ℕ) (s : Invocations V E) (cs : List (String × ℕ))
      → IsTracked s cs
      → IsTracked (make_room_for limit s) cs
  unfolding make_room_for
  make_room_for-IsTracked limit s cs t =
      make_room-IsTracked limit (sort_by_time (completed s.entries)) s cs
        (λ k entry listed found.
          sym (completed_lem s.entries k entry t.distinct found)
          ∙ sym (is_listed-sort k (completed s.entries))
          ∙ listed)
        t

  -- There is room, or nothing that is listed is left.
  pub make_room_left :
      (limit : ℕ) (xs : List (ℕ × String)) (s : Invocations V E) (j : String) (entry : Entry)
      → limit ≤ length (make_room limit xs s).entries
      → get j (make_room limit xs s).entries ≡ some entry
      → (get j s.entries ≡ some entry) × (is_listed j xs ≡ false)
  unfolding make_room is_listed invalidate
  make_room_left limit [] s j entry full found = (found, refl)
  make_room_left limit ((u, k) ∷ rest) s j entry full found =
      elim (Bool-cases (leb limit (length s.entries))) [
        | inr fits ↦ absurd (ground (arith, full, fits))
        | inl over ↦
            let (old, unlisted) =
              make_room_left limit rest (invalidate k s) j entry (ground (arith, full, over))
                (ground (arith, found, over)) in
            let (other, there) = get_of_pop k j s.entries entry old in
            (there, ground (arith, other, unlisted))
      ]

  length-abandon_one :
      (k : String) (s : Invocations V E) → length (abandon_one k s).entries ≤ length s.entries
  unfolding invalidate
  length-abandon_one k s = elim (Option-cases (get k s.entries)) [
    | inl missing ↦ rw (abandon_one_missing k s missing) (omega arith)
    | inr (e, here) ↦ rw (abandon_one_present k s e here, settle_entries) (length-pop k s.entries)
  ]

  length-abandon :
      (ks : List String) (s : Invocations V E) → length (abandon ks s).entries ≤ length s.entries
  unfolding abandon
  length-abandon [] s = omega arith
  length-abandon (k ∷ ks) s =
      omega (arith, length-abandon ks (abandon_one k s), length-abandon_one k s)

  length-drop_all :
      (ks : List String) (s : Invocations V E) → length (drop_all ks s).entries ≤ length s.entries
  unfolding drop_all invalidate
  length-drop_all [] s = omega arith
  length-drop_all (k ∷ ks) s =
      omega (arith, length-drop_all ks (invalidate k s), length-pop k s.entries)

  pub length-drop_old :
      (ttl age now : ℕ) (s : Invocations V E)
      → length (drop_old ttl age now s).entries ≤ length s.entries
  unfolding drop_old
  length-drop_old ttl age now s = omega (arith, length-drop_all _ (abandon _ s), length-abandon _ s)

  pub length-make_room :
      (limit : ℕ) (xs : List (ℕ × String)) (s : Invocations V E)
      → length (make_room limit xs s).entries ≤ length s.entries
  unfolding make_room invalidate
  length-make_room limit [] s = omega arith
  length-make_room limit ((u, k) ∷ rest) s =
      ground (arith, length-make_room limit rest (invalidate k s), length-pop k s.entries)

  pub get-make_room :
      (limit : ℕ) (xs : List (ℕ × String)) (s : Invocations V E) (j : String) (entry : Entry)
      → get j (make_room limit xs s).entries ≡ some entry
      → get j s.entries ≡ some entry
  unfolding make_room invalidate
  get-make_room limit [] s j entry found = found
  get-make_room limit ((u, k) ∷ rest) s j entry found =
      elim (Bool-cases (leb limit (length s.entries))) [
        | inr fits ↦ ground (arith, found, fits)
        | inl full ↦
            (get_of_pop k j s.entries entry
              (get-make_room limit rest (invalidate k s) j entry (ground (arith, found, full)))).1
      ]
