-- ===== src/Cache/Shape.antt =====
-- The two dicts of a `TTLDict` hold the same keys, and no operation makes more than `max_size` of
-- them.
use llm_aio_gateway.Prelude.{
  ℕ, ◌≤◌, ◌<◌, String, ◌≡◌, refl, sym, ap, ◌∙◌, true, false, none, some, List, [], ◌∷◌, string_eq,
  nat_eq, leb, length, arith, Bool-cases, inl, inr, beq_self,
}
use llm_aio_gateway.Dict.{
  Dict, put, keys, contains, drop_key, add_key, keys-put, keys-pop, length-drop_key,
  length-drop_key_lt, length-add_key, length-keys, add_key_present,
}
use llm_aio_gateway.Cache.Defs.{
  TtlDict, new, drop_locked, expired_keys, drop_all, evict_expired, oldest_from, oldest,
  drop_oldest, make_room,
}

module _ {ℓ} {V : Type ℓ} where
  abbrev pub size : TtlDict V → ℕ
  size d = length (keys d.entries)

  abbrev pub SameKeys : TtlDict V → Type 0
  SameKeys d = keys d.entries ≡ keys d.stamps

  pub record IsWellFormed (d : TtlDict V) : Type 0 where
    pub same_keys : SameKeys d
    pub fits : size d ≤ d.max_size
    pub has_room : 0 < d.max_size

  -- What the operations that only drop entries do.
  pub record Shrinks (d d' : TtlDict V) : Type 0 where
    pub same_keys : SameKeys d'
    pub size_le : size d' ≤ size d
    pub same_max : d'.max_size ≡ d.max_size
    pub same_ttl : d'.ttl ≡ d.ttl

  pub Shrinks-refl : (d : TtlDict V) → SameKeys d → Shrinks d d
  Shrinks-refl d h = record {
    same_keys = h;
    size_le = omega arith;
    same_max = refl;
    same_ttl = refl;
  }

  pub Shrinks-trans : {d e f : TtlDict V} → Shrinks d e → Shrinks e f → Shrinks d f
  Shrinks-trans s t = record {
    same_keys = t.same_keys;
    size_le = omega arith;
    same_max = t.same_max ∙ s.same_max;
    same_ttl = t.same_ttl ∙ s.same_ttl;
  }

  pub Shrinks-IsWellFormed : {d e : TtlDict V} → Shrinks d e → IsWellFormed d → IsWellFormed e
  Shrinks-IsWellFormed s w = record {
    same_keys = s.same_keys;
    fits = omega arith;
    has_room = omega arith;
  }

  pub drop_locked-Shrinks : (k : String) (d : TtlDict V) → SameKeys d → Shrinks d (drop_locked k d)
  unfolding drop_locked
  drop_locked-Shrinks k d h = record {
    same_keys = keys-pop k d.entries ∙ ap (drop_key k) h ∙ sym (keys-pop k d.stamps);
    size_le = rw keys-pop (length-drop_key k (keys d.entries));
    same_max = refl;
    same_ttl = refl;
  }

  pub drop_all-Shrinks : (ks : List String) (d : TtlDict V) → SameKeys d → Shrinks d (drop_all ks d)
  unfolding drop_all
  drop_all-Shrinks [] d h = Shrinks-refl d h
  drop_all-Shrinks (k ∷ ks) d h =
      let s = drop_locked-Shrinks k d h in
      Shrinks-trans s (drop_all-Shrinks ks (drop_locked k d) s.same_keys)

  pub evict_expired-Shrinks :
      (now : ℕ) (d : TtlDict V) → SameKeys d → Shrinks d (evict_expired now d)
  unfolding evict_expired
  evict_expired-Shrinks now d h = drop_all-Shrinks (expired_keys now d.ttl d.stamps) d h

-- The least stamp belongs to a key that is there.
pub oldest_from-contains :
    (k : String) (t : ℕ) (d : Dict String ℕ) → contains (oldest_from k t d) (k ∷ keys d) ≡ true
unfolding oldest_from contains keys
oldest_from-contains k t [] = rw (beq_self k)
oldest_from-contains k t ((j, u) ∷ d) =
    ground (arith, oldest_from-contains k t d, oldest_from-contains j u d)

module _ {ℓ} {V : Type ℓ} where
  pub drop_oldest-Shrinks : (d : TtlDict V) → SameKeys d → Shrinks d (drop_oldest d)
  unfolding drop_oldest
  drop_oldest-Shrinks d h =
      elim (oldest d.stamps) as (λ o. Shrinks d (elim o [ none ↦ d | some k ↦ drop_locked k d ])) [
        | none ↦ Shrinks-refl d h
        | some k ↦ drop_locked-Shrinks k d h
      ]

  drop_locked_lt :
      (k : String) (d : TtlDict V)
      → contains k (keys d.entries) ≡ true
      → size (drop_locked k d) < size d
  unfolding drop_locked
  drop_locked_lt k d h = rw keys-pop (length-drop_key_lt k (keys d.entries) h)

  drop_first_lt :
      (d : TtlDict V) (st : Dict String ℕ)
      → keys d.entries ≡ keys st
      → 0 < size d
      → size (elim (oldest st) [ none ↦ d | some k ↦ drop_locked k d ]) < size d
  unfolding oldest keys
  drop_first_lt d [] h p = absurd (omega (arith, ap length h))
  drop_first_lt d ((k, t) ∷ st) h p =
      drop_locked_lt (oldest_from k t st) d (rw h (oldest_from-contains k t st))

  pub drop_oldest_lt : (d : TtlDict V) → SameKeys d → 0 < size d → size (drop_oldest d) < size d
  unfolding drop_oldest
  drop_oldest_lt d h p = drop_first_lt d d.stamps h p

  pub make_room-Shrinks : (now : ℕ) (d : TtlDict V) → SameKeys d → Shrinks d (make_room now d)
  unfolding make_room
  make_room-Shrinks now d h = elim (Bool-cases (leb d.max_size (length d.entries))) [
    | inr small ↦ rw small (Shrinks-refl d h)
    | inl full ↦
        let s = evict_expired-Shrinks now d h in
        let e = evict_expired now d in
        elim (Bool-cases (leb e.max_size (length e.entries))) [
          | inr fits ↦ rw (full, fits) s
          | inl over ↦ rw (full, over) (Shrinks-trans s (drop_oldest-Shrinks e s.same_keys))
        ]
  ]

  -- After `make_room` there is a free place.
  make_room-lt : (now : ℕ) (d : TtlDict V) → IsWellFormed d → size (make_room now d) < d.max_size
  unfolding make_room
  make_room-lt now d w =
      let s = evict_expired-Shrinks now d w.same_keys in
      let e = evict_expired now d in
      ground (
        arith,
        length-keys d.entries,
        length-keys e.entries,
        s.size_le,
        s.same_max,
        drop_oldest_lt e s.same_keys,
      )

  -- A key and its stamp are written together.
  abbrev pub stored : String → V → ℕ → TtlDict V → TtlDict V
  stored k v now d = record d { entries = put k v d.entries; stamps = put k now d.stamps }

  stored-SameKeys :
      (k : String) (v : V) (now : ℕ) (d : TtlDict V) → SameKeys d → SameKeys (stored k v now d)
  stored-SameKeys k v now d h =
      keys-put k v d.entries ∙ ap (add_key k) h ∙ sym (keys-put k now d.stamps)

  -- A write to a key that is there, and a write of a new key where a place is free.
  pub stored_present-IsWellFormed :
      (k : String) (v : V) (now : ℕ) (d : TtlDict V)
      → IsWellFormed d
      → contains k (keys d.entries) ≡ true
      → IsWellFormed (stored k v now d)
  stored_present-IsWellFormed k v now d w h = record {
    same_keys = stored-SameKeys k v now d w.same_keys;
    fits = rw (keys-put, add_key_present, h) w.fits;
    has_room = w.has_room;
  }

  pub stored_new-IsWellFormed :
      (evict_at now : ℕ) (k : String) (v : V) (d : TtlDict V)
      → IsWellFormed d
      → IsWellFormed (stored k v now (make_room evict_at d))
  stored_new-IsWellFormed evict_at now k v d w =
      let s = make_room-Shrinks evict_at d w.same_keys in
      let e = make_room evict_at d in
      record {
        same_keys = stored-SameKeys k v now e s.same_keys;
        fits = rw keys-put (
            omega
              (arith, length-add_key k (keys e.entries), make_room-lt evict_at d w, s.same_max));
        has_room = omega (arith, s.same_max, w.has_room);
      }

  pub make_room_small :
      (now : ℕ) (d : TtlDict V) → leb d.max_size (length d.entries) ≡ false → make_room now d ≡ d
  unfolding make_room
  make_room_small now d h = rw h

  pub new-IsWellFormed : (ttl max_size : ℕ) → 0 < max_size → IsWellFormed (new {V = V} ttl max_size)
  unfolding new keys
  new-IsWellFormed ttl max_size h = record { same_keys = refl; fits = omega arith; has_room = h }
