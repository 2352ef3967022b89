-- ===== src/Cache/Capacity.antt =====
-- Which entry a write of a new key to a full cache drops.
use llm_aio_gateway.Prelude.{
  ℕ, ◌≤◌, ◌<◌, String, ◌≡◌, refl, sym, ap, subst, true, false, none, some, [], ◌∷◌, ◌==◌, string_eq,
  nat_eq, if◌then◌else◌, ltb, leb, length, arith, beq_self,
}
use llm_aio_gateway.Dict.{
  Dict, get, keys, contains, get_or, get-put, get-pop, AreDistinct, contains_of_get, length-keys,
}
use llm_aio_gateway.Cache.Defs.{
  TtlDict, drop_locked, expired_keys, drop_all, evict_expired, oldest_from, oldest, drop_oldest,
  make_room, set_item,
}
use llm_aio_gateway.Cache.Shape.{SameKeys, oldest_from-contains}

least_from : ℕ → Dict String ℕ → ℕ
least_from t [] = t
least_from t ((j, u) ∷ d) = least_from (if ltb u t then u else t) d

least_from-le : (t : ℕ) (d : Dict String ℕ) → least_from t d ≤ t
unfolding least_from
least_from-le t [] = omega arith
least_from-le t ((j, u) ∷ d) = ground (arith, least_from-le u d, least_from-le t d)

least_from-le_get :
    (t : ℕ) (d : Dict String ℕ) (j : String) (u : ℕ) → get j d ≡ some u → least_from t d ≤ u
unfolding least_from get
least_from-le_get t [] j u h = cc
least_from-le_get t ((i, w) ∷ d) j u h = ground (
  arith,
  least_from-le w d,
  least_from-le t d,
  least_from-le_get w d j u,
  least_from-le_get t d j u,
)

-- The stamp of the chosen key is the least one.
get-oldest_from :
    (k : String) (t : ℕ) (d : Dict String ℕ)
    → AreDistinct (k ∷ keys d)
    → get (oldest_from k t d) ((k, t) ∷ d) ≡ some (least_from t d)
unfolding oldest_from least_from get keys contains
get-oldest_from k t [] h = rw (beq_self k)
get-oldest_from k t ((j, u) ∷ d) (new, h) = ground (
  arith,
  get-oldest_from k t d,
  get-oldest_from j u d,
  oldest_from-contains j u d,
  contains_of_get (oldest_from k t d) (least_from t d) d,
  string_eq.beq_iff k (oldest_from j u d),
  string_eq.beq_iff j (oldest_from k t d),
  string_eq.beq_iff k (oldest_from k t d),
  h,
)

record IsOldest (w : String) (st : Dict String ℕ) : Type 0 where
  chosen : oldest st ≡ some w
  listed : contains w (keys st) ≡ true
  least : (j : String) (u : ℕ) → get j st ≡ some u → get_or 0 (get w st) ≤ u

oldest_lem :
    (st : Dict String ℕ)
    → 0 < length (keys st)
    → AreDistinct (keys st)
    → (w : String) × IsOldest w st
unfolding oldest keys
oldest_lem [] p h = absurd (omega arith)
oldest_lem ((k, t) ∷ st) p h = (
  oldest_from k t st,
  record {
    chosen = refl;
    listed = oldest_from-contains k t st;
    least = λ j u found.
        rw (get-oldest_from k t st h)
          (unfold get in ground (arith, least_from-le_get t st j u, least_from-le t st));
  },
)

-- The write to a full cache, when its oldest key is known.
get-set_item_full {ℓ} :
    {V : Type ℓ} (evict_at now : ℕ) (k w j : String) (v : V) (d : TtlDict V)
    → leb d.max_size (length d.entries) ≡ true
    → contains k (keys d.entries) ≡ false
    → expired_keys evict_at d.ttl d.stamps ≡ []
    → oldest d.stamps ≡ some w
    → get j (set_item evict_at now k v d).entries
      ≡ (if k == j then some v else if w == j then none else get j d.entries)
unfolding set_item make_room evict_expired drop_all drop_oldest drop_locked
get-set_item_full evict_at now k w j v d full new live chosen =
    simp (full, new, live, get-put, drop_all) (simp (chosen, drop_oldest, get-pop))

-- A write of a new key to a full cache of which nothing has expired drops one entry, whose stamp
-- is at most every other one's; it stores the new value and leaves all other entries alone. The
-- two dicts of the cache have the same, distinct keys.
pub set_item_full {ℓ} :
    {V : Type ℓ} (evict_at now : ℕ) (k : String) (v : V) (d : TtlDict V)
    → SameKeys d
    → AreDistinct (keys d.stamps)
    → 0 < d.max_size
    → length d.entries ≡ d.max_size
    → contains k (keys d.entries) ≡ false
    → expired_keys evict_at d.ttl d.stamps ≡ []
    → (victim : String) × (contains victim (keys d.entries) ≡ true)
      × ((j : String)
          → get j (set_item evict_at now k v d).entries
            ≡ (if k == j then some v else if victim == j then none else get j d.entries))
      × ((j : String) (u : ℕ) → get j d.stamps ≡ some u → get_or 0 (get victim d.stamps) ≤ u)
set_item_full evict_at now k v d same distinct p full new live =
    let some_key : 0 < length (keys d.stamps) =
      omega (arith, length-keys d.entries, ap length same) in
    let (w, o) = oldest_lem d.stamps some_key distinct in
    let at_limit : leb d.max_size (length d.entries) ≡ true = ground arith in
    (
      w,
      subst (λ ks. contains w ks ≡ true) (sym same) o.listed,
      λ j. get-set_item_full evict_at now k w j v d at_limit new live o.chosen,
      o.least,
    )
