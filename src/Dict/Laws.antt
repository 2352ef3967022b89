-- ===== src/Dict/Laws.antt =====
-- What the operations of a dict promise, for its values and for its keys.
use llm_aio_gateway.Prelude.{
  ◌≡◌, refl, ap, length-append, suc, ◌+◌, true, false, ◌||◌, none, some, List, [], ◌∷◌, ◌++◌,
  EqTest, ◌==◌, if◌then◌else◌, arith, ◌≤◌, ◌<◌, length, Bool-cases, inl, inr,
}
use llm_aio_gateway.Dict.Defs.{Dict, get, put, pop, keys, contains, add_key, drop_key}

module _ {ℓ} {K : Type ℓ} ⦃e : EqTest K⦄ where
  pub contains-append :
      (k : K) (ks ls : List K) → contains k (ks ++ ls) ≡ (contains k ks || contains k ls)
  unfolding contains
  contains-append k [] ls = refl
  contains-append k (j ∷ ks) ls = ground (arith, contains-append k ks ls)

  pub contains-drop_key :
      (k j : K) (ks : List K)
      → contains j (drop_key k ks) ≡ (if k == j then false else contains j ks)
  unfolding contains drop_key
  contains-drop_key k j [] = ground arith
  contains-drop_key k j (i ∷ ks) =
      ground (arith, contains-drop_key k j ks, e.beq_iff i k, e.beq_iff i j, e.beq_iff k j)

  pub contains-add_key :
      (k j : K) (ks : List K) → contains j (add_key k ks) ≡ (k == j || contains j ks)
  unfolding add_key contains
  contains-add_key k j ks = ground (arith, contains-append j ks (k ∷ []), e.beq_iff k j)

  pub length-drop_key : (k : K) (ks : List K) → length (drop_key k ks) ≤ length ks
  unfolding drop_key
  length-drop_key k [] = ground arith
  length-drop_key k (j ∷ ks) = ground (arith, length-drop_key k ks)

  pub length-drop_key_lt :
      (k : K) (ks : List K) → contains k ks ≡ true → length (drop_key k ks) < length ks
  unfolding drop_key contains
  length-drop_key_lt k [] h = ground arith
  length-drop_key_lt k (j ∷ ks) h = ground (arith, length-drop_key k ks, length-drop_key_lt k ks)

  pub drop_key_absent : (k : K) (ks : List K) → contains k ks ≡ false → drop_key k ks ≡ ks
  unfolding drop_key contains
  drop_key_absent k [] h = refl
  drop_key_absent k (j ∷ ks) h = ground (arith, drop_key_absent k ks)

module _ {ℓ κ} {K : Type ℓ} {V : Type κ} ⦃e : EqTest K⦄ where
  pub get-put :
      (k j : K) (v : V) (d : Dict K V) → get j (put k v d) ≡ (if k == j then some v else get j d)
  unfolding get put
  get-put k j v [] = ground arith
  get-put k j v ((i, w) ∷ d) =
      ground (arith, get-put k j v d, e.beq_iff i k, e.beq_iff i j, e.beq_iff k j)

  pub get-pop : (k j : K) (d : Dict K V) → get j (pop k d) ≡ (if k == j then none else get j d)
  unfolding get pop
  get-pop k j [] = ground arith
  get-pop k j ((i, w) ∷ d) =
      ground (arith, get-pop k j d, e.beq_iff i k, e.beq_iff i j, e.beq_iff k j)

  pub keys-put : (k : K) (v : V) (d : Dict K V) → keys (put k v d) ≡ add_key k (keys d)
  unfolding keys put add_key contains
  keys-put k v [] = refl
  keys-put k v ((i, w) ∷ d) = ground (arith, keys-put k v d)

  pub keys-pop : (k : K) (d : Dict K V) → keys (pop k d) ≡ drop_key k (keys d)
  unfolding keys pop drop_key
  keys-pop k [] = refl
  keys-pop k ((i, w) ∷ d) = ground (arith, keys-pop k d)

  pub get_of_absent : (k : K) (d : Dict K V) → contains k (keys d) ≡ false → get k d ≡ none
  unfolding get keys contains
  get_of_absent k [] h = refl
  get_of_absent k ((i, w) ∷ d) h = ground (arith, get_of_absent k d)

  pub get_of_present :
      (k : K) (d : Dict K V) → contains k (keys d) ≡ true → (v : V) × (get k d ≡ some v)
  unfolding get keys contains
  get_of_present k [] h = ground arith
  get_of_present k ((i, w) ∷ d) h = elim (Bool-cases (i == k)) [
    | inl same ↦ (w, rw same)
    | inr other ↦ rw other (get_of_present k d (ground arith))
  ]

  pub contains_of_get :
      (k : K) (v : V) (d : Dict K V) → get k d ≡ some v → contains k (keys d) ≡ true
  unfolding get keys contains
  contains_of_get k v [] h = ground arith
  contains_of_get k v ((i, w) ∷ d) h = ground (arith, contains_of_get k v d)

pub ruleset dict_laws = (get-put, get-pop, keys-put, keys-pop, contains-add_key, contains-drop_key)

module _ {ℓ} {K : Type ℓ} ⦃e : EqTest K⦄ where
  pub add_key_present : (k : K) (ks : List K) → contains k ks ≡ true → add_key k ks ≡ ks
  unfolding add_key
  add_key_present k ks h = rw h

  pub length-add_key : (k : K) (ks : List K) → length (add_key k ks) ≤ length ks + 1
  unfolding add_key
  length-add_key k ks = ground (arith, length-append ks (k ∷ []))

pub length-keys {ℓ κ} : {K : Type ℓ} {V : Type κ} (d : Dict K V) → length d ≡ length (keys d)
unfolding keys
length-keys [] = refl
length-keys ((k, v) ∷ d) = ap suc (length-keys d)

-- The keys of a dict are distinct, whatever is written or dropped.
module _ {ℓ} {K : Type ℓ} ⦃e : EqTest K⦄ where
  abbrev pub AreDistinct : List K → Type 0
  AreDistinct [] = Unit
  AreDistinct (k ∷ ks) = (contains k ks ≡ false) × AreDistinct ks

  pub AreDistinct-drop_key : (k : K) (ks : List K) → AreDistinct ks → AreDistinct (drop_key k ks)
  unfolding drop_key
  AreDistinct-drop_key k [] h = tt
  AreDistinct-drop_key k (j ∷ ks) h = elim (Bool-cases (j == k)) [
    | inl same ↦ rw same (AreDistinct-drop_key k ks h.1)
    | inr other ↦ rw other (ground (arith, contains-drop_key k j ks), AreDistinct-drop_key k ks h.1)
  ]

  AreDistinct-append :
      (k : K) (ks : List K) → AreDistinct ks → contains k ks ≡ false → AreDistinct (ks ++ k ∷ [])
  unfolding contains
  AreDistinct-append k [] h new = (refl, tt)
  AreDistinct-append k (j ∷ ks) h new = (
    ground (arith, contains-append j ks (k ∷ []), e.beq_iff j k, e.beq_iff k j),
    AreDistinct-append k ks h.1 (ground arith),
  )

  pub AreDistinct-add_key : (k : K) (ks : List K) → AreDistinct ks → AreDistinct (add_key k ks)
  unfolding add_key
  AreDistinct-add_key k ks h = elim (Bool-cases (contains k ks)) [
    | inl old ↦ rw old h
    | inr new ↦ rw new (AreDistinct-append k ks h new)
  ]
