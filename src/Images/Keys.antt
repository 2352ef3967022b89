-- ===== src/Images/Keys.antt =====
-- What is known of the entries under the keys that a pass over the entries lists.
use llm_aio_gateway.Prelude.{
  ℕ, ◌≡◌, refl, ap, subst, ◌∙◌, ◌⊎◌, String, Bool, true, false, ◌||◌, some, List, [], ◌∷◌, ◌==◌,
  all, beq_self, nat_eq, string_eq, arith, inl, inr, Bool-cases, Option-cases,
}
use llm_aio_gateway.Dict.{
  Dict, get, put, pop, keys, contains, get-put, get-pop, get_of_absent, AreDistinct,
}
use llm_aio_gateway.Images.Defs.{
  Entry, is_complete, is_expired, keys_where, completed, insert_by_time, sort_by_time,
}

pub get_of_pop :
    (k j : String) (d : Dict String Entry) (entry : Entry)
    → get j (pop k d) ≡ some entry
    → ((k == j) ≡ false) × (get j d ≡ some entry)
get_of_pop k j d entry found = elim (Bool-cases (k == j)) [
  | inl same ↦ absurd (ground (arith, found, same, get-pop k j d))
  | inr other ↦ (other, ground (arith, found, other, get-pop k j d))
]

pub get_of_pop_at :
    (k j : String) (d : Dict String Entry) (entry : Entry)
    → (k == j) ≡ false
    → get j d ≡ some entry
    → get j (pop k d) ≡ some entry
get_of_pop_at k j d entry other found = rw (get-pop, other) found

pub get_of_put :
    (k j : String) (new entry : Entry) (d : Dict String Entry)
    → get j (put k new d) ≡ some entry
    → (((k == j) ≡ true) × (entry ≡ new)) ⊎ (((k == j) ≡ false) × (get j d ≡ some entry))
get_of_put k j new entry d found = elim (Bool-cases (k == j)) [
  | inl same ↦ inl (same, ground (arith, found, same, get-put k j new d))
  | inr other ↦ inr (other, ground (arith, found, other, get-put k j new d))
]

keys_where_absent :
    (test : Entry → Bool) (d : Dict String Entry) (k : String)
    → contains k (keys d) ≡ false
    → contains k (keys_where test d) ≡ false
unfolding keys_where contains keys
keys_where_absent test [] k absent = refl
keys_where_absent test ((j, e) ∷ d) k absent = ground (arith, keys_where_absent test d k)

-- A key is listed exactly if its entry passes the test.
pub keys_where_lem :
    (test : Entry → Bool) (d : Dict String Entry) (k : String) (entry : Entry)
    → AreDistinct (keys d)
    → get k d ≡ some entry
    → contains k (keys_where test d) ≡ test entry
unfolding keys_where contains get keys
keys_where_lem test [] k entry apart found = cc
keys_where_lem test ((j, e) ∷ d) k entry (new, apart) found = elim (Bool-cases (j == k)) [
  | inl same ↦
      let absent : contains k (keys_where test d) ≡ false =
        keys_where_absent test d k
          (subst (λ i. contains i (keys d) ≡ false) ((string_eq.beq_iff j k).0 same) new) in
      ground (arith, same, found, absent)
  | inr other ↦
      ground (arith, other, keys_where_lem test d k entry apart (ground (arith, found, other)))
]

-- A test that every entry passes which a key has.
pub all_of_get :
    (test : Entry → Bool) (d : Dict String Entry)
    → AreDistinct (keys d)
    → ((k : String) (entry : Entry) → get k d ≡ some entry → test entry ≡ true)
    → all (λ (x : String × Entry). test x.1) d ≡ true
unfolding get keys contains
all_of_get test [] apart passes = refl
all_of_get test ((j, e) ∷ d) (new, apart) passes =
    let first : test e ≡ true = passes j e (ground (arith, beq_self j)) in
    ground (
      arith,
      first,
      all_of_get test d apart (λ k entry found. passes k entry (elim (Bool-cases (j == k)) [
        | inr other ↦ ground (arith, other, found)
        | inl same ↦ absurd (
            ground (
              arith,
              found,
              get_of_absent k d
                  (subst (λ i. contains i (keys d) ≡ false) ((string_eq.beq_iff j k).0 same) new),
            ))
      ])),
    )

unfoldable pub is_listed : String → List (ℕ × String) → Bool
is_listed k [] = false
is_listed k ((t, j) ∷ rest) = j == k || is_listed k rest

is_listed-insert :
    (k j : String) (t : ℕ) (xs : List (ℕ × String))
    → is_listed k (insert_by_time (t, j) xs) ≡ (j == k || is_listed k xs)
unfolding is_listed insert_by_time
is_listed-insert k j t [] = refl
is_listed-insert k j t ((u, i) ∷ rest) = ground (arith, is_listed-insert k j t rest)

pub is_listed-sort :
    (k : String) (xs : List (ℕ × String)) → is_listed k (sort_by_time xs) ≡ is_listed k xs
unfolding is_listed sort_by_time
is_listed-sort k [] = refl
is_listed-sort k ((t, j) ∷ xs) =
    is_listed-insert k j t (sort_by_time xs) ∙ ap (λ b. j == k || b) (is_listed-sort k xs)

completed_absent :
    (d : Dict String Entry) (k : String)
    → contains k (keys d) ≡ false
    → is_listed k (completed d) ≡ false
unfolding completed is_listed contains keys
completed_absent [] k absent = refl
completed_absent ((j, e) ∷ d) k absent = ground (arith, completed_absent d k)

-- A key is listed exactly if its entry is complete.
pub completed_lem :
    (d : Dict String Entry) (k : String) (entry : Entry)
    → AreDistinct (keys d)
    → get k d ≡ some entry
    → is_listed k (completed d) ≡ is_complete entry
unfolding completed is_listed get keys
completed_lem [] k entry apart found = cc
completed_lem ((j, e) ∷ d) k entry (new, apart) found = elim (Bool-cases (j == k)) [
  | inl same ↦
      let absent : is_listed k (completed d) ≡ false =
        completed_absent d k
          (subst (λ i. contains i (keys d) ≡ false) ((string_eq.beq_iff j k).0 same) new) in
      let here : e ≡ entry = ground (arith, same, found) in
      subst (λ x. is_listed k (completed ((j, e) ∷ d)) ≡ is_complete x) here
        (elim (Option-cases e.completed_at) [
          | inl flying ↦ rw flying absent
          | inr (t, done) ↦ rw (done, same) refl
        ])
  | inr other ↦
      let rest = completed_lem d k entry apart (ground (arith, found, other)) in
      elim (Option-cases e.completed_at) [
        | inl flying ↦ rw flying rest
        | inr (t, done) ↦ rw (done, other) rest
      ]
]

pub expired_complete :
    (ttl now : ℕ) (entry : Entry) → is_expired ttl now entry ≡ true → is_complete entry ≡ true
unfolding is_expired
expired_complete ttl now entry old = elim (Option-cases entry.completed_at) [
  | inl flying ↦ absurd (ground (arith, old, flying))
  | inr (t, done) ↦ rw done refl
]
