-- ===== src/HttpPool/Leases.antt =====
-- Who holds which client: an abstract view of the pool, and what every step keeps of it.
use llm_aio_gateway.Prelude.{
  ℕ, ◌+◌, ◌<◌, ◌≡◌, sym, ap, ◌∙◌, Bool, true, false, ◌&&◌, ◌||◌, some, List, [], ◌∷◌, ◌==◌, nat_eq,
  EqTest, if◌then◌else◌, arith, Bool-cases, Option-cases, inl, inr, ◌⊎◌, ◌≢◌,
}
use mathlib.Core.Bool.{false≢true}
use llm_aio_gateway.Dict.{Dict, get, pop, contains, get-pop}
use llm_aio_gateway.HttpPool.Defs.{Entry, Pool, in_use_at, close_entry}

closed_other : (c d : ℕ) (cs : List ℕ) → c ≢ d → contains d cs ≡ false → contains d (c ∷ cs) ≡ false
unfolding contains
closed_other c d cs ne h = ground arith

closed_cons :
    (c d : ℕ) (cs : List ℕ) → contains d (c ∷ cs) ≡ true → (c ≡ d) ⊎ (contains d cs ≡ true)
unfolding contains
closed_cons c d cs h = ground arith

module _ {ℓ} {K : Type ℓ} ⦃e : EqTest K⦄ where
  -- A lease is a key with the client that `acquire` returned for it.
  unfoldable pub leased : K → List (K × ℕ) → ℕ
  leased k [] = 0
  leased k ((j, c) ∷ ls) = (if j == k then 1 else 0) + leased k ls

  unfoldable pub is_held : K → ℕ → List (K × ℕ) → Bool
  is_held k c [] = false
  is_held k c ((j, d) ∷ ls) = (j == k && d == c) || is_held k c ls

  -- The pool counts the leases, gives each its client, and has closed none of its own clients.
  pub record IsTracked (p : Pool K) (ls : List (K × ℕ)) : Type ℓ where
    pub counted : (k : K) → in_use_at k p.entries ≡ leased k ls
    pub clients :
        (k : K) (c : ℕ)
        → is_held k c ls ≡ true
        → (entry : Entry) × (get k p.entries ≡ some entry) × (entry.client ≡ c)
    pub open_clients :
        (k : K) (entry : Entry)
        → get k p.entries ≡ some entry
        → contains entry.client p.closed ≡ false
    pub known_open :
        (k : K) (entry : Entry) → get k p.entries ≡ some entry → entry.client < p.next_client
    pub known_closed : (c : ℕ) → contains c p.closed ≡ true → c < p.next_client
    pub apart :
        (j k : K) (a b : Entry)
        → get j p.entries ≡ some a
        → get k p.entries ≡ some b
        → a.client ≡ b.client
        → (j == k) ≡ true

  pub held-leased : (k : K) (c : ℕ) (ls : List (K × ℕ)) → is_held k c ls ≡ true → 0 < leased k ls
  unfolding is_held leased
  held-leased k c [] h = cc
  held-leased k c ((j, d) ∷ ls) h = ground (arith, held-leased k c ls)

  module _ (k : K) (p : Pool K) (ls : List (K × ℕ)) (idle : in_use_at k p.entries ≡ 0)
      (t : IsTracked p ls) where
    other_of_held : (j : K) (c : ℕ) → is_held j c ls ≡ true → (k == j) ≡ false
    other_of_held j c h = elim (Bool-cases (k == j)) [
      | inr other ↦ other
      | inl same ↦
          let eq : k ≡ j = (e.beq_iff k j).0 same in
          absurd (
            omega (
              arith,
              held-leased j c ls h,
              sym (t.counted j) ∙ ap (λ i. in_use_at i p.entries) (sym eq) ∙ idle,
            ))
    ]

  get-close_entry :
      (k j : K) (a : Entry) (d : Dict K Entry)
      → get j (pop k d) ≡ some a
      → ((k == j) ≡ false) × (get j d ≡ some a)
  get-close_entry k j a d h = elim (Bool-cases (k == j)) [
    | inl same ↦ absurd (ground (arith, h, same, get-pop k j d))
    | inr other ↦ (other, ground (arith, h, other, get-pop k j d))
  ]

  in_use_at-pop_if :
      (k j : K) (d : Dict K Entry) → in_use_at j (pop k d) ≡ (if k == j then 0 else in_use_at j d)
  unfolding in_use_at
  in_use_at-pop_if k j d = ground (arith, get-pop k j d)

  in_use_at-pop :
      (k : K) (p : Pool K) (ls : List (K × ℕ))
      → in_use_at k p.entries ≡ 0
      → IsTracked p ls
      → (j : K) → in_use_at j (pop k p.entries) ≡ leased j ls
  in_use_at-pop k p ls idle t j = elim (Bool-cases (k == j)) [
    | inl same ↦
        let eq : k ≡ j = (e.beq_iff k j).0 same in
        rw (in_use_at-pop_if, same) (sym idle ∙ t.counted k ∙ ap (λ i. leased i ls) eq)
    | inr other ↦ rw (in_use_at-pop_if, other) (t.counted j)
  ]

  -- Closing an entry that nobody uses keeps the leases.
  pub close_entry-IsTracked :
      (k : K) (p : Pool K) (ls : List (K × ℕ))
      → in_use_at k p.entries ≡ 0
      → IsTracked p ls
      → IsTracked (close_entry k p) ls
  unfolding close_entry
  close_entry-IsTracked k p ls idle t = elim (Option-cases (get k p.entries)) [
    | inl missing ↦ rw (missing, close_entry) t
    | inr (entry, found) ↦
        rw (found, close_entry)
          (record {
            counted = λ j. in_use_at-pop k p ls idle t j;
            clients = λ j c h.
                let (a, there, same) = t.clients j c h in
                (a, rw (get-pop, other_of_held k p ls idle t j c h) there, same);
            open_clients = λ j a h.
                let (other, there) = get-close_entry k j a p.entries h in
                closed_other entry.client a.client p.closed
                  (λ same. false≢true (sym other ∙ t.apart k j entry a found there same))
                  (t.open_clients j a there);
            known_open = λ j a h.
                let (other, there) = get-close_entry k j a p.entries h in t.known_open j a there;
            known_closed = λ c h. elim (closed_cons entry.client c p.closed h) [
              | inl same ↦ omega (arith, t.known_open k entry found, same)
              | inr old ↦ t.known_closed c old
            ];
            apart = λ i j a b h g same.
                let (_, at_i) = get-close_entry k i a p.entries h in
                let (_, at_j) = get-close_entry k j b p.entries g in t.apart i j a b at_i at_j same;
          })
  ]
