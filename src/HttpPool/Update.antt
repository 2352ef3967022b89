-- ===== src/HttpPool/Update.antt =====
-- A write of one entry of the pool, and the leases before and after it.
use mathlib.Core.Bool.{false≢true}
use llm_aio_gateway.Prelude.{
  ℕ, ◌≤◌, ◌<◌, ◌≡◌, sym, ap, subst, ◌∙◌, true, false, some, List, ◌==◌, nat_eq, EqTest,
  if◌then◌else◌, arith, Bool-cases, inl, inr, ◌⊎◌,
}
use llm_aio_gateway.Dict.{get, contains}
use llm_aio_gateway.HttpPool.Defs.{Entry, Pool, in_use_at}
use llm_aio_gateway.HttpPool.Leases.{leased, is_held, IsTracked}

module _ {ℓ} {K : Type ℓ} ⦃e : EqTest K⦄ where
  both_keys : (k i j : K) → (k == i) ≡ true → (k == j) ≡ true → (i == j) ≡ true
  both_keys k i j p q = (e.beq_iff i j).1 (sym ((e.beq_iff k i).0 p) ∙ (e.beq_iff k j).0 q)

  -- A write of one entry, with the leases before and after: what is needed to go on.
  pub record IsUpdate (k : K) (entry : Entry) (p q : Pool K) (ls ms : List (K × ℕ)) : Type ℓ where
    pub at_key : (j : K) → get j q.entries ≡ (if k == j then some entry else get j p.entries)
    pub same_closed : q.closed ≡ p.closed
    pub used : entry.in_use ≡ leased k ms
    pub others : (j : K) → (k == j) ≡ false → leased j ls ≡ leased j ms
    pub held :
        (j : K) (c : ℕ)
        → is_held j c ms ≡ true
        → (((k == j) ≡ true) × (entry.client ≡ c)) ⊎ (((k == j) ≡ false) × (is_held j c ls ≡ true))
    pub origin :
        ((old : Entry) × (get k p.entries ≡ some old) × (old.client ≡ entry.client))
        ⊎ (entry.client ≡ p.next_client)
    pub grows : p.next_client ≤ q.next_client
    pub known : entry.client < q.next_client

  module _ (k : K) (entry : Entry) (p q : Pool K) (ls ms : List (K × ℕ))
      (u : IsUpdate k entry p q ls ms) (t : IsTracked p ls) where
    update_counted : (j : K) → in_use_at j q.entries ≡ leased j ms
    unfolding in_use_at
    update_counted j = elim (Bool-cases (k == j)) [
      | inl same ↦
          let eq : k ≡ j = (e.beq_iff k j).0 same in
          ground (arith, u.at_key j, same, u.used, ap (λ i. leased i ms) eq)
      | inr other ↦ ground (arith, u.at_key j, other, t.counted j, u.others j other)
    ]

    -- An entry of the new pool is the written one, or was there.
    update_entry :
        (j : K) (a : Entry)
        → get j q.entries ≡ some a
        → (((k == j) ≡ true) × (entry ≡ a)) ⊎ (((k == j) ≡ false) × (get j p.entries ≡ some a))
    update_entry j a h = elim (Bool-cases (k == j)) [
      | inl same ↦ inl (same, ground (arith, h, u.at_key j, same))
      | inr other ↦ inr (other, ground (arith, h, u.at_key j, other))
    ]

    update_client :
        (j : K) (c : ℕ)
        → is_held j c ms ≡ true
        → (a : Entry) × (get j q.entries ≡ some a) × (a.client ≡ c)
    update_client j c h = elim (u.held j c h) [
      | inl (same, client) ↦ (entry, ground (arith, u.at_key j, same), client)
      | inr (other, held) ↦
          let (a, there, client) = t.clients j c held in
          (a, ground (arith, u.at_key j, other, there), client)
    ]

    -- The client of the written entry was no other entry's, and is not closed.
    fresh_open : contains entry.client p.closed ≡ false
    fresh_open = elim u.origin [
      | inl (old, found, client) ↦
          subst (λ c. contains c p.closed ≡ false) client (t.open_clients k old found)
      | inr fresh ↦ elim (Bool-cases (contains entry.client p.closed)) [
        | inr still ↦ still
        | inl closed ↦ absurd (omega (arith, t.known_closed entry.client closed, fresh))
      ]
    ]

    fresh_apart :
        (j : K) (a : Entry) → get j p.entries ≡ some a → entry.client ≡ a.client → (k == j) ≡ true
    fresh_apart j a there same = elim u.origin [
      | inl (old, found, client) ↦ t.apart k j old a found there (client ∙ same)
      | inr fresh ↦ absurd (omega (arith, t.known_open j a there, fresh, same))
    ]

    pub update-IsTracked : IsTracked q ms
    update-IsTracked = record {
      counted = update_counted;
      clients = update_client;
      open_clients = λ j a h.
          subst (λ cs. contains a.client cs ≡ false) (sym u.same_closed)
            (elim (update_entry j a h) [
              | inl (_, same) ↦
                  subst (λ (b : Entry). contains b.client p.closed ≡ false) same fresh_open
              | inr (_, there) ↦ t.open_clients j a there
            ]);
      known_open = λ j a h. elim (update_entry j a h) [
        | inl (_, same) ↦ subst (λ (b : Entry). b.client < q.next_client) same u.known
        | inr (_, there) ↦ omega (arith, t.known_open j a there, u.grows)
      ];
      known_closed = λ c h.
          omega
            (arith, t.known_closed c (subst (λ cs. contains c cs ≡ true) u.same_closed h), u.grows);
      apart = λ i j a b h g same. elim (update_entry i a h) [
        | inl (here, eq) ↦ elim (update_entry j b g) [
          | inl (there, eq') ↦ both_keys k i j here there
          | inr (other, there) ↦ absurd (
              false≢true
                (sym other ∙ fresh_apart j b there (ap (λ (x : Entry). x.client) eq ∙ same)))
        ]
        | inr (other, there) ↦ elim (update_entry j b g) [
          | inl (here, eq') ↦ absurd (
              false≢true
                (sym other ∙ fresh_apart i a there (ap (λ (x : Entry). x.client) eq' ∙ sym same)))
          | inr (_, there') ↦ t.apart i j a b there there' same
        ]
      ];
    }
