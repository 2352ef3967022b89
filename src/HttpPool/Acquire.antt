-- ===== src/HttpPool/Acquire.antt =====
-- One client more is acquired, or one is given back: the write of the entry of its key.
use llm_aio_gateway.Prelude.{
  ℕ, suc, ◌+◌, ◌≡◌, refl, sym, ap, true, false, ◌&&◌, none, some, List, [], ◌∷◌, ◌==◌, nat_eq,
  EqTest, if◌then◌else◌, arith, Bool-cases, inl, inr, beq_self, ◌⊎◌,
}
use llm_aio_gateway.Dict.{Dict, get, put, get-put}
use llm_aio_gateway.HttpPool.Defs.{Entry, Pool, in_use_at}
use llm_aio_gateway.HttpPool.Leases.{leased, is_held, IsTracked}
use llm_aio_gateway.HttpPool.Update.{IsUpdate}

-- The entry that `acquire` writes: one use more, at its time.
abbrev pub used_once : ℕ → Entry → Entry
used_once now entry = record entry { in_use = entry.in_use + 1; last_used = now }

module _ {ℓ} {K : Type ℓ} ⦃e : EqTest K⦄ where
  -- One lease is given back.
  unfoldable pub drop_lease : K → ℕ → List (K × ℕ) → List (K × ℕ)
  drop_lease k c [] = []
  drop_lease k c ((j, d) ∷ ls) =
      let rest = drop_lease k c ls in if j == k && d == c then ls else (j, d) ∷ rest

  pub leased-drop_lease :
      (k j : K) (c : ℕ) (ls : List (K × ℕ))
      → is_held k c ls ≡ true
      → leased j ls ≡ (if k == j then 1 else 0) + leased j (drop_lease k c ls)
  unfolding leased drop_lease is_held
  leased-drop_lease k j c [] h = cc
  leased-drop_lease k j c ((i, d) ∷ ls) h =
      ground (arith, leased-drop_lease k j c ls, e.beq_iff i k, e.beq_iff i j, e.beq_iff k j)

  pub held-drop_lease :
      (k j : K) (c d : ℕ) (ls : List (K × ℕ))
      → is_held j d (drop_lease k c ls) ≡ true
      → is_held j d ls ≡ true
  unfolding drop_lease is_held
  held-drop_lease k j c d [] h = h
  held-drop_lease k j c d ((i, b) ∷ ls) h = ground (arith, held-drop_lease k j c d ls)

  held_new :
      (k j : K) (c d : ℕ) (ls : List (K × ℕ))
      → is_held j d ((k, c) ∷ ls) ≡ true
      → (((k == j) ≡ true) × (c ≡ d)) ⊎ (is_held j d ls ≡ true)
  unfolding is_held
  held_new k j c d ls h = ground arith

  leased_new :
      (k j : K) (c : ℕ) (ls : List (K × ℕ))
      → leased j ((k, c) ∷ ls) ≡ (if k == j then 1 else 0) + leased j ls
  unfolding leased
  leased_new k j c ls = refl

  -- Where a key has an entry, its leases have the entry's client.
  pub client_of_held :
      (k j : K) (c : ℕ) (entry : Entry) (p : Pool K) (ls : List (K × ℕ))
      → IsTracked p ls
      → get k p.entries ≡ some entry
      → (k == j) ≡ true
      → is_held j c ls ≡ true
      → entry.client ≡ c
  client_of_held k j c entry p ls t found same held =
      let (a, there, client) = t.clients j c held in
      let eq : k ≡ j = (e.beq_iff k j).0 same in
      ground (arith, found, there, client, ap (λ i. get i p.entries) eq)

  pub in_use_found :
      (k : K) (entry : Entry) (d : Dict K Entry)
      → get k d ≡ some entry
      → entry.in_use ≡ in_use_at k d
  unfolding in_use_at
  in_use_found k entry d found = ground (arith, found)

  in_use_missing : (k : K) (d : Dict K Entry) → get k d ≡ none → in_use_at k d ≡ 0
  unfolding in_use_at
  in_use_missing k d missing = ground (arith, missing)

  module _ (now : ℕ) (k : K) (p : Pool K) (ls : List (K × ℕ)) (t : IsTracked p ls) where
    others_new : (c : ℕ) (j : K) → (k == j) ≡ false → leased j ls ≡ leased j ((k, c) ∷ ls)
    others_new c j other = ground (arith, leased_new k j c ls, other)

    used_new :
        (entry : Entry)
        → entry.in_use ≡ in_use_at k p.entries
        → entry.in_use + 1 ≡ leased k ((k, entry.client) ∷ ls)
    used_new entry h = ground (arith, h, t.counted k, leased_new k k entry.client ls, beq_self k)

    held_after :
        (entry : Entry)
        → ((j : K) (c : ℕ) → (k == j) ≡ true → is_held j c ls ≡ true → entry.client ≡ c)
        → (j : K) (c : ℕ) → is_held j c ((k, entry.client) ∷ ls) ≡ true
        → (((k == j) ≡ true) × (entry.client ≡ c)) ⊎ (((k == j) ≡ false) × (is_held j c ls ≡ true))
    held_after entry old j c h = elim (held_new k j entry.client c ls h) [
      | inl now_held ↦ inl now_held
      | inr before ↦ elim (Bool-cases (k == j)) [
        | inl same ↦ inl (same, old j c same before)
        | inr other ↦ inr (other, before)
      ]
    ]

    pub acquired_old :
        (entry : Entry)
        → get k p.entries ≡ some entry
        → IsUpdate k
            (used_once now entry)
            p
            (record p { entries = put k (used_once now entry) p.entries })
            ls
            ((k, entry.client) ∷ ls)
    acquired_old entry found = record {
      at_key = λ j. get-put k j (used_once now entry) p.entries;
      same_closed = refl;
      used = used_new entry (in_use_found k entry p.entries found);
      others = λ j other. others_new entry.client j other;
      held = held_after entry (λ j c same held. client_of_held k j c entry p ls t found same held);
      origin = inl (entry, found, refl);
      grows = omega arith;
      known = t.known_open k entry found;
    }

    pub acquired_new :
        get k p.entries ≡ none
        → let entry : Entry = record { client = p.next_client; last_used = now; in_use = 0 } in
          IsUpdate k
            (used_once now entry)
            p
            (record p {
              entries = put k (used_once now entry) (put k entry p.entries);
              next_client = suc p.next_client;
            })
            ls
            ((k, p.next_client) ∷ ls)
    acquired_new missing =
        let entry : Entry = record { client = p.next_client; last_used = now; in_use = 0 } in
        record {
          at_key = λ j. ground (
            arith,
            get-put k j (used_once now entry) (put k entry p.entries),
            get-put k j entry p.entries,
          );
          same_closed = refl;
          used = used_new entry (sym (in_use_missing k p.entries missing));
          others = λ j other. others_new entry.client j other;
          held = held_after entry (λ j c same held.
              let (a, there, client) = t.clients j c held in
              let eq : k ≡ j = (e.beq_iff k j).0 same in
              absurd (ground (arith, there, missing, ap (λ i. get i p.entries) eq)));
          origin = inr refl;
          grows = omega arith;
          known = omega arith;
        }
