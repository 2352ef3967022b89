-- ===== src/Cache/Budget.antt =====
-- The image budget of a conversation: what a window grants, and what a refund gives back.
use llm_aio_gateway.Prelude.{
  ℕ, ◌+◌, ◌-◌, ◌≤◌, ◌<◌, min, String, ◌≡◌, sym, subst, ◌∙◌, true, false, List, [], ◌∷◌, ◌==◌, ap,
  string_eq, nat_eq, ltb, arith, Bool-cases, inl, inr, beq_self, is_nonempty,
}
use llm_aio_gateway.Dict.{
  get, keys, contains, get_or, get-put, keys-put, contains-add_key, get_of_absent,
}
use llm_aio_gateway.Cache.Defs.{is_expired}
use llm_aio_gateway.Cache.Counter.{
  Counters, increment_locked, live_after, used_of, reserve, charge, refund,
}
use llm_aio_gateway.Cache.Ops.{live_after-Shrinks, reserve-IsWellFormed}
use llm_aio_gateway.Cache.Shape.{IsWellFormed, SameKeys, make_room-Shrinks}

-- The conversation's entry, if there is one, was stamped at `start` or later.
abbrev pub IsSince : ℕ → String → Counters → Type 0
IsSince start k d = contains k (keys d.entries) ≡ true → start ≤ get_or 0 (get k d.stamps)

used-increment_locked :
    (evict_at now : ℕ) (k : String) (a : ℕ) (d : Counters)
    → used_of k (increment_locked evict_at now k a d).0 ≡ used_of k d + a
unfolding used_of increment_locked
used-increment_locked evict_at now k a d =
    simp (keys-put, contains-add_key, get-put, beq_self) (ground arith)

stamp-increment_locked :
    (evict_at now : ℕ) (k : String) (a : ℕ) (d : Counters)
    → get_or 0 (get k (increment_locked evict_at now k a d).0.stamps) ≡ now
unfolding increment_locked
stamp-increment_locked evict_at now k a d = simp (get-put, beq_self)

increment_locked-same_ttl :
    (evict_at now : ℕ) (k : String) (a : ℕ) (d : Counters)
    → SameKeys d
    → (increment_locked evict_at now k a d).0.ttl ≡ d.ttl
unfolding increment_locked
increment_locked-same_ttl evict_at now k a d h =
    ground (arith, (make_room-Shrinks evict_at d h).same_ttl)

live_after-eq :
    (start now : ℕ) (k : String) (d : Counters)
    → IsSince start k d
    → now ≤ start + d.ttl
    → live_after now k d ≡ d
unfolding live_after is_expired
live_after-eq start now k d h le = ground arith

refund_used :
    (start check_at now : ℕ) (k : String) (n : ℕ) (d : Counters)
    → IsSince start k d
    → is_nonempty k ≡ true
    → check_at ≤ start + d.ttl
    → used_of k (refund check_at now k n d) ≡ used_of k d - n
unfolding refund used_of is_expired
refund_used start check_at now k n d since named le =
    elim (Bool-cases (contains k (keys d.entries))) [
      | inl old ↦ elim (Bool-cases (n == 0)) [
        | inl nothing ↦ rw (named, nothing, old) (ground arith)
        | inr some_back ↦
            let live : ltb d.ttl (check_at - get_or 0 (get k d.stamps)) ≡ false = ground arith in
            elim (Bool-cases (get_or 0 (get k d.entries) == 0)) [
              | inl unused ↦ rw (named, some_back, old, live, unused) (rw old (ground arith))
              | inr used ↦
                  rw (named, some_back, old, live, used)
                    (simp (keys-put, contains-add_key, get-put, beq_self, old))
            ]
      ]
      | inr new ↦ rw new (ground (arith, get_of_absent k d.entries))
    ]

module _ (check_at evict_at now start limit : ℕ) (k : String) (n : ℕ) (d : Counters)
    (since : IsSince start k d) (in_time : check_at ≤ start + d.ttl) where
  -- Inside the window a reservation adds what it grants, and grants what is left at most.
  reserve-used :
      used_of k (reserve check_at evict_at now k limit n d).0
      ≡ used_of k d + (reserve check_at evict_at now k limit n d).1
  unfolding reserve
  reserve-used =
      rw (live_after-eq start check_at k d since in_time)
        (ground (arith, used-increment_locked evict_at now k (min n (limit - used_of k d)) d))

  reserve-granted : (reserve check_at evict_at now k limit n d).1 ≡ min n (limit - used_of k d)
  unfolding reserve
  reserve-granted = rw (live_after-eq start check_at k d since in_time) (ground arith)

  reserve-IsSince : start ≤ now → IsSince start k (reserve check_at evict_at now k limit n d).0
  unfolding reserve
  reserve-IsSince le =
      rw (live_after-eq start check_at k d since in_time) (
        ground
          (arith, stamp-increment_locked evict_at now k (min n (limit - used_of k d)) d, since))

  reserve-same_ttl : SameKeys d → (reserve check_at evict_at now k limit n d).0.ttl ≡ d.ttl
  unfolding reserve
  reserve-same_ttl same = rw (live_after-eq start check_at k d since in_time) (
      ground (arith, increment_locked-same_ttl evict_at now k (min n (limit - used_of k d)) d same))

-- One call of `charge_image_generation_budget`, with its clock readings.
pub record Claim : Type 0 where
  pub check_at : ℕ
  pub evict_at : ℕ
  pub now : ℕ
  pub wanted : ℕ

-- The calls for one conversation, in the order in which they get the lock, and what they grant.
unfoldable pub charge_each : ℕ → String → List Claim → Counters → Counters × ℕ
charge_each limit k [] d = (d, 0)
charge_each limit k (c ∷ cs) d =
    let (d', granted) = charge c.check_at c.evict_at c.now limit k c.wanted d in
    let (last, total) = charge_each limit k cs d' in (last, granted + total)

-- All clock readings of the calls lie between `start` and `start + ttl`.
abbrev pub AreWithin : ℕ → ℕ → List Claim → Type 0
AreWithin start ttl [] = Unit
AreWithin start ttl (c ∷ cs) =
    ((c.check_at ≤ start + ttl) × (start ≤ c.now)) × AreWithin start ttl cs

charge-reserve :
    (check_at evict_at now limit : ℕ) (k : String) (n : ℕ) (d : Counters)
    → is_nonempty k ≡ true
    → 0 < limit
    → charge check_at evict_at now limit k n d ≡ reserve check_at evict_at now k limit n d
unfolding charge reserve
charge-reserve check_at evict_at now limit k n d named p = elim (Bool-cases (n == 0)) [
  | inl nothing ↦ rw nothing
  | inr asked ↦ let limited : (limit == 0) ≡ false = ground arith in rw (asked, named, limited)
]

-- The sum of what the calls ask for.
abbrev pub asked : List Claim → ℕ
asked [] = 0
asked (c ∷ cs) = c.wanted + asked cs

-- Calls for one conversation, one right after the other in a window of one `ttl` with nothing else
-- done to the cache between them, are granted together exactly what they ask for, up to what the
-- limit leaves: the budget is neither overspent nor held back. The conversation has a name, the
-- limit is positive, no more than it is in use before, and an entry before has a stamp of the window.
pub charge_each_total :
    (start limit : ℕ) (k : String) (cs : List Claim) (d : Counters)
    → IsWellFormed d
    → IsSince start k d
    → is_nonempty k ≡ true
    → 0 < limit
    → AreWithin start d.ttl cs
    → used_of k d ≤ limit
    → ((charge_each limit k cs d).1 ≡ min (asked cs) (limit - used_of k d))
      × (used_of k (charge_each limit k cs d).0 ≡ used_of k d + (charge_each limit k cs d).1)
unfolding charge_each
charge_each_total start limit k [] d w since named p times le = (omega arith, omega arith)
charge_each_total start limit k (c ∷ cs) d w since named p ((early, late), times) le =
    let paid = reserve c.check_at c.evict_at c.now k limit c.wanted d in
    let same =
      reserve-same_ttl c.check_at c.evict_at c.now start limit k c.wanted d since early
        w.same_keys in
    let used = reserve-used c.check_at c.evict_at c.now start limit k c.wanted d since early in
    let got = reserve-granted c.check_at c.evict_at c.now start limit k c.wanted d since early in
    let ih =
      charge_each_total start limit k cs paid.0
        (reserve-IsWellFormed c.check_at c.evict_at c.now k limit c.wanted d w)
        (reserve-IsSince c.check_at c.evict_at c.now start limit k c.wanted d since early late)
        named p (subst (λ t. AreWithin start t cs) (sym same) times) (omega (arith, used, got)) in
    rw (charge-reserve c.check_at c.evict_at c.now limit k c.wanted d named p)
      (omega (arith, used, got, ih.0), omega (arith, ih.1, used))

refund_nothing : (check_at now : ℕ) (k : String) (d : Counters) → refund check_at now k 0 d ≡ d
unfolding refund
refund_nothing check_at now k d = ground arith

-- A refund of what a charge granted, made right after it and before one `ttl` has passed since the
-- stamp that the charge wrote, restores the count that the charge found: that of the conversation, or
-- 0 if its entry had expired. The conversation has a name, the limit is positive, and the charge asks
-- for something.
pub refund-charge :
    (check_at evict_at now check_at' now' limit : ℕ) (k : String) (n : ℕ) (d : Counters)
    → SameKeys d
    → is_nonempty k ≡ true
    → 0 < limit
    → 0 < n
    → check_at' ≤ now + d.ttl
    → let paid = charge check_at evict_at now limit k n d in
      used_of k (refund check_at' now' k paid.1 paid.0) ≡ used_of k (live_after check_at k d)
unfolding reserve
refund-charge check_at evict_at now check_at' now' limit k n d shape named p some_asked back =
    let live = live_after check_at k d in
    let allowed = min n (limit - used_of k live) in
    let after = (increment_locked evict_at now k allowed live).0 in
    let shrinks = live_after-Shrinks check_at k d shape in
    let asked_some : (n == 0) ≡ false = ground (arith, some_asked) in
    let ttl : after.ttl ≡ d.ttl =
      increment_locked-same_ttl evict_at now k allowed live shrinks.same_keys ∙ shrinks.same_ttl in
    rw (charge-reserve check_at evict_at now limit k n d named p)
      (elim (Bool-cases (allowed == 0)) [
        | inl nothing ↦
            rw (asked_some, nothing)
              (ap (λ m. used_of k (refund check_at' now' k m live))
                  ((nat_eq.beq_iff allowed 0).0 nothing)
                ∙ ap (λ x. used_of k x) (refund_nothing check_at' now' k live))
        | inr granted ↦
            rw (asked_some, granted)
              (refund_used now check_at' now' k allowed after
                  (λ _. omega (arith, stamp-increment_locked evict_at now k allowed live)) named
                  (omega (arith, back, ttl))
                ∙ omega (arith, used-increment_locked evict_at now k allowed live))
      ])
