-- ===== src/Targets/ErrorLaws.antt =====
-- The category of an error agrees with the evidence on its chain.
use llm_aio_gateway.Prelude.{
  ℕ, ◌≤◌, ◌≡◌, refl, inl, inr, Bool, true, false, none, some, List, [], ◌∷◌, nat_eq, All, arith,
  Bool-cases,
}
use llm_aio_gateway.Targets.Errors.{
  Exc, Trigger, timeout, has_hard_timeout, upstream_status_code, has_timeout_signal,
  has_network_signal, status_category, chain_category, classify_upstream_error,
}

hard_timeout-signal :
    (chain : List Exc) → has_hard_timeout chain ≡ true → has_timeout_signal chain ≡ true
unfolding has_hard_timeout has_timeout_signal
hard_timeout-signal [] h = h
hard_timeout-signal (item ∷ chain) h = ground (arith, hard_timeout-signal chain)

-- A timeout anywhere on the chain, by its type, makes the error a timeout, whatever status the
-- exceptions around it carry.
pub has_hard_timeout-classify :
    (is_word is_digit : ℕ → Bool) (exc : Exc) (causes : List Exc)
    → has_hard_timeout (exc ∷ causes) ≡ true
    → classify_upstream_error is_word is_digit exc causes ≡ timeout
unfolding classify_upstream_error
has_hard_timeout-classify is_word is_digit exc causes h =
    rw (hard_timeout-signal (exc ∷ causes) h) refl

-- An HTTPException of the framework has a status between 100 and 599.
abbrev pub HasStatus : Exc → Type 0
HasStatus item =
    (item.is_http ≡ true → (c : ℕ) × (item.status_code ≡ some c) × (100 ≤ c) × (c ≤ 599))

chain_category-status :
    (c : ℕ) (chain : List Exc)
    → All HasStatus chain
    → upstream_status_code chain ≡ some c
    → 400 ≤ c
    → chain_category chain ≡ status_category c
unfolding chain_category upstream_status_code status_category
chain_category-status c [] s h low = cc
chain_category-status c (item ∷ chain) s h low = elim (Bool-cases item.is_http) [
  | inl http ↦
      let (d, own, above, below) = s.0 http in ground (arith, http, own, above, below, h, low)
  | inr other ↦ ground (arith, other, h, low, chain_category-status c chain s.1)
]

upstream_status_code-le : (c : ℕ) (chain : List Exc) → upstream_status_code chain ≡ some c → c ≤ 599
unfolding upstream_status_code
upstream_status_code-le c [] h = cc
upstream_status_code-le c (item ∷ chain) h = ground (arith, h, upstream_status_code-le c chain)

category_given :
    (c : ℕ) (other : Trigger)
    → 400 ≤ c
    → c ≤ 599
    → some (elim (status_category c) [ some t ↦ t | none ↦ other ]) ≡ status_category c
unfolding status_category
category_given c other low high = ground arith

-- An error without a sign of a timeout or of a lost connection has the category of the status that
-- `upstream_status_code` finds, 429, 5xx or 4xx, if that status is 400 or more and every
-- HTTPException on the chain has a status between 100 and 599.
pub classify-upstream_status_code :
    (is_word is_digit : ℕ → Bool) (exc : Exc) (causes : List Exc) (c : ℕ)
    → All HasStatus (exc ∷ causes)
    → has_timeout_signal (exc ∷ causes) ≡ false
    → has_network_signal (exc ∷ causes) ≡ false
    → upstream_status_code (exc ∷ causes) ≡ some c
    → 400 ≤ c
    → some (classify_upstream_error is_word is_digit exc causes) ≡ status_category c
unfolding classify_upstream_error
classify-upstream_status_code is_word is_digit exc causes c s t n h low = rw t (
    rw n (
      rw (chain_category-status c (exc ∷ causes) s h low)
        (category_given c _ low (upstream_status_code-le c (exc ∷ causes) h))))
