-- ===== src/Model/IdLaws.antt =====
-- The two directions between a model's name and its parts.
use Prim.Native.Char.{Char, code}
use Prim.Native.String
use text.Mathlib.TextEquality.{Char-path}
use text.Mathlib.TextLemmas.{nil-append, cons-append}
use llm_aio_gateway.Prelude.{
  ◌≡◌, ap, String, true, false, none, some, ◌==◌, nat_eq, is_nonempty, arith, Bool-cases,
  Option-cases, inl, inr,
}
use llm_aio_gateway.Model.Id.{cut_slash, push_front, parse, composite, is_composite}

cut_slash-append :
    (p m : String) → cut_slash p ≡ none → cut_slash (String.◌++◌ p (String.◌∷◌ "/" m)) ≡ some (p, m)
unfolding cut_slash
cut_slash-append String.[] m h = rw nil-append
cut_slash-append (String.◌∷◌ c p) m h = rw cons-append (elim (Bool-cases (code c == b'/')) [
  | inl slash ↦ cc (rw slash at h)
  | inr other ↦ rw other (elim (Option-cases (cut_slash p)) [
    | inl missing ↦ rw (cut_slash-append p m missing)
    | inr (pair, found) ↦ ground (arith, h, found)
  ])
])

later_slash :
    (c : Char) (s a b : String)
    → (code c == b'/') ≡ false
    → ((x y : String) → cut_slash s ≡ some (x, y) → String.◌++◌ x (String.◌∷◌ "/" y) ≡ s)
    → push_front c (cut_slash s) ≡ some (a, b)
    → String.◌++◌ a (String.◌∷◌ "/" b) ≡ String.◌∷◌ c s
later_slash c s a b other ih h = elim (Option-cases (cut_slash s)) [
  | inl missing ↦ cc (rw missing at h)
  | inr ((x, y), found) ↦
      let h' : push_front c (some (x, y)) ≡ some (a, b) = rw found at h in
      let first : String.◌∷◌ c x ≡ a = cc h' in
      let second : y ≡ b = cc h' in
      rw (← first, ← second, cons-append) (ap (λ t. String.◌∷◌ c t) (ih x y found))
]

append-cut_slash :
    (raw a b : String) → cut_slash raw ≡ some (a, b) → String.◌++◌ a (String.◌∷◌ "/" b) ≡ raw
unfolding cut_slash
append-cut_slash String.[] a b h = cc
append-cut_slash (String.◌∷◌ c s) a b h = elim (Bool-cases (code c == b'/')) [
  | inl slash ↦
      let is_slash : c ≡ "/" = Char-path c "/" ((nat_eq.beq_iff (code c) 47).0 slash) in
      let first : ◌≡◌ {A = String} a "" = ground arith in
      let second : b ≡ s = ground arith in rw (first, nil-append) (cc (is_slash, second))
  | inr other ↦ later_slash c s a b other (λ x y. append-cut_slash s x y) (rw other at h)
]

-- The parts of a model with a provider are read back from their composite name, if the provider
-- holds no slash.
pub parse-composite :
    (provider model : String)
    → is_nonempty provider ≡ true
    → cut_slash provider ≡ none
    → parse (composite (record { provider_id = provider; model_name = model }))
      ≡ record { provider_id = provider; model_name = model }
unfolding parse composite
parse-composite provider model there plain =
    rw there (rw (cut_slash-append provider model plain, parse))

-- The composite form of a name that has a provider is the name itself.
pub composite-parse : (raw : String) → is_composite (parse raw) ≡ true → composite (parse raw) ≡ raw
unfolding parse composite is_composite
composite-parse raw h = elim (Option-cases (cut_slash raw)) [
  | inl missing ↦ cc (rw (missing, parse) at h)
  | inr ((a, b), found) ↦
      let there : is_nonempty a ≡ true = rw (found, parse) at h in
      rw (found, parse) (rw there (append-cut_slash raw a b found))
]
