-- ===== src/Streams/ClockLaws.antt =====
-- The clock of the first output acts only on streams of which the client has seen nothing.
use mathlib.Core.List.{append-nil}
use llm_aio_gateway.Prelude.{
  ℕ, ◌≤◌, ◌+◌, ◌-◌, ◌≡◌, refl, ap, ◌∙◌, ◌⊎◌, inl, inr, String, Bool, true, false, not, ◌&&◌, ◌||◌,
  List, [], ◌∷◌, ◌++◌, map, any, all, if◌then◌else◌, ltb, leb, is_empty, is_space, Bool-cases,
  arith,
}
use llm_aio_gateway.Streams.Events.{
  Event, is_text, is_visible, drop_space, is_mark, placeholder_only, starts_client_clock,
  joined_text,
}
use llm_aio_gateway.Streams.Hold.{Holding, nothing_yet, hold_step, hold_all}
use llm_aio_gateway.Streams.HoldSteps.{held_step, joined_text-append, invisible_text}
use llm_aio_gateway.Streams.Clocks.{
  Timed, Ending, Upstream, then_item, is_timeout_error, says_attempt_timeout, first_output_clock,
}

drop_space-append : (xs ys : List ℕ) → drop_space (xs ++ ys) ≡ drop_space xs ++ drop_space ys
unfolding drop_space
drop_space-append [] ys = refl
drop_space-append (c ∷ cs) ys = elim (Bool-cases (is_space c)) [
  | inl space ↦ rw space (drop_space-append cs ys)
  | inr other ↦ rw other (ap (λ xs. c ∷ xs) (drop_space-append cs ys))
]

all-append : (p : ℕ → Bool) (xs ys : List ℕ) → all p (xs ++ ys) ≡ (all p xs && all p ys)
all-append p [] ys = refl
all-append p (x ∷ xs) ys = ground (arith, all-append p xs ys)

-- Only the signs that a placeholder is made of, and white space.
unfoldable only_marks : List ℕ → Bool
only_marks text = all is_mark (drop_space text)

only_marks-append : (xs ys : List ℕ) → only_marks (xs ++ ys) ≡ (only_marks xs && only_marks ys)
unfolding only_marks
only_marks-append xs ys =
    ap (λ t. all is_mark t) (drop_space-append xs ys)
    ∙ all-append is_mark (drop_space xs) (drop_space ys)

is_empty-append : (xs ys : List ℕ) → is_empty (xs ++ ys) ≡ (is_empty xs && is_empty ys)
is_empty-append [] ys = refl
is_empty-append (x ∷ xs) ys = refl

placeholder_marks : (xs : List ℕ) → placeholder_only xs ≡ true → only_marks xs ≡ true
unfolding placeholder_only only_marks
placeholder_marks xs h = ground (arith, h)

-- A placeholder after signs and white space is a placeholder.
placeholder_after :
    (xs ys : List ℕ)
    → only_marks xs ≡ true
    → placeholder_only ys ≡ true
    → placeholder_only (xs ++ ys) ≡ true
unfolding placeholder_only only_marks
placeholder_after xs ys marks more = rw drop_space-append (
    ground (
      arith,
      more,
      marks,
      is_empty-append (drop_space xs) (drop_space ys),
      all-append is_mark (drop_space xs) (drop_space ys),
    ))

-- A stream that is waited for has shown nothing.
abbrev IsWaiting : Holding → Type 0
IsWaiting h = (h.emitted ≡ false) × (only_marks (joined_text h.pending) ≡ true)

early_waits :
    (h : Holding) (e : Event)
    → h.emitted ≡ false
    → only_marks (joined_text h.pending) ≡ true
    → starts_client_clock e ≡ false
    → (hold_step h e).emitted ≡ false
unfolding hold_step starts_client_clock
early_waits h e waiting marks early =
    ground (arith, waiting, early, placeholder_after (joined_text h.pending) e.text marks)

held_marks :
    (ps : List Event) (e : Event)
    → only_marks (joined_text ps) ≡ true
    → ((is_text e.kind ≡ true) × (placeholder_only (joined_text ps ++ e.text) ≡ true))
      ⊎ (is_visible e ≡ false)
    → only_marks (joined_text (ps ++ (e ∷ []))) ≡ true
unfolding joined_text is_visible
held_marks ps e marks (inl (text, holds)) =
    rw (joined_text-append, text, append-nil) (placeholder_marks (joined_text ps ++ e.text) holds)
held_marks ps e marks (inr hidden) = elim (Bool-cases (is_text e.kind)) [
  | inl text ↦
      rw (joined_text-append, text, invisible_text e.kind e hidden text) (rw append-nil marks)
  | inr other ↦ rw (joined_text-append, other, append-nil) marks
]

hold_step-IsWaiting :
    (h : Holding) (e : Event)
    → IsWaiting h
    → starts_client_clock e ≡ false
    → IsWaiting (hold_step h e)
unfolding hold_step starts_client_clock
hold_step-IsWaiting h e (waiting, marks) early = elim (held_step h e waiting) [
  | inl (done, eq) ↦ rw eq (waiting, marks)
  | inr (inl (other, eq, why)) ↦ rw eq (waiting, held_marks h.pending e marks why)
  | inr (inr (other, eq, shown)) ↦
      absurd
        (ground (arith, early_waits h e waiting marks early, ap (λ (x : Holding). x.emitted) eq))
]

hold_all-IsWaiting :
    (es : List Event) (h : Holding)
    → IsWaiting h
    → any starts_client_clock es ≡ false
    → (hold_all h es).emitted ≡ false
unfolding hold_all
hold_all-IsWaiting [] h (waiting, marks) early = waiting
hold_all-IsWaiting (e ∷ es) h w early =
    hold_all-IsWaiting es (hold_step h e) (hold_step-IsWaiting h e w (ground (arith, early)))
      (ground (arith, early))

abbrev pub events_of : Upstream → List Event
events_of u = map (λ (x : Timed). x.event) u.items

-- When the first output arrives that starts the client's clock, or the stream is at its end.
unfoldable pub arrival : ℕ → List Timed → ℕ
arrival now [] = now
arrival now (x ∷ xs) =
    let later = arrival (now + x.wait + x.pause) xs in
    if starts_client_clock x.event then now + x.wait else later

module _ (show : ℕ → String) where
  -- The clock leaves a stream as it is, whose first output comes in time, or it passes on nothing that
  -- starts the client's clock.
  abbrev IsClocked : ℕ → ℕ → List Timed → Ending → Upstream → Type 0
  IsClocked limit now xs ending u =
      ((u ≡ record { items = xs; ending = ending }) × (arrival now xs ≤ limit))
      ⊎ (any starts_client_clock (events_of u) ≡ false)

  first_output_clock-IsClocked :
      (limit now : ℕ) (xs : List Timed) (ending : Ending)
      → IsClocked limit now xs ending (first_output_clock show limit now xs ending)
  unfolding first_output_clock arrival
  first_output_clock-IsClocked limit now [] ending =
      elim (Bool-cases (leb limit now || ltb (limit - now) ending.last_wait)) [
        | inl late ↦ rw late (inr refl)
        | inr timely ↦
            rw timely
              (elim (Bool-cases
                (is_timeout_error ending.failure && not (says_attempt_timeout ending.failure))) [
                  | inl broken ↦ rw broken (inr refl)
                  | inr whole ↦ rw whole (inl (refl, ground (arith, timely)))
                ])
      ]
  first_output_clock-IsClocked limit now (x ∷ xs) ending =
      elim (Bool-cases (leb limit now || ltb (limit - now) x.wait)) [
        | inl late ↦ rw late (inr refl)
        | inr timely ↦ rw timely (elim (Bool-cases (starts_client_clock x.event)) [
          | inl starts ↦ rw starts (inl (refl, ground (arith, timely)))
          | inr early ↦
              rw early
                (elim (first_output_clock-IsClocked limit (now + x.wait + x.pause) xs ending) [
                  | inl (whole, soon) ↦ inl (ap (λ u. then_item x u) whole, soon)
                  | inr silent ↦ inr (ground (arith, early, silent))
                ])
        ])
      ]

  -- The clock of the first output either leaves a stream as it is, and then the first output that
  -- starts the client's clock comes within the limit, if there is one; or the client sees nothing of
  -- the stream, so that another target may be tried.
  pub first_output_clock_lem :
      (limit : ℕ) (items : List Timed) (ending : Ending)
      → let u = first_output_clock show limit 0 items ending in
        ((u ≡ record { items = items; ending = ending }) × (arrival 0 items ≤ limit))
        ⊎ ((hold_all nothing_yet (events_of u)).emitted ≡ false)
  unfolding only_marks drop_space joined_text
  first_output_clock_lem limit items ending =
      elim (first_output_clock-IsClocked limit 0 items ending) [
        | inl whole ↦ inl whole
        | inr silent ↦ inr (
            hold_all-IsWaiting (events_of (first_output_clock show limit 0 items ending))
              nothing_yet (refl, refl) silent)
      ]
