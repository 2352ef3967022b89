-- ===== src/Streams/HoldLaws.antt =====
-- What is held back: nothing of use, and nothing for longer than until the first output.
use mathlib.Core.List.{append_assoc, append-nil}
use llm_aio_gateway.Prelude.{
  ◌≡◌, refl, sym, ap, subst, ◌∙◌, ◌⊎◌, inl, inr, true, false, ◌&&◌, some, List, [], ◌∷◌, ◌++◌,
  if◌then◌else◌, Bool-cases, arith,
}
use llm_aio_gateway.Streams.Events.{
  Event, is_text, is_done, is_visible, has_payload, placeholder_only, joined_text,
  has_usable_payload,
}
use llm_aio_gateway.Streams.Hold.{Holding, nothing_yet, flushed, hold_step, hold_all}
use llm_aio_gateway.Streams.HoldSteps.{
  payload-visible, invisible_text, joined_text-append, any-append, held_step, passing_step,
}

-- The events without the ends of the message.
unfoldable pub without_done : List Event → List Event
without_done [] = []
without_done (e ∷ es) = let rest = without_done es in if is_done e.kind then rest else e ∷ rest

-- Once an output was passed on, so is all that follows.
hold_all_passing :
    (es : List Event) (h : Holding)
    → h.emitted ≡ true
    → ((hold_all h es).emitted ≡ true) × ((hold_all h es).out ≡ h.out ++ without_done es)
unfolding hold_all without_done
hold_all_passing [] h going = (going, sym (append-nil h.out))
hold_all_passing (e ∷ es) h going =
    let (still, here) = passing_step h e going in
    let (ended, there) = hold_all_passing es (hold_step h e) still in
    (
      ended,
      elim (Bool-cases (is_done e.kind)) [
        | inl done ↦
            rw done (there ∙ ap (λ xs. xs ++ without_done es) (here ∙ rw done (append-nil h.out)))
        | inr other ↦ rw other (
            there
            ∙ ap (λ xs. xs ++ without_done es) (here ∙ rw other refl)
            ∙ append_assoc h.out (e ∷ []) (without_done es))
      ],
    )

-- Nothing that is held back is of use to the client.
IsUseless : List Event → Type 0
IsUseless ps = has_usable_payload ps ≡ false

held-IsUseless :
    (ps : List Event) (e : Event)
    → IsUseless ps
    → ((is_text e.kind ≡ true) × (placeholder_only (joined_text ps ++ e.text) ≡ true))
      ⊎ (is_visible e ≡ false)
    → IsUseless (ps ++ (e ∷ []))
unfolding IsUseless has_usable_payload joined_text is_visible has_payload
held-IsUseless ps e u (inl (text, holds)) =
    simp (joined_text-append ps (e ∷ []), any-append)
      (ground (arith, u, text, holds, append-nil e.text))
held-IsUseless ps e u (inr hidden) =
    simp (joined_text-append ps (e ∷ []), any-append)
      (ground (
        arith,
        u,
        payload-visible e.kind e hidden,
        invisible_text e.kind e hidden,
        append-nil (joined_text ps),
      ))

-- What the holding comes to: all is held back, or it ends at the first output, `first`.
abbrev pub IsHeld : List Event → Holding → Type 0
IsHeld es h =
    (h.emitted ≡ false) × (h.out ≡ []) × (h.pending ≡ es) × (has_usable_payload h.pending ≡ false)

abbrev IsOpened : List Event → Holding → Type 0
IsOpened es h =
    (before : List Event) × (first : Event) × (later : List Event) × (es
      ≡ before ++ (first ∷ later))
    × (h.emitted ≡ true)
    × (is_visible first ≡ true)
    × (has_usable_payload before ≡ false)
    × (h.out ≡ flushed (is_text first.kind) before ++ (first ∷ later))

hold_all_from :
    (es : List Event) (h : Holding)
    → h.emitted ≡ false
    → h.out ≡ []
    → IsUseless h.pending
    → IsHeld (h.pending ++ without_done es) (hold_all h es)
      ⊎ IsOpened (h.pending ++ without_done es) (hold_all h es)
unfolding hold_all without_done IsUseless
hold_all_from [] h waiting none_out u = inl (waiting, none_out, sym (append-nil h.pending), u)
hold_all_from (e ∷ es) h waiting none_out u = elim (held_step h e waiting) [
  | inl (done, eq) ↦
      rw (done, eq, hold_all) (hold_all_from es (record h { terminal = some e }) waiting none_out u)
  | inr (inl (other, eq, why)) ↦
      rw (other, eq, hold_all)
        (subst
          (λ xs.
            IsHeld xs (hold_all (record h { pending = h.pending ++ (e ∷ []) }) es)
            ⊎ IsOpened xs (hold_all (record h { pending = h.pending ++ (e ∷ []) }) es))
          (append_assoc h.pending (e ∷ []) (without_done es))
          (hold_all_from es (record h { pending = h.pending ++ (e ∷ []) }) waiting none_out
            (held-IsUseless h.pending e u why)))
  | inr (inr (other, eq, shown)) ↦
      rw (other, eq, hold_all)
        (let h' : Holding = record h {
          emitted = true;
          pending = [];
          out = h.out ++ (flushed (is_text e.kind) h.pending ++ (e ∷ []));
        } in
          let (going, out) = hold_all_passing es h' refl in
          inr (
            h.pending,
            e,
            without_done es,
            refl,
            going,
            shown,
            u,
            out
                ∙ ap
                    (λ xs.
                      (xs ++ (flushed (is_text e.kind) h.pending ++ (e ∷ []))) ++ without_done es)
                    none_out
                ∙ append_assoc (flushed (is_text e.kind) h.pending) (e ∷ []) (without_done es),
          ))
]

-- The events but the texts that are placeholders by themselves.
unfoldable pub without_placeholders : List Event → List Event
without_placeholders [] = []
without_placeholders (p ∷ ps) =
    let rest = without_placeholders ps in
    if is_text p.kind && placeholder_only p.text then rest else p ∷ rest

flushed_by_text : (ps : List Event) → flushed true ps ≡ ps
unfolding flushed
flushed_by_text [] = refl
flushed_by_text (p ∷ ps) = ap (λ xs. p ∷ xs) (flushed_by_text ps)

flushed_by_other : (ps : List Event) → flushed false ps ≡ without_placeholders ps
unfolding flushed without_placeholders
flushed_by_other [] = refl
flushed_by_other (p ∷ ps) = ground (arith, flushed_by_other ps)

-- All events are passed on, where a text comes first to the client; where another event does, all but
-- the placeholders before it.
abbrev pub IsPassedOn : List Event → Holding → Type 0
IsPassedOn es h =
    (before : List Event) × (first : Event) × (later : List Event) × (es
      ≡ before ++ (first ∷ later))
    × (h.emitted ≡ true)
    × (is_visible first ≡ true)
    × (has_usable_payload before ≡ false)
    × (((is_text first.kind ≡ true) × (h.out ≡ es))
        ⊎ ((is_text first.kind ≡ false) × (h.out ≡ without_placeholders before ++ (first ∷ later))))

opened-IsPassedOn : (es : List Event) (h : Holding) → IsOpened es h → IsPassedOn es h
opened-IsPassedOn es h (before, first, later, split, going, shown, u, out) = (
  before,
  first,
  later,
  split,
  going,
  shown,
  u,
  elim (Bool-cases (is_text first.kind)) [
    | inl by_text ↦ inl (
      by_text,
      out
          ∙ ap (λ b. flushed b before ++ (first ∷ later)) by_text
          ∙ ap (λ xs. xs ++ (first ∷ later)) (flushed_by_text before)
          ∙ sym split,
    )
    | inr other ↦ inr (
      other,
      out
          ∙ ap (λ b. flushed b before ++ (first ∷ later)) other
          ∙ ap (λ xs. xs ++ (first ∷ later)) (flushed_by_other before),
    )
  ],
)

-- The events of an attempt, less the end of its message, are all held back and useless to the client,
-- or the client gets them from the first output on, all in their order, and what stood before that
-- output was useless by itself. If that output is a text, the client gets all of what stood before it
-- too, and else all of it but the texts that are placeholders by themselves.
pub hold_all_lem :
    (es : List Event)
    → IsHeld (without_done es) (hold_all nothing_yet es)
      ⊎ IsPassedOn (without_done es) (hold_all nothing_yet es)
unfolding has_usable_payload joined_text IsUseless
hold_all_lem es = elim (hold_all_from es nothing_yet refl refl refl) [
  | inl held ↦ inl held
  | inr opened ↦ inr (opened-IsPassedOn (without_done es) (hold_all nothing_yet es) opened)
]
