-- ===== src/Streams/HoldSteps.antt =====
-- One step of the loop that holds events back, and the texts of the events.
use mathlib.Core.List.{append_assoc, append-nil}
use llm_aio_gateway.Prelude.{
  ◌≡◌, refl, ◌⊎◌, inl, inr, Bool, true, false, not, ◌&&◌, ◌||◌, some, List, [], ◌∷◌, ◌++◌,
  if◌then◌else◌, is_empty, any, Bool-cases, arith,
}
use llm_aio_gateway.Streams.Events.{
  Kind, message_start, text_delta, reasoning_delta, tool_call_start, tool_call_arguments_delta,
  tool_call_done, message_delta, message_done, usage, metadata, Event, is_text, is_done,
  visible_kind, payload_kind, is_visible, placeholder_only, joined_text,
}
use llm_aio_gateway.Streams.Hold.{Holding, flushed, hold_step}

pub payload-visible :
    (k : Kind) (e : Event)
    → visible_kind k (not (is_empty e.text) || not (is_empty e.reasoning)) ≡ false
    → (payload_kind k e && not (is_text k)) ≡ false
payload-visible message_start e h = refl
payload-visible text_delta e h = ground arith
payload-visible reasoning_delta e h = ground arith
payload-visible tool_call_start e h = cc
payload-visible tool_call_arguments_delta e h = cc
payload-visible tool_call_done e h = cc
payload-visible message_delta e h = refl
payload-visible message_done e h = refl
payload-visible usage e h = refl
payload-visible metadata e h = refl

pub invisible_text :
    (k : Kind) (e : Event)
    → visible_kind k (not (is_empty e.text) || not (is_empty e.reasoning)) ≡ false
    → is_text k ≡ true
    → e.text ≡ []
invisible_text text_delta e h t = ground arith
invisible_text message_start e h t = cc
invisible_text reasoning_delta e h t = cc
invisible_text tool_call_start e h t = cc
invisible_text tool_call_arguments_delta e h t = cc
invisible_text tool_call_done e h t = cc
invisible_text message_delta e h t = cc
invisible_text message_done e h t = cc
invisible_text usage e h t = cc
invisible_text metadata e h t = cc

pub joined_text-append :
    (xs ys : List Event) → joined_text (xs ++ ys) ≡ joined_text xs ++ joined_text ys
unfolding joined_text
joined_text-append [] ys = refl
joined_text-append (x ∷ xs) ys = elim (Bool-cases (is_text x.kind)) [
  | inl text ↦ rw text (simp (joined_text-append xs ys, append_assoc))
  | inr other ↦ rw other (joined_text-append xs ys)
]

pub any-append {ℓ} :
    {A : Type ℓ} (p : A → Bool) (xs ys : List A) → any p (xs ++ ys) ≡ (any p xs || any p ys)
any-append p [] ys = refl
any-append p (x ∷ xs) ys = ground (arith, any-append p xs ys)

-- A step before the first output: the end is kept, the event is held, or it sets off the flush.
pub held_step :
    (h : Holding) (e : Event)
    → h.emitted ≡ false
    → ((is_done e.kind ≡ true) × (hold_step h e ≡ record h { terminal = some e }))
      ⊎ ((is_done e.kind ≡ false)
          × (hold_step h e ≡ record h { pending = h.pending ++ (e ∷ []) })
          × ((((is_text e.kind ≡ true)
                × (placeholder_only (joined_text h.pending ++ e.text) ≡ true))
              ⊎ (is_visible e ≡ false))))
      ⊎ ((is_done e.kind ≡ false)
          × (hold_step h e ≡ record h {
            emitted = true;
            pending = [];
            out = h.out ++ (flushed (is_text e.kind) h.pending ++ (e ∷ []));
          })
          × (is_visible e ≡ true))
unfolding hold_step
held_step h e waiting = ground arith

-- A step after it passes on all but the end of the message.
pub passing_step :
    (h : Holding) (e : Event)
    → h.emitted ≡ true
    → ((hold_step h e).emitted ≡ true)
      × ((hold_step h e).out ≡ h.out ++ (if is_done e.kind then [] else e ∷ []))
unfolding hold_step
passing_step h e going = ground (arith, append-nil h.out)
