-- ===== src/Streams/Hold.antt =====
-- The loop over the events of one attempt: what is passed to the client, and what is held back until
-- an output shows that the attempt is not an empty one.
use llm_aio_gateway.Prelude.{
  Bool, true, false, not, ◌&&◌, Option, none, some, List, [], ◌∷◌, ◌++◌, if◌then◌else◌,
}
use llm_aio_gateway.Streams.Events.{
  Event, is_text, is_done, is_visible, placeholder_only, joined_text,
}

pub record Holding : Type 0 where
  pub emitted : Bool
  pub pending : List Event
  pub terminal : Option Event
  pub out : List Event

abbrev pub nothing_yet : Holding
nothing_yet = record { emitted = false; pending = []; terminal = none; out = [] }

-- What a flush passes on: all that is pending if a text sets it off, else all but placeholder texts.
unfoldable pub flushed : Bool → List Event → List Event
unfolding placeholder_only
flushed by_text [] = []
flushed by_text (p ∷ ps) =
    let rest = flushed by_text ps in
    if not by_text && is_text p.kind && placeholder_only p.text then rest else p ∷ rest

unfoldable pub hold_step : Holding → Event → Holding
hold_step h e =
    if is_done e.kind
    then record h { terminal = some e }
    else if not h.emitted && is_text e.kind && placeholder_only (joined_text h.pending ++ e.text)
    then record h { pending = h.pending ++ (e ∷ []) }
    else if is_visible e
    then record h {
      emitted = true;
      pending = if h.emitted then h.pending else [];
      out = h.out ++ ((if h.emitted then [] else flushed (is_text e.kind) h.pending) ++ (e ∷ []));
    }
    else if h.emitted
    then record h { out = h.out ++ (e ∷ []) }
    else record h { pending = h.pending ++ (e ∷ []) }

unfoldable pub hold_all : Holding → List Event → Holding
hold_all h [] = h
hold_all h (e ∷ es) = hold_all (hold_step h e) es
