-- ===== src/Streams/Shape.antt =====
-- What one attempt shows to the client: a visible output if it succeeds, and if it is cut short once
-- it has shown one; nothing at all otherwise.
use llm_aio_gateway.Prelude.{
  ℕ, String, Bool, Bool-cases, not, ◌&&◌, ◌≡◌, refl, ap, ap₂, ◌∙◌, ◌⊎◌, inl, inr, true, false,
  Option, none, some, List, [], ◌∷◌, ◌++◌, any, map, arith,
}
use llm_aio_gateway.Routing.{RouteTarget}
use llm_aio_gateway.Outcome.{Attempt}
use llm_aio_gateway.Attempts.Defs.{Failure}
use llm_aio_gateway.Streams.Events.{Event, Metadata, is_done, is_visible, has_usable_payload}
use llm_aio_gateway.Streams.Hold.{hold_step, Holding, nothing_yet, hold_all}
use llm_aio_gateway.Streams.HoldSteps.{any-append}
use llm_aio_gateway.Streams.HoldLaws.{without_placeholders, hold_all_lem}
use llm_aio_gateway.Streams.Opened.{
  Run, Sent, started, finished, passed, StreamFailure, Attempted, terminal_events, end_stream,
  attempt_metadata, finish_stream,
}

-- The events among what the loop gives to its caller.
unfoldable pub passed_events : List Sent → List Event
passed_events [] = []
passed_events (passed e ∷ xs) = e ∷ passed_events xs
passed_events (started n ∷ xs) = passed_events xs
passed_events (finished n ∷ xs) = passed_events xs

pub passed_events-append :
    (xs ys : List Sent) → passed_events (xs ++ ys) ≡ passed_events xs ++ passed_events ys
unfolding passed_events
passed_events-append [] ys = refl
passed_events-append (passed e ∷ xs) ys = ap (λ es. e ∷ es) (passed_events-append xs ys)
passed_events-append (started n ∷ xs) ys = passed_events-append xs ys
passed_events-append (finished n ∷ xs) ys = passed_events-append xs ys

passed_events-map : (es : List Event) → passed_events (map passed es) ≡ es
unfolding passed_events
passed_events-map [] = refl
passed_events-map (e ∷ es) = ap (λ xs. e ∷ xs) (passed_events-map es)

-- The events that a run shows when it ends well, and when it fails.
abbrev pub ending_events : Option Event → List Event
ending_events none = []
ending_events (some e) = e ∷ []

abbrev pub shown : Run → List Event
shown run = (hold_all nothing_yet run.events).out

abbrev pub shown_whole : Run → List Event
shown_whole run = shown run ++ ending_events (hold_all nothing_yet run.events).terminal

passed_events-terminal : (o : Option Event) → passed_events (terminal_events o) ≡ ending_events o
unfolding passed_events
passed_events-terminal none = refl
passed_events-terminal (some e) = refl

-- What an attempt comes to, by the events that are shown if it fails and if it succeeds.
abbrev IsSuccess : List Event → Attempted → Type 0
IsSuccess whole a =
    (a.error ≡ none)
    × (a.emitted ≡ true)
    × (passed_events a.sent ≡ whole)
    × (any is_visible (passed_events a.sent) ≡ true)

abbrev IsCut : List Event → Attempted → Type 0
IsCut part a =
    (e : StreamFailure) × (a.error ≡ some e)
    × (a.emitted ≡ true)
    × (passed_events a.sent ≡ part)
    × (any is_visible (passed_events a.sent) ≡ true)

abbrev pub IsSilent : Attempted → Type 0
IsSilent a =
    (e : StreamFailure) × (a.error ≡ some e) × (a.emitted ≡ false) × (passed_events a.sent ≡ [])

abbrev pub IsOutcome : List Event → List Event → Attempted → Type 0
IsOutcome part whole a = IsSuccess whole a ⊎ IsCut part a ⊎ IsSilent a

abbrev IsShown : Holding → Type 0
IsShown h =
    ((h.emitted ≡ false) × (h.out ≡ []) × (has_usable_payload h.pending ≡ false))
    ⊎ ((h.emitted ≡ true) × (any is_visible h.out ≡ true))

-- What is held: nothing was shown and nothing is usable, or something visible was shown.
hold_all-IsShown : (es : List Event) → IsShown (hold_all nothing_yet es)
hold_all-IsShown es = elim (hold_all_lem es) [
  | inl (waiting, empty, _, useless) ↦ inl (waiting, empty, useless)
  | inr (before, first, later, split, going, visible, _, inl (_, out)) ↦ inr (
    going,
    ap (λ xs. any is_visible xs) (out ∙ split)
        ∙ any-append is_visible before (first ∷ later)
        ∙ ground (arith, visible),
  )
  | inr (before, first, later, _, going, visible, _, inr (_, out)) ↦ inr (
    going,
    ap (λ xs. any is_visible xs) out
        ∙ any-append is_visible (without_placeholders before) (first ∷ later)
        ∙ ground (arith, visible),
  )
]

end_stream-IsOutcome :
    (start end : Metadata) (provider : String) (h : Holding) (failure : Option Failure)
    → IsShown h
    → IsOutcome h.out (h.out ++ ending_events h.terminal) (end_stream start end provider h failure)
unfolding end_stream passed_events
end_stream-IsOutcome start end provider h (some e) (inl (waiting, empty, _)) =
    inr (inr (_, refl, waiting, passed_events-map h.out ∙ empty))
end_stream-IsOutcome start end provider h (some e) (inr (going, visible)) = inr (
    inl (
      _,
      refl,
      going,
      passed_events-map h.out,
      ap (λ es. any is_visible es) (passed_events-map h.out) ∙ visible,
    ))
end_stream-IsOutcome start end provider h none (inl (waiting, empty, useless)) =
    rw (waiting, useless) (inr (inr (_, refl, refl, passed_events-map h.out ∙ empty)))
end_stream-IsOutcome start end provider h none (inr (going, visible)) = rw going (
    let all_of : passed_events (map passed h.out ++ (finished end ∷ terminal_events h.terminal))
        ≡ h.out ++ ending_events h.terminal =
      passed_events-append (map passed h.out) _
      ∙ ap₂ (λ xs ys. xs ++ ys) (passed_events-map h.out) (passed_events-terminal h.terminal) in
    inl (
      refl,
      refl,
      all_of,
      ap (λ es. any is_visible es) all_of
          ∙ any-append is_visible h.out (ending_events h.terminal)
          ∙ ground (arith, visible),
    ))

-- An attempt whose stream is open ends in one of three ways. If it succeeds, the client has seen a
-- visible output, and all that was passed on is what the run shows with the end of its message; if it
-- fails after an output, the client has seen what the run shows; else it has seen no event.
pub finish_stream_lem :
    (index : ℕ) (target : RouteTarget) (attempts : List Attempt) (run : Run)
    → IsOutcome (shown run) (shown_whole run) (finish_stream index target attempts run)
unfolding finish_stream
finish_stream_lem index target attempts run =
    end_stream-IsOutcome (attempt_metadata "started" index target run.adapter_provider_id attempts)
      (attempt_metadata "success" index target run.adapter_provider_id attempts)
      run.adapter_provider_id (hold_all nothing_yet run.events) run.failure
      (hold_all-IsShown run.events)

-- The end of the message is what ends a run, if anything does.
abbrev pub is_ending : Option Event → Bool
is_ending none = true
is_ending (some e) = is_done e.kind

hold_step-is_ending :
    (h : Holding) (e : Event)
    → is_ending h.terminal ≡ true
    → is_ending (hold_step h e).terminal ≡ true
unfolding hold_step
hold_step-is_ending h e ends = ground (arith, ends)

hold_all-is_ending :
    (es : List Event) (h : Holding)
    → is_ending h.terminal ≡ true
    → is_ending (hold_all h es).terminal ≡ true
unfolding hold_all
hold_all-is_ending [] h ends = ends
hold_all-is_ending (e ∷ es) h ends =
    hold_all-is_ending es (hold_step h e) (hold_step-is_ending h e ends)

-- What the loop gives last when an attempt succeeds: the metadata, and the end of the message.
abbrev pub IsTold : Metadata → List Sent → Type 0
IsTold md sent =
    (front : List Sent) × (o : Option Event) × (sent ≡ front ++ (finished md ∷ terminal_events o))
    × (is_ending o ≡ true)

end_stream-IsTold :
    (start end : Metadata) (provider : String) (h : Holding) (failure : Option Failure)
    → is_ending h.terminal ≡ true
    → (end_stream start end provider h failure).error ≡ none
    → IsTold end (end_stream start end provider h failure).sent
unfolding end_stream
end_stream-IsTold start end provider h (some e) ends well = absurd (ground (arith, well))
end_stream-IsTold start end provider h none ends well =
    elim (Bool-cases (not h.emitted && not (has_usable_payload h.pending))) [
      | inl bad ↦ absurd (ground (arith, well, bad))
      | inr good ↦ rw good (started start ∷ map passed h.out, h.terminal, refl, ends)
    ]

pub finish_stream-IsTold :
    (index : ℕ) (target : RouteTarget) (attempts : List Attempt) (run : Run)
    → (finish_stream index target attempts run).error ≡ none
    → IsTold
        (attempt_metadata "success" index target run.adapter_provider_id attempts)
        (finish_stream index target attempts run).sent
unfolding finish_stream
finish_stream-IsTold index target attempts run well =
    end_stream-IsTold (attempt_metadata "started" index target run.adapter_provider_id attempts)
      (attempt_metadata "success" index target run.adapter_provider_id attempts)
      run.adapter_provider_id (hold_all nothing_yet run.events) run.failure
      (hold_all-is_ending run.events nothing_yet refl) well

end_stream_provider :
    (start end : Metadata) (provider : String) (h : Holding) (failure : Option Failure)
    → (end_stream start end provider h failure).adapter_provider_id ≡ provider
unfolding end_stream
end_stream_provider start end provider h (some e) = refl
end_stream_provider start end provider h none = ground arith

pub finish_stream_provider :
    (index : ℕ) (target : RouteTarget) (attempts : List Attempt) (run : Run)
    → (finish_stream index target attempts run).adapter_provider_id ≡ run.adapter_provider_id
unfolding finish_stream
finish_stream_provider index target attempts run =
    end_stream_provider _ _ run.adapter_provider_id _ run.failure
