-- ===== src/Accounting/Streamed.antt =====
-- The account of a request that `stream_events_with_fallbacks` answers.
use llm_aio_gateway.Prelude.{
  ℕ, zero, suc, ◌≡◌, refl, sym, ap, subst, ◌<◌, ◌∙◌, ◌⊎◌, inl, inr, String, Bool, true, false,
  Option, none, some, List, [], ◌∷◌, ◌++◌, map, length, Option-cases, arith,
}
use llm_aio_gateway.Routing.{RouteTarget}
use llm_aio_gateway.Outcome.{
  Attempt, Details, name_of, is_fallback_used, resolve_request_status, apply_outcome_to_details,
}
use llm_aio_gateway.Outcome.Laws.{hard_success_iff}
use llm_aio_gateway.Attempts.{Gateway, Reply, details_of}
use llm_aio_gateway.Attempts.Shape.{IsAnswered}
use llm_aio_gateway.Attempts.Status.{answered-IsGraded}
use llm_aio_gateway.Streams.{
  Kind, message_start, text_delta, reasoning_delta, tool_call_start, tool_call_arguments_delta,
  tool_call_done, message_delta, message_done, usage, metadata, Event, Metadata, is_done,
  terminal_events, used_status, Run, Sent, started, passed, finished, Progress, StreamReply,
  stream_events_with_fallbacks,
}
use llm_aio_gateway.Streams.Shape.{is_ending, IsTold}
use llm_aio_gateway.Streams.Replies.{IsDone, IsStreamed, IsStreamedBy}
use llm_aio_gateway.Streams.Fuel.{stream_events_with_fallbacks_lem}
use llm_aio_gateway.Accounting.Gather.{Meter, by_kind, merge_metadata, meter_event, meter_all}
use llm_aio_gateway.Accounting.Settle.{completed, Entry, settle_success, settle}
use llm_aio_gateway.Accounting.Tools.{meter_all-append}

abbrev metadata_event : Metadata → Event
metadata_event md = record {
  kind = metadata;
  text = [];
  reasoning = [];
  tool_call_id = "";
  name = "";
  arguments_delta = [];
  arguments = [];
  total_tokens = 0;
  metadata = md;
}

-- What the loop gives is a stream of events.
unfoldable pub event_of : Sent → Event
event_of (started md) = metadata_event md
event_of (finished md) = metadata_event md
event_of (passed e) = e

by_kind-status :
    (k : Kind) (e : Event) (m : Meter)
    → (by_kind k e m).stream_details.status ≡ m.stream_details.status
unfolding merge_metadata
by_kind-status metadata e m = refl
by_kind-status usage e m = refl
by_kind-status text_delta e m = refl
by_kind-status reasoning_delta e m = refl
by_kind-status tool_call_start e m = refl
by_kind-status tool_call_arguments_delta e m = refl
by_kind-status tool_call_done e m = elim (Option-cases m.current_tool) [
  | inl idle ↦ rw idle refl
  | inr (t, open_tool) ↦ rw open_tool refl
]
by_kind-status message_done e m = refl
by_kind-status message_start e m = refl
by_kind-status message_delta e m = refl

meter_all-status :
    (es : List Event) (m : Meter) → (meter_all es m).stream_details.status ≡ m.stream_details.status
unfolding meter_all meter_event
meter_all-status [] m = refl
meter_all-status (e ∷ es) m = meter_all-status es (meter_event e m) ∙ by_kind-status e.kind e m

done-details :
    (k : Kind) (e : Event) (m : Meter)
    → is_done k ≡ true
    → (by_kind k e m).stream_details ≡ m.stream_details
done-details message_done e m done = refl
done-details metadata e m done = cc
done-details usage e m done = cc
done-details text_delta e m done = cc
done-details reasoning_delta e m done = cc
done-details tool_call_start e m done = cc
done-details tool_call_arguments_delta e m done = cc
done-details tool_call_done e m done = cc
done-details message_start e m done = cc
done-details message_delta e m done = cc

ending-details :
    (o : Option Event) (m : Meter)
    → is_ending o ≡ true
    → (meter_all (map event_of (terminal_events o)) m).stream_details ≡ m.stream_details
unfolding meter_all meter_event event_of
ending-details none m ends = refl
ending-details (some e) m ends = done-details e.kind e m ends

map-append : (xs ys : List Sent) → map event_of (xs ++ ys) ≡ map event_of xs ++ map event_of ys
map-append [] ys = refl
map-append (x ∷ xs) ys = ap (λ es. event_of x ∷ es) (map-append xs ys)

-- The details after all events: those of the last metadata.
abbrev told_details : ℕ → String → List Attempt → Details → Details
told_details index status attempts d = record d {
  attempt_index = index;
  fallback_status = status;
  fallback_attempts = attempts;
}

told-details :
    (md : Metadata) (index : ℕ) (status : String) (attempts : List Attempt) (sent : List Sent)
    (m : Meter)
    → md.attempt_index ≡ some index
    → md.fallback_status ≡ some status
    → md.fallback_attempts ≡ some attempts
    → IsTold md sent
    → (d : Details) × (d.status ≡ m.stream_details.status)
      × ((meter_all (map event_of sent) m).stream_details ≡ told_details index status attempts d)
unfolding meter_all meter_event event_of merge_metadata
told-details md index status attempts sent m at used tried (front, o, split, ends) =
    let m1 = meter_all (map event_of front) m in
    let m2 = meter_event (metadata_event md) m1 in
    let last : m2.stream_details ≡ told_details index status attempts m1.stream_details =
      rw (at, used, tried) refl in
    (
      m1.stream_details,
      meter_all-status (map event_of front) m,
      ap (λ xs. (meter_all xs m).stream_details)
            (ap (λ xs. map event_of xs) split ∙ map-append front (finished md ∷ terminal_events o))
          ∙ ap (λ (x : Meter). x.stream_details)
              (meter_all-append (map event_of front)
                (map event_of (finished md ∷ terminal_events o)) m)
          ∙ ending-details o m2 ends
          ∙ last,
    )

module _ {S : Type 0} (g : Gateway S Run) where
  -- The same attempts, as a reply to a request that is not streamed.
  abbrev as_reply : ℕ → String → Progress → Reply ℕ
  as_reply index status p = record {
    attempts = p.attempts;
    fallback_status = status;
    attempt_index = index;
    result = inl 0;
  }

  done-IsAnswered :
      (index : ℕ) (p : Progress)
      → IsDone g index p
      → IsAnswered (as_reply index (used_status index) p)
  done-IsAnswered zero p (earlier, last, run, split, failed, success, at, stage, _, _, _, _, _) =
      (earlier, last, split, failed, success, at, inl (refl, stage, refl))
  done-IsAnswered (suc index) p
        (earlier, last, run, split, failed, success, at, stage, late, _, _, _, _) =
      (
        earlier,
        last,
        split,
        failed,
        success,
        at,
        inr (refl, ground (arith, late), stage, ground arith),
      )

  streamed-IsDone :
      (reply : StreamReply)
      → IsStreamedBy g reply none
      → (index : ℕ) × IsDone g index reply.progress
  streamed-IsDone reply (inl (_, done)) = (0, done)
  streamed-IsDone reply (inr (_, (index, _, done))) = (index, done)

-- A success reads only the keys that the metadata replace, and the status before.
resolve-told :
    {Out : Type 0} (d : Details) (r : Reply Out)
    → d.status ≡ ""
    → let told = record (told_details r.attempt_index r.fallback_status r.attempts d) {
      partial_output = false;
    } in
      resolve_request_status true false told ≡ resolve_request_status true false (details_of r)
unfolding resolve_request_status details_of is_fallback_used
resolve-told d r blank = rw blank refl

module _ {S : Type 0} (g : Gateway S Run) where
  -- The accounting of a streamed request that is answered, from the events that the loop over the
  -- targets gave, after any events before them that left the status of the details empty, to its log: it
  -- is a success, its status is ok if it took a single attempt, and degraded if it took more.
  pub streamed-IsOk :
      (requested : RouteTarget) (s : S) (reply : StreamReply) (m : Meter) (shutting_down : Bool)
      (username model provider : String)
      → (stream_events_with_fallbacks g requested s).1 ≡ some reply
      → reply.error ≡ none
      → m.stream_details.status ≡ ""
      → (entry : Entry) × ((settle shutting_down username model provider completed
            (meter_all (map event_of reply.progress.sent) m)).entries
          ≡ entry ∷ [])
        × (entry.success ≡ true)
        × (((entry.status ≡ "ok") × (length reply.progress.attempts ≡ 1))
            ⊎ ((entry.status ≡ "degraded") × (1 < length reply.progress.attempts)))
  unfolding settle settle_success apply_outcome_to_details
  streamed-IsOk requested s reply m shutting_down username model provider returned answered blank =
      let (made, equal, streamed) = stream_events_with_fallbacks_lem g requested s in
      let same : made ≡ reply =
        ap (λ (r : Option StreamReply). elim r [ none ↦ reply | some x ↦ x ])
          (sym equal ∙ returned) in
      let (index, done) =
        streamed-IsDone g reply
          (subst (IsStreamedBy g reply) answered (subst (IsStreamed g) same streamed)) in
      let (_, _, _, _, _, _, _, _, _, (md, at, used, tried, told), _, _, _) = done in
      let r = as_reply g index (used_status index) reply.progress in
      let (d, kept, details) =
        told-details md index (used_status index) reply.progress.attempts reply.progress.sent m at
          used tried told in
      let status_eq =
        ap (λ x. resolve_request_status true false (record x { partial_output = false })) details
        ∙ resolve-told d r (kept ∙ blank) in
      (
        _,
        refl,
        (hard_success_iff true false
            (record ((meter_all (map event_of reply.progress.sent) m).stream_details) {
              partial_output = false;
            })).0,
        elim (answered-IsGraded r (done-IsAnswered g index reply.progress done)) [
          | inl (fine, one) ↦ inl (ap name_of (status_eq ∙ fine), one)
          | inr (worse, more) ↦ inr (ap name_of (status_eq ∙ worse), more)
        ],
      )
