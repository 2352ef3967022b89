-- ===== src/Accounting/Tools.antt =====
-- The tool calls that are gathered from a stream are those that were sent.
use mathlib.Core.List.{append_assoc, append-nil}
use llm_aio_gateway.Prelude.{
  ℕ, if◌then◌else◌, ◌==◌, string_eq, ◌≡◌, refl, sym, ap, ◌∙◌, String, Bool, true, false, not, ◌||◌,
  none, some, List, [], ◌∷◌, ◌++◌, map, all, is_nonempty, is_empty, arith,
}
use llm_aio_gateway.Outcome.Disconnect.{Raised, is_client_disconnect_error}
use llm_aio_gateway.Outcome.Laws.{hard_success_iff}
use llm_aio_gateway.Streams.{
  Kind, tool_call_start, tool_call_arguments_delta, tool_call_done, Event, no_metadata,
}
use llm_aio_gateway.Accounting.Gather.{ToolCall, Meter, meter_event, meter_all}
use llm_aio_gateway.Accounting.Settle.{
  RequestDetails, raised, Entry, Count, Account, closed_after_output, settle_success,
  settle_disconnect, settle,
}

-- A call as an upstream sends it, its arguments in pieces.
pub record SentCall : Type 0 where
  pub id : String
  pub name : String
  pub pieces : List (List ℕ)

abbrev tool_event : Kind → String → String → List ℕ → Event
tool_event k id name piece = record {
  kind = k;
  text = [];
  reasoning = [];
  tool_call_id = id;
  name = name;
  arguments_delta = piece;
  arguments = [];
  total_tokens = 0;
  metadata = no_metadata;
}

-- The first event names the call; those after it may leave its name and its id.
unfoldable pub events_of_call : SentCall → List Event
events_of_call c =
    tool_event tool_call_start c.id c.name []
    ∷ (map (λ piece. tool_event tool_call_arguments_delta "" "" piece) c.pieces
        ++ (tool_event tool_call_done "" "" [] ∷ []))

unfoldable pub events_of_calls : List SentCall → List Event
unfolding events_of_call
events_of_calls [] = []
events_of_calls (c ∷ cs) = events_of_call c ++ events_of_calls cs

unfoldable pub joined : List (List ℕ) → List ℕ
joined [] = []
joined (p ∷ ps) = p ++ joined ps

unfoldable pub call_of : SentCall → ToolCall
unfolding joined
call_of c = record { id = c.id; name = c.name; arguments = joined c.pieces }

abbrev pub is_named : SentCall → Bool
is_named c = is_nonempty c.id || is_nonempty c.name

pub meter_all-append :
    (xs ys : List Event) (m : Meter) → meter_all (xs ++ ys) m ≡ meter_all ys (meter_all xs m)
unfolding meter_all
meter_all-append [] ys m = refl
meter_all-append (x ∷ xs) ys m = meter_all-append xs ys (meter_event x m)

meter_all-pieces :
    (ps : List (List ℕ)) (t : ToolCall) (m : Meter)
    → m.current_tool ≡ some t
    → meter_all (map (λ piece. tool_event tool_call_arguments_delta "" "" piece) ps) m
      ≡ record m { current_tool = some (record t { arguments = t.arguments ++ joined ps }) }
unfolding meter_all meter_event joined
meter_all-pieces [] t m now =
    ap (λ o. record m { current_tool = o })
      (now ∙ ap (λ xs. some (record t { arguments = xs })) (sym (append-nil t.arguments)))
meter_all-pieces (p ∷ ps) t m now =
    let e = tool_event tool_call_arguments_delta "" "" p in
    let t' : ToolCall = record t { arguments = t.arguments ++ p } in
    let next : meter_event e m ≡ record m { current_tool = some t' } = rw now refl in
    ap (λ x. meter_all (map (λ piece. tool_event tool_call_arguments_delta "" "" piece) ps) x) next
    ∙ meter_all-pieces ps t' (record m { current_tool = some t' }) refl
    ∙ ap (λ xs. record m { current_tool = some (record t { arguments = xs }) })
        (append_assoc t.arguments p (joined ps))

meter_all-call :
    (c : SentCall) (m : Meter)
    → is_named c ≡ true
    → meter_all (events_of_call c) m ≡ record m {
      visible_output_started = true;
      streamed_tool_calls = m.streamed_tool_calls ++ (call_of c ∷ []);
      current_tool = none;
    }
unfolding meter_all meter_event events_of_call call_of
meter_all-call c m named =
    let t : ToolCall = record { id = c.id; name = c.name; arguments = [] } in
    let e = tool_event tool_call_start c.id c.name [] in
    let m1 : Meter = record m { visible_output_started = true; current_tool = some t } in
    let opened : meter_event e m ≡ m1 = rw named refl in
    ap
      (λ x.
        meter_all
          (map (λ piece. tool_event tool_call_arguments_delta "" "" piece) c.pieces
            ++ (tool_event tool_call_done "" "" [] ∷ []))
          x)
      opened
    ∙ meter_all-append (map (λ piece. tool_event tool_call_arguments_delta "" "" piece) c.pieces)
        (tool_event tool_call_done "" "" [] ∷ []) m1
    ∙ ap (λ x. meter_all (tool_event tool_call_done "" "" [] ∷ []) x)
        (meter_all-pieces c.pieces t m1 refl)

-- Calls that are named, each sent in pieces, are gathered as they were sent, after those before them.
pub meter_all-events_of_calls :
    (cs : List SentCall) (m : Meter)
    → all is_named cs ≡ true
    → m.current_tool ≡ none
    → ((meter_all (events_of_calls cs) m).streamed_tool_calls
        ≡ m.streamed_tool_calls ++ map call_of cs)
      × ((meter_all (events_of_calls cs) m).current_tool ≡ none)
unfolding events_of_calls meter_all
meter_all-events_of_calls [] m named idle = (sym (append-nil m.streamed_tool_calls), idle)
meter_all-events_of_calls (c ∷ cs) m named idle =
    let m1 : Meter = record m {
      visible_output_started = true;
      streamed_tool_calls = m.streamed_tool_calls ++ (call_of c ∷ []);
      current_tool = none;
    } in
    let (rest, ended) = meter_all-events_of_calls cs m1 (ground (arith, named)) refl in
    let steps : meter_all (events_of_call c ++ events_of_calls cs) m
        ≡ meter_all (events_of_calls cs) m1 =
      meter_all-append (events_of_call c) (events_of_calls cs) m
      ∙ ap (λ x. meter_all (events_of_calls cs) x) (meter_all-call c m (ground (arith, named))) in
    (
      ap (λ (x : Meter). x.streamed_tool_calls) steps
          ∙ rest
          ∙ append_assoc m.streamed_tool_calls (call_of c ∷ []) (map call_of cs),
      ap (λ (x : Meter). x.current_tool) steps ∙ ended,
    )

some_after :
    (xs : List ToolCall) (cs : List SentCall)
    → not (is_empty cs) ≡ true
    → is_empty (xs ++ map call_of cs) ≡ false
some_after [] [] h = cc
some_after [] (c ∷ cs) h = refl
some_after (x ∷ xs) cs h = refl

-- What is logged, counted and charged for a request that was served.
abbrev pub IsServed : String → ℕ → Account → Type 0
IsServed username tokens a =
    ((entry : Entry) × (a.entries ≡ entry ∷ []) × (entry.success ≡ true) × (entry.tokens ≡ tokens))
    × ((count : Count) × (a.counts ≡ count ∷ [])
        × (count.success ≡ true)
        × (count.is_rejected ≡ false)
        × (count.is_cancelled ≡ false))
    × (a.usages ≡ (if username == "legacy" then [] else (true, tokens) ∷ []))

-- A client that leaves after whole tool calls counts as served: its request is logged and counted
-- once, as a success and not as cancelled, and a user, unless it is the legacy one, is charged all
-- tokens.
pub disconnect-IsServed :
    (cs : List SentCall) (m : Meter) (shutting_down : Bool) (username model provider : String)
    (exc : Raised) (is_exception : Bool) (r : RequestDetails)
    → all is_named cs ≡ true
    → not (is_empty cs) ≡ true
    → m.current_tool ≡ none
    → is_client_disconnect_error shutting_down exc ≡ true
    → let m' = meter_all (events_of_calls cs) m in
      IsServed username m'.total_tokens
        (settle shutting_down username model provider (raised exc is_exception r) m')
unfolding settle settle_disconnect settle_success closed_after_output
disconnect-IsServed cs m shutting_down username model provider exc is_exception r named some_calls
      idle left =
    let m' = meter_all (events_of_calls cs) m in
    let (gathered, _) = meter_all-events_of_calls cs m named idle in
    let whole : closed_after_output m' ≡ true =
      rw gathered (ground (arith, some_after m.streamed_tool_calls cs some_calls)) in
    let (success, _, apart) =
      hard_success_iff true false (record m'.stream_details { client_disconnected = true }) in
    rw left (
      rw whole (
        (_, refl, success, refl),
        (_, refl, success, ground (arith, apart), ground (arith, apart)),
        ap (λ b. if username == "legacy" then [] else (b, m'.total_tokens) ∷ []) success,
      ))
