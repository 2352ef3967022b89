-- ===== src/Streams/Replies.antt =====
-- What the state of the loop may be: nothing shown yet, an answer, one cut short, or nothing at all.
use mathlib.Core.List.{append_assoc}
use llm_aio_gateway.Prelude.{
  ℕ, ◌≡◌, refl, sym, ap, subst, not, ◌&&◌, false, arith, ◌∙◌, ◌⊎◌, inl, inr, String, true, Option,
  none, some, List, [], ◌∷◌, ◌++◌, any, ltb, length, Sum-cases, nat_eq, string_eq,
}
use llm_aio_gateway.Routing.{RouteTarget}
use llm_aio_gateway.Outcome.{Attempt}
use llm_aio_gateway.Attempts.Defs.{Failure, Gateway}
use llm_aio_gateway.Attempts.Shape.{all_failed, all_failed-append, length-snoc}
use llm_aio_gateway.Streams.Events.{Metadata, is_visible}
use llm_aio_gateway.Streams.Opened.{
  Run, StreamFailure, Attempted, stage_of, used_status, attempt_metadata, finish_stream,
}
use llm_aio_gateway.Streams.Defs.{
  identity_eq, Progress, StreamReply, attempt_stream, record_of, advance,
}
use llm_aio_gateway.Streams.Shape.{
  passed_events, passed_events-append, shown, shown_whole, IsSilent, IsOutcome, finish_stream_lem,
  IsTold, finish_stream-IsTold, finish_stream_provider,
}

module _ {S : Type 0} (g : Gateway S Run) where
  -- A run that an upstream sent.
  abbrev pub IsRunOf : Run → Type 0
  IsRunOf run =
      (stage : String) × (t : RouteTarget) × (limit : ℕ) × (s : S) × ((g.call stage t limit s).1
        ≡ inl run)

  -- Nothing was passed on so far, and no attempt succeeded.
  -- A fallback comes after an attempt.
  abbrev pub IsFruitless : ℕ → Progress → Type 0
  IsFruitless index p =
      (all_failed p.attempts ≡ true)
      × (passed_events p.sent ≡ [])
      × ((ltb 0 index && not (ltb 0 (length p.attempts))) ≡ false)

  -- The caller was told of the success of the attempt of the index, with all attempts.
  abbrev pub IsReported : ℕ → Progress → Type 0
  IsReported index p =
      (md : Metadata) × (md.attempt_index ≡ some index)
      × (md.fallback_status ≡ some (used_status index))
      × (md.fallback_attempts ≡ some p.attempts)
      × IsTold md p.sent

  -- An attempt of the index succeeded: all that was passed on is what one run shows, and some of it
  -- is visible.
  abbrev pub IsDone : ℕ → Progress → Type 0
  IsDone index p =
      (earlier : List Attempt) × (last : Attempt) × (run : Run) × (p.attempts
        ≡ earlier ++ (last ∷ []))
      × (all_failed earlier ≡ true)
      × (last.status ≡ "success")
      × (last.index ≡ index)
      × (last.stage ≡ stage_of index)
      × ((ltb 0 index && not (ltb 0 (length earlier))) ≡ false)
      × IsReported index p
      × IsRunOf run
      × (passed_events p.sent ≡ shown_whole run)
      × (any is_visible (passed_events p.sent) ≡ true)

  -- The last attempt failed after an output, and nothing was tried after it.
  abbrev pub IsCutShort : Progress → Type 0
  IsCutShort p =
      (run : Run) × (all_failed p.attempts ≡ true)
      × IsRunOf run
      × (passed_events p.sent ≡ shown run)
      × (any is_visible (passed_events p.sent) ≡ true)

  abbrev pub IsGivenUp : Progress → Type 0
  IsGivenUp p =
      (all_failed p.attempts ≡ true)
      × (passed_events p.sent ≡ [])
      × (ltb 0 (length p.attempts) ≡ true)

  -- What a reply is, by its error.
  abbrev pub IsStreamedBy : StreamReply → Option StreamFailure → Type 0
  IsStreamedBy reply none =
      ((reply.fallback_status ≡ "unused") × IsDone 0 reply.progress)
      ⊎ ((reply.fallback_status ≡ "used")
          × ((index : ℕ) × (ltb 0 index ≡ true) × IsDone index reply.progress))
  IsStreamedBy reply (some e) =
      ((reply.fallback_status ≡ "skipped") × IsCutShort reply.progress)
      ⊎ (((reply.fallback_status ≡ "no_policy") ⊎ (reply.fallback_status ≡ "exhausted"))
          × IsGivenUp reply.progress)

  abbrev pub IsStreamed : StreamReply → Type 0
  IsStreamed reply = IsStreamedBy reply reply.error

  pub attempt_stream_lem :
      (index : ℕ) (t : RouteTarget) (limit : ℕ) (attempts : List Attempt) (s : S)
      → ((run : Run) × IsRunOf run
          × IsOutcome (shown run) (shown_whole run) (attempt_stream g index t limit attempts s).1)
        ⊎ IsSilent (attempt_stream g index t limit attempts s).1
  unfolding attempt_stream passed_events
  attempt_stream_lem index t limit attempts s =
      elim (Sum-cases (g.call (stage_of index) t limit s).1) [
        | inl (run, eq) ↦
            rw (eq, attempt_stream)
              (inl (run, (_, t, limit, s, eq), finish_stream_lem index t attempts run))
        | inr (e, eq) ↦ rw (eq, attempt_stream) (inr (_, refl, refl, refl))
      ]

  pub passed_on :
      (index : ℕ) (t : RouteTarget) (a : Attempted) (p : Progress)
      → passed_events p.sent ≡ []
      → passed_events (advance g index t a p).sent ≡ passed_events a.sent
  unfolding advance
  passed_on index t a p none_yet =
      passed_events-append p.sent a.sent ∙ ap (λ xs. xs ++ passed_events a.sent) none_yet

  opened_call :
      (index : ℕ) (t : RouteTarget) (limit : ℕ) (attempts : List Attempt) (s : S) (run : Run)
      → (g.call (stage_of index) t limit s).1 ≡ inl run
      → (attempt_stream g index t limit attempts s).1 ≡ finish_stream index t attempts run
  unfolding attempt_stream
  opened_call index t limit attempts s run eq = rw (eq, attempt_stream) refl

  failed_call :
      (index : ℕ) (t : RouteTarget) (limit : ℕ) (attempts : List Attempt) (s : S) (e : Failure)
      → (g.call (stage_of index) t limit s).1 ≡ inr e
      → (attempt_stream g index t limit attempts s).1.error
        ≡ some (record { failure = e; is_degenerate = false })
  unfolding attempt_stream
  failed_call index t limit attempts s e eq = rw (eq, attempt_stream) refl

  -- A stream that ends well was reported with its provider.
  pub attempt_stream-IsTold :
      (index : ℕ) (t : RouteTarget) (limit : ℕ) (attempts : List Attempt) (s : S)
      → (attempt_stream g index t limit attempts s).1.error ≡ none
      → let a = (attempt_stream g index t limit attempts s).1 in
        IsTold (attempt_metadata "success" index t a.adapter_provider_id attempts) a.sent
  unfolding attempt_stream
  attempt_stream-IsTold index t limit attempts s well =
      elim (Sum-cases (g.call (stage_of index) t limit s).1) [
        | inr (e, eq) ↦ absurd (ground (arith, failed_call index t limit attempts s e eq, well))
        | inl (run, eq) ↦
            let opened = opened_call index t limit attempts s run eq in
            subst
              (λ (a : Attempted).
                IsTold (attempt_metadata "success" index t a.adapter_provider_id attempts) a.sent)
              (sym opened)
              (subst
                (λ provider.
                  IsTold (attempt_metadata "success" index t provider attempts)
                    (finish_stream index t attempts run).sent)
                (sym (finish_stream_provider index t attempts run))
                (finish_stream-IsTold index t attempts run
                  (ap (λ (x : Attempted). x.error) (sym opened) ∙ well)))
      ]

  told_after :
      (index : ℕ) (t : RouteTarget) (a : Attempted) (p : Progress)
      → a.error ≡ none
      → IsTold (attempt_metadata "success" index t a.adapter_provider_id p.attempts) a.sent
      → IsReported index (advance g index t a p)
  unfolding advance attempt_metadata
  told_after index t a p well (front, o, split, ends) = (
    attempt_metadata "success" index t a.adapter_provider_id p.attempts,
    refl,
    refl,
    rw well refl,
    (p.sent ++ front, o, ap (λ xs. p.sent ++ xs) split ∙ sym (append_assoc p.sent front _), ends),
  )

  pub advance-IsDone :
      (index : ℕ) (t : RouteTarget) (a : Attempted) (p : Progress) (run : Run)
      → IsFruitless index p
      → IsRunOf run
      → a.error ≡ none
      → passed_events a.sent ≡ shown_whole run
      → any is_visible (passed_events a.sent) ≡ true
      → IsTold (attempt_metadata "success" index t a.adapter_provider_id p.attempts) a.sent
      → IsDone index (advance g index t a p)
  unfolding advance
  advance-IsDone index t a p run (failed, none_yet, late) sent_by well all_of seen told =
      let here = passed_on index t a p none_yet in
      (
        p.attempts,
        record_of g index t a.adapter_provider_id a.error,
        run,
        refl,
        failed,
        rw well refl,
        rw well refl,
        rw well refl,
        late,
        told_after index t a p well told,
        sent_by,
        here ∙ all_of,
        ap (λ es. any is_visible es) here ∙ seen,
      )

  pub advance-IsCutShort :
      (index : ℕ) (t : RouteTarget) (a : Attempted) (p : Progress) (run : Run) (e : StreamFailure)
      → IsFruitless index p
      → IsRunOf run
      → a.error ≡ some e
      → passed_events a.sent ≡ shown run
      → any is_visible (passed_events a.sent) ≡ true
      → IsCutShort (advance g index t a p)
  unfolding advance
  advance-IsCutShort index t a p run e (failed, none_yet, late) sent_by bad part seen =
      let here = passed_on index t a p none_yet in
      (
        run,
        all_failed-append p.attempts _ failed (rw bad refl),
        sent_by,
        here ∙ part,
        ap (λ es. any is_visible es) here ∙ seen,
      )

  pub advance-IsGivenUp :
      (index : ℕ) (t : RouteTarget) (a : Attempted) (p : Progress)
      → IsFruitless index p
      → IsSilent a
      → IsGivenUp (advance g index t a p)
  unfolding advance
  advance-IsGivenUp index t a p (failed, none_yet, late) (e, bad, _, silent) = (
    all_failed-append p.attempts _ failed (rw bad refl),
    passed_on index t a p none_yet ∙ silent,
    length-snoc p.attempts _,
  )

  -- What was given up may be followed by another attempt.
  pub given_up-IsFruitless : (index : ℕ) (p : Progress) → IsGivenUp p → IsFruitless index p
  given_up-IsFruitless index p (failed, none_yet, some_tried) =
      (failed, none_yet, ground (arith, some_tried))
