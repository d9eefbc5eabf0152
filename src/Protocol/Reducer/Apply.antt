-- ===== src/Protocol/Reducer/Apply.antt =====
-- applyEvent: the invariant, its refinement of the abstract log, and its outcome on every branch.
use harness_control_protocol.Base.{
  ℕ, zero, suc, ◌+◌, String, ◌≡◌, refl, ap, ◌∙◌, Option, none, some, List, [], ◌∷◌, ◌++◌, arith,
  nat_eq, string_eq, length, ◌==◌, if◌then◌else◌, ◌⊎◌, inl, inr, get_elem?, Collation.Collation,
}
use harness_control_protocol.Base.Dict.{
  lookup, insert, lookup-insert, insert_absent, insert-Every, values,
}
use harness_control_protocol.Protocol.Event.{Event, same_event}
use harness_control_protocol.Protocol.Reducer.{
  Reducer, SessionEvents, EventResult, duplicate, gap, conflict, session_events, apply_event,
}
use harness_control_protocol.Protocol.Reducer.Log.{
  IsRun, IsWellFormed, log, session_events-IsRun, expected_sequence-IsRun, lookup_before,
  lookup_after, lookup-IsRun, append-IsRun, length-values, values-append,
}

module _ (locale : Collation) where
  -- What applyEvent promises, over the log alone: the next state of the session's log, and the result.
  unfoldable pub next_log : Event → List Event → List Event
  next_log e xs = if e.sequence == suc (length xs) then xs ++ e ∷ [] else xs

  unfoldable pub stored_result : Event → List Event → Option Event → EventResult
  stored_result e xs (some existing) =
      if same_event locale existing e
      then duplicate existing
      else conflict e.session_id e.sequence existing e
  stored_result e xs none =
      if e.sequence == suc (length xs)
      then EventResult.applied e
      else gap e.session_id (suc (length xs)) e.sequence

  stored : ℕ → List Event → Option Event
  stored zero xs = none
  stored (suc i) xs = get_elem? xs i

  unfoldable pub spec_result : Event → List Event → EventResult
  unfolding stored stored_result
  spec_result e xs = stored_result e xs (stored e.sequence xs)

  pub spec_result_at :
      (e : Event) (i : ℕ) (xs : List Event)
      → e.sequence ≡ suc i
      → spec_result e xs ≡ stored_result e xs (get_elem? xs i)
  unfolding spec_result
  spec_result_at e i xs h = ap (λ k. stored_result e xs (stored k xs)) h

  lookup-stored :
      (id : String) (k : ℕ) (m : SessionEvents) → IsRun id 1 m → lookup k m ≡ stored k (values m)
  unfolding stored
  lookup-stored id zero m h = lookup_before id 1 0 m h (omega arith)
  lookup-stored id (suc i) m h = ap (λ k. lookup k m) (one_more i) ∙ lookup-IsRun id 1 i m h
    where
      one_more : (j : ℕ) → suc j ≡ 1 + j
      one_more j = omega arith

  -- In a well-formed reducer, the result of applyEvent is the one that the abstract specification
  -- reads off the session's log alone: a stored sequence is a duplicate if the event is canonically
  -- the same and a conflict otherwise, the next sequence is applied, and every other one is a gap
  -- with the expected sequence.
  pub apply_event-result :
      (e : Event) (r : Reducer)
      → IsWellFormed r
      → (apply_event locale e r).1 ≡ spec_result e (log e.session_id r)
  unfolding apply_event spec_result log
  apply_event-result e r wf =
      let run = session_events-IsRun e.session_id r wf in
      let m : SessionEvents = session_events e.session_id r in
      ground (
        arith,
        lookup-stored e.session_id e.sequence m run,
        expected_sequence-IsRun e.session_id m run,
        length-values m,
      )

  -- In a well-formed reducer, applyEvent changes the log of a session as the abstract specification
  -- does: the event's own session gets it at the end if its sequence is the next one, and every
  -- other log stays.
  pub apply_event-log :
      (e : Event) (id : String) (r : Reducer)
      → IsWellFormed r
      → log id (apply_event locale e r).0
        ≡ (if e.session_id == id then next_log e (log id r) else log id r)
  unfolding apply_event next_log log
  apply_event-log e id r wf =
      let run = session_events-IsRun e.session_id r wf in
      let m : SessionEvents = session_events e.session_id r in
      ground (
        arith,
        lookup_after e.session_id 1 e.sequence m run,
        expected_sequence-IsRun e.session_id m run,
        length-values m,
        lookup-insert id e.session_id (insert e.sequence e m) r,
        insert_absent e.sequence e m,
        values-append m e.sequence e,
      )

  -- The state after an event: unchanged, or with the event at the end of its session.
  apply_event_cases :
      (e : Event) (r : Reducer)
      → IsWellFormed r
      → let m = session_events e.session_id r in
        ((apply_event locale e r).0 ≡ r)
        ⊎ (((apply_event locale e r).0 ≡ insert e.session_id (m ++ (e.sequence, e) ∷ []) r)
            × (e.sequence ≡ 1 + length m))
  unfolding apply_event
  apply_event_cases e r wf =
      let run = session_events-IsRun e.session_id r wf in
      let m : SessionEvents = session_events e.session_id r in
      ground (arith, expected_sequence-IsRun e.session_id m run, insert_absent e.sequence e m)

  -- applyEvent keeps the reducer well-formed: each session's map still has the keys 1, 2, 3, ... in
  -- order, each with the event of that sequence and session.
  pub apply_event-IsWellFormed :
      (e : Event) (r : Reducer) → IsWellFormed r → IsWellFormed (apply_event locale e r).0
  apply_event-IsWellFormed e r wf = elim (apply_event_cases e r wf) [
    | inl same ↦ rw same wf
    | inr (grown, next) ↦
        let m : SessionEvents = session_events e.session_id r in
        let run = session_events-IsRun e.session_id r wf in
        rw grown (record {
          runs =
              insert-Every (λ id m. IsRun id 1 m) e.session_id (m ++ (e.sequence, e) ∷ []) r wf.runs
                (append-IsRun e.session_id 1 e.sequence m e run next refl refl);
        })
  ]
