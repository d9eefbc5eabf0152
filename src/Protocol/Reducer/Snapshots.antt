-- ===== src/Protocol/Reducer/Snapshots.antt =====
-- applySnapshot: a complete snapshot replaces the session's log, a partial one is applied event by
-- event.
use harness_control_protocol.Base.{
  ℕ, suc, ◌+◌, ◌-◌, ◌≤◌, drop, String, ◌≡◌, ◌⊎◌, inl, inr, refl, sym, ◌∙◌, true, List, [], ◌∷◌,
  ◌++◌, arith, nat_eq, string_eq, length, length-append, ◌==◌, if◌then◌else◌, Collation.Collation,
}
use mathlib.Core.List.{append-nil, append_assoc}
use harness_control_protocol.Base.Dict.{lookup-insert, insert_absent, insert-Every, values}
use harness_control_protocol.Protocol.Event.{
  Event, Snapshot, Tombstone, Completeness, complete, partial, events_ok, range_ok,
}
use harness_control_protocol.Protocol.Reducer.{
  Reducer, SessionEvents, SnapshotResult, apply_events, replacement, apply_snapshot,
}
use harness_control_protocol.Protocol.Reducer.Log.{
  IsRun, IsWellFormed, log, lookup_after, append-IsRun, values-append, IsNumbered,
}
use harness_control_protocol.Protocol.Reducer.Apply.{apply_event-IsWellFormed}
use harness_control_protocol.Protocol.Reducer.Delivery.{HasPrefix, Caught, apply_events-catch_up}

Completeness-cases : (c : Completeness) → (c ≡ complete) ⊎ (c ≡ partial)
Completeness-cases complete = inl refl
Completeness-cases partial = inr refl

replacement-IsRun :
    (id : String) (n : ℕ) (es : List Event) (m : SessionEvents)
    → IsRun id 1 m
    → n ≡ 1 + length m
    → events_ok id n es ≡ true
    → IsRun id 1 (replacement es m) × (values (replacement es m) ≡ values m ++ es)
unfolding replacement events_ok
replacement-IsRun id n [] m run next h = (run, sym (append-nil (values m)))
replacement-IsRun id n (e ∷ es) m run next h =
    let absent = lookup_after id 1 e.sequence m run (ground arith) in
    let grown = append-IsRun id 1 e.sequence m e run (ground arith) refl (ground arith) in
    let (run', same) =
      replacement-IsRun id (suc n) es (m ++ (e.sequence, e) ∷ []) grown
        (omega (arith, length-append m ((e.sequence, e) ∷ []))) (ground arith) in
    rw (insert_absent e.sequence e m absent)
      (run', same ∙ rw (values-append m e.sequence e) (append_assoc (values m) (e ∷ []) es))

module _ (locale : Collation) where
  apply_events-IsWellFormed :
      (es : List Event) (new old : ℕ) (t : List Tombstone) (r : Reducer)
      → IsWellFormed r
      → IsWellFormed (apply_events locale es new old t r).0
  unfolding apply_events
  apply_events-IsWellFormed [] new old t r wf = wf
  apply_events-IsWellFormed (e ∷ es) new old t r wf =
      let after = apply_event-IsWellFormed locale e r wf in
      ground (
        arith,
        after,
        apply_events-IsWellFormed es (new + 1) old t _ after,
        apply_events-IsWellFormed es new (old + 1) t _ after,
      )

  valid_complete :
      (s : Snapshot)
      → range_ok s ≡ true
      → s.completeness ≡ complete
      → events_ok s.session_id 1 s.events ≡ true
  unfolding range_ok
  valid_complete s valid c = ground arith

  replaced :
      (s : Snapshot)
      → range_ok s ≡ true
      → s.completeness ≡ complete
      → IsRun s.session_id 1 (replacement s.events [])
        × (values (replacement s.events []) ≡ s.events)
  replaced s valid c =
      replacement-IsRun s.session_id 1 s.events [] tt (omega arith) (valid_complete s valid c)

  -- A snapshot that passes the schema, complete or partial, keeps a well-formed reducer well-
  -- formed, also where applying it stops at a gap or a conflict.
  pub apply_snapshot-IsWellFormed :
      (s : Snapshot) (r : Reducer)
      → range_ok s ≡ true
      → IsWellFormed r
      → IsWellFormed (apply_snapshot locale s r).0
  unfolding apply_snapshot
  apply_snapshot-IsWellFormed s r valid wf = elim (Completeness-cases s.completeness) [
    | inl c ↦
        rw (c, apply_snapshot)
          (record {
            runs =
                insert-Every (λ id m. IsRun id 1 m) s.session_id (replacement s.events []) r wf.runs
                  (replaced s valid c).0;
          })
    | inr c ↦ rw (c, apply_snapshot) (apply_events-IsWellFormed s.events 0 0 s.tombstones r wf)
  ]

  -- A complete snapshot that passes the schema makes its events the log of its session, leaves
  -- every other log, and reports all its events as applied.
  pub apply_snapshot-complete :
      (s : Snapshot) (id : String) (r : Reducer)
      → range_ok s ≡ true
      → s.completeness ≡ complete
      → (log id (apply_snapshot locale s r).0 ≡ (if s.session_id == id then s.events else log id r))
        × ((apply_snapshot locale s r).1
            ≡ SnapshotResult.applied complete (length s.events) 0 s.tombstones)
  unfolding apply_snapshot log
  apply_snapshot-complete s id r valid c =
      ground
        (arith, (replaced s valid c).1, lookup-insert id s.session_id (replacement s.events []) r)

  -- If a reducer has the first n events of a numbered session, a partial snapshot with the
  -- session's events from a position k that is at most n is applied in full: nothing is refused,
  -- the result counts the events past n as applied and those before it as duplicates, and the
  -- reducer has the whole session.
  pub apply_snapshot-catch_up :
      (s : Snapshot) (id : String) (source : List Event) (n k : ℕ) (r : Reducer)
      → IsNumbered id 1 source
      → k ≤ n
      → HasPrefix locale id source n r
      → s.completeness ≡ partial
      → s.events ≡ drop k source
      → Caught locale id source (length source - n) (n - k) s.tombstones (apply_snapshot locale s r)
  unfolding apply_snapshot
  apply_snapshot-catch_up s id source n k r numbered le p c rest =
      rw (c, rest) (apply_events-catch_up locale id source n k s.tombstones r numbered le p)
