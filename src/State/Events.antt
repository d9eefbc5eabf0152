-- ===== src/State/Events.antt =====
-- The event log against the history of what was accepted: what appendEvent keeps, refuses and undoes.
use harness_control_protocol.Base.{
  ℕ, ◌≤◌, String, ◌≡◌, ◌≢◌, inl, inr, refl, sym, ap, ◌∙◌, Bool, true, false, Option, none, some,
  List, [], ◌∷◌, ◌++◌, arith, nat_eq, string_eq, ◌==◌, if◌then◌else◌, subst, Option-cases,
}
use mathlib.Core.List.{append-nil, append_assoc}
use harness_control_protocol.Base.Dict.{Dict, lookup, insert, lookup-insert, lookup-erase}
use harness_control_protocol.Protocol.Event.{Event}
use harness_control_protocol.State.{
  StateData, Options, Failure, events_of, or_nil, next_event_sequence, shift_to, append_unsaved,
  append_event, restore, restore_exited, mark_exited,
}
use harness_control_protocol.State.Queries.{has_session_exit, is_true}
use harness_control_protocol.State.Window.{
  Holds, Holds-same, IsNumbered-append, next_event_sequence-Holds, window-append,
}

restore-lookup {ℓ} :
    {V : Type ℓ} (k j : String) (old : Option V) (d : Dict String V)
    → lookup j (restore k old d) ≡ (if j == k then old else lookup j d)
unfolding restore
restore-lookup k j none d = lookup-erase j k d
restore-lookup k j (some v) d = lookup-insert j k v d

restore_exited-lookup :
    (k j : String) (old : Option Bool) (d : Dict String Bool)
    → is_true (lookup j (restore_exited k old d))
      ≡ (if j == k then is_true old else is_true (lookup j d))
unfolding restore_exited is_true
restore_exited-lookup k j none d = ground (arith, lookup-erase j k d)
restore_exited-lookup k j (some true) d = ground (arith, lookup-insert j k true d)
restore_exited-lookup k j (some false) d = ground (arith, lookup-erase j k d)

mark_exited-lookup :
    (e : Event) (j : String) (d : Dict String Bool)
    → j ≢ e.session_id
    → lookup j (mark_exited e d) ≡ lookup j d
unfolding mark_exited
mark_exited-lookup e j d other = ground (arith, lookup-insert j e.session_id true d)

module _ (persist : StateData → Option String) (options : Options) where
  append_event_ok :
      (e : Event) (d : StateData)
      → (append_event persist options e d).1 ≡ none
      → append_unsaved options.event_retention_per_session e d
        ≡ some (append_event persist options e d).0
  unfolding append_event
  append_event_ok e d done = ground arith

  append_unsaved_events :
      (n : ℕ) (e : Event) (d d' : StateData)
      → append_unsaved n e d ≡ some d'
      → (e.sequence ≡ next_event_sequence e.session_id d)
        × (events_of e.session_id d' ≡ shift_to n (events_of e.session_id d ++ e ∷ []))
  unfolding append_unsaved
  append_unsaved_events n e d d' h = ground (
    arith,
    lookup-insert e.session_id e.session_id (shift_to n (events_of e.session_id d ++ e ∷ []))
        d.events,
  )

  -- A successful call appends the event, which had the next sequence, to its session's history.
  pub append_event-Holds :
      (e : Event) (history : List Event) (d : StateData)
      → 1 ≤ options.event_retention_per_session
      → Holds options.event_retention_per_session e.session_id history d
      → (append_event persist options e d).1 ≡ none
      → Holds options.event_retention_per_session e.session_id
          (history ++ e ∷ [])
          (append_event persist options e d).0
  unfolding append_event
  append_event-Holds e history d pos h done =
      let n : ℕ = options.event_retention_per_session in
      let (next, events) = append_unsaved_events n e d _ (append_event_ok e d done) in
      let place = next_event_sequence-Holds n e.session_id history d pos h in
      record {
        numbered =
            IsNumbered-append e.session_id 1 history e h.numbered refl (next ∙ place ∙ omega arith);
        window = events ∙ ap (λ es. shift_to n (es ++ e ∷ [])) h.window ∙ window-append n history e;
      }

  -- appendEvent leaves the events of every other session, whether it succeeds or throws.
  pub append_event_other :
      (e : Event) (id : String) (d : StateData)
      → e.session_id ≢ id
      → events_of id (append_event persist options e d).0 ≡ events_of id d
  unfolding append_event append_unsaved
  append_event_other e id d other =
      let kept =
        shift_to options.event_retention_per_session (events_of e.session_id d ++ e ∷ []) in
      let written = insert e.session_id kept d.events in
      ground (
        arith,
        lookup-insert id e.session_id kept d.events,
        restore-lookup e.session_id id (lookup e.session_id d.events) written,
      )

  -- A call of appendEvent that throws, for a wrong sequence or because the data could not be saved,
  -- leaves every session's events and exit mark, and all receipts, as they were.
  pub append_event_atomic :
      (e : Event) (id : String) (d : StateData)
      → (append_event persist options e d).1 ≢ none
      → let d' = (append_event persist options e d).0 in
        (lookup id d'.events ≡ lookup id d.events)
        × (has_session_exit id d' ≡ has_session_exit id d)
        × (d'.command_receipts ≡ d.command_receipts)
        × (d'.local_action_receipts ≡ d.local_action_receipts)
  unfolding append_event append_unsaved has_session_exit
  append_event_atomic e id d failed =
      let kept =
        shift_to options.event_retention_per_session (events_of e.session_id d ++ e ∷ []) in
      let written = insert e.session_id kept d.events in
      ground (
        arith,
        lookup-insert id e.session_id kept d.events,
        restore-lookup e.session_id id (lookup e.session_id d.events) written,
        restore_exited-lookup e.session_id id (lookup e.session_id d.exited_sessions)
            (mark_exited e d.exited_sessions),
        mark_exited-lookup e id d.exited_sessions,
      )

  -- A history of calls, and the session's events that they accepted.
  pub run : List Event → StateData → StateData
  run [] d = d
  run (e ∷ es) d = run es (append_event persist options e d).0

  keep_if : String → Event → Option Failure → List Event → List Event
  keep_if id e none rest = if e.session_id == id then e ∷ rest else rest
  keep_if id e (some failure) rest = rest

  pub accepted : String → List Event → StateData → List Event
  unfolding keep_if
  accepted id [] d = []
  accepted id (e ∷ es) d =
      let (d', result) = append_event persist options e d in
      let rest = accepted id es d' in keep_if id e result rest

  keep_if_other :
      (id : String) (e : Event) (result : Option Failure)
      → e.session_id ≢ id
      → keep_if id e result [] ≡ []
  unfolding keep_if
  keep_if_other id e none other = ground arith
  keep_if_other id e (some failure) other = refl

  keep_if-append :
      (id : String) (e : Event) (result : Option Failure) (history rest : List Event)
      → (history ++ keep_if id e result []) ++ rest ≡ history ++ keep_if id e result rest
  unfolding keep_if
  keep_if-append id e none history rest =
      ground (arith, append_assoc history (e ∷ []) rest, append-nil history)
  keep_if-append id e (some failure) history rest = rw (append-nil history)

  step_history :
      (id : String) (e : Event) (history : List Event) (d : StateData)
      → 1 ≤ options.event_retention_per_session
      → Holds options.event_retention_per_session id history d
      → Holds options.event_retention_per_session id
          (history ++ keep_if id e (append_event persist options e d).1 [])
          (append_event persist options e d).0
  unfolding keep_if
  step_history id e history d pos h = elim (string_eq.dec e.session_id id) [
    | yes same ↦ elim (Option-cases (append_event persist options e d).1) [
      | inl done ↦
          let h' =
            subst (λ i. Holds options.event_retention_per_session i history d) (sym same) h in
          let kept : keep_if id e (append_event persist options e d).1 [] ≡ e ∷ [] = ground arith in
          rw kept (
            subst
              (λ i.
                Holds options.event_retention_per_session i (history ++ e ∷ [])
                  (append_event persist options e d).0)
              same (append_event-Holds e history d pos h' done))
      | inr (failure, failed) ↦
          let kept : keep_if id e (append_event persist options e d).1 [] ≡ [] = ground arith in
          rw (kept, append-nil history)
            (Holds-same _ id history d _ h
              (ap or_nil (append_event_atomic e id d (ground arith)).0))
    ]
    | no other ↦
        let kept : keep_if id e (append_event persist options e d).1 [] ≡ [] =
          keep_if_other id e _ other in
        rw (kept, append-nil history)
          (Holds-same _ id history d _ h (append_event_other e id d other))
  ]

  -- If the retention is at least one and the store holds the last events of a session's history,
  -- then after any list of calls of appendEvent - accepted or refused, saved or not - it holds the
  -- last events of that history with the session's accepted events added, and nothing else.
  pub run-Holds :
      (id : String) (es : List Event) (history : List Event) (d : StateData)
      → 1 ≤ options.event_retention_per_session
      → Holds options.event_retention_per_session id history d
      → Holds options.event_retention_per_session id (history ++ accepted id es d) (run es d)
  unfolding run accepted
  run-Holds id [] history d pos h = rw (append-nil history) h
  run-Holds id (e ∷ es) history d pos h =
      rw (← keep_if-append id e (append_event persist options e d).1 history _)
        (run-Holds id es _ _ pos (step_history id e history d pos h))
