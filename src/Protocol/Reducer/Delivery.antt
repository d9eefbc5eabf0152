-- ===== src/Protocol/Reducer/Delivery.antt =====
-- Delivery at least once: events that arrive in any order, repeated or lost, and a replay that
-- catches up.
use harness_control_protocol.Base.{
  ℕ, zero, suc, ◌+◌, ◌-◌, ◌≤◌, String, ◌≡◌, ◌≢◌, ◌⊎◌, inl, inr, ap, ◌∙◌, some, List, [], ◌∷◌, arith,
  nat_eq, string_eq, length, ◌==◌, if◌then◌else◌, get_elem?, take, drop, lt_of_get_elem?,
  get_elem?_within, get_elem?_beyond, ℕ_discrete, subst, take-suc, length-take_le, get_elem?-take,
  drop_step, drop_all, All, Collation.Collation,
}
use harness_control_protocol.Protocol.Event.{Event, Tombstone, partial, same_event_refl}
use harness_control_protocol.Protocol.Reducer.{
  Reducer, EventResult, duplicate, SnapshotResult, apply_event, apply_events,
}
use harness_control_protocol.Protocol.Reducer.Log.{
  IsWellFormed, log, IsNumbered, get_elem?-IsNumbered,
}
use harness_control_protocol.Protocol.Reducer.Apply.{
  next_log, stored_result, spec_result, spec_result_at, apply_event-result, apply_event-log,
  apply_event-IsWellFormed,
}

module _ (locale : Collation) (id : String) where
  -- The events in the order in which they are handed to applyEvent.
  pub deliver : List Event → Reducer → Reducer
  deliver [] r = r
  deliver (e ∷ es) r = deliver es (apply_event locale e r).0

  -- The state of the session is the first n events of the source.
  pub record HasPrefix (source : List Event) (n : ℕ) (r : Reducer) : Type 0 where
    pub well_formed : IsWellFormed r
    pub bounded : n ≤ length source
    pub view : log id r ≡ take n source

  -- Another session's event, or one of the source.
  abbrev pub FromSource : List Event → Event → Type 0
  FromSource source e = (e.session_id ≢ id) ⊎ ((i : ℕ) × (get_elem? source i ≡ some e))

  other_session :
      (source : List Event) (n : ℕ) (e : Event) (r : Reducer)
      → e.session_id ≢ id
      → HasPrefix source n r
      → HasPrefix source n (apply_event locale e r).0
  other_session source n e r other p = record {
    well_formed = apply_event-IsWellFormed locale e r p.well_formed;
    bounded = p.bounded;
    view = ground (arith, apply_event-log locale e id r p.well_formed);
  }

  -- The source's event at place i is appended if i is the length of the prefix, and else ignored.
  source_event :
      (source : List Event) (n i : ℕ) (e : Event) (r : Reducer)
      → IsNumbered id 1 source
      → get_elem? source i ≡ some e
      → HasPrefix source n r
      → HasPrefix source (if i == n then suc n else n) (apply_event locale e r).0
  unfolding next_log
  source_event source n i e r numbered at p = record {
    well_formed = apply_event-IsWellFormed locale e r p.well_formed;
    bounded = ground (arith, p.bounded, lt_of_get_elem? source i at);
    view = ground (
      arith,
      p.view,
      apply_event-log locale e id r p.well_formed,
      get_elem?-IsNumbered id 1 i source numbered at,
      length-take_le n source p.bounded,
      take-suc n source {a = e},
    );
  }

  -- If a reducer has the first n events of a numbered session and is given events in any order,
  -- repeated or lost, each of them from that session's source or of another session, it ends with
  -- the first n' events of the source, for some n' that is at least n.
  pub deliver-HasPrefix :
      (source : List Event) (arrivals : List Event) (n : ℕ) (r : Reducer)
      → IsNumbered id 1 source
      → All (FromSource source) arrivals
      → HasPrefix source n r
      → (n' : ℕ) × (n ≤ n') × HasPrefix source n' (deliver arrivals r)
  unfolding deliver
  deliver-HasPrefix source [] n r numbered from p = (n, omega arith, p)
  deliver-HasPrefix source (e ∷ es) n r numbered (inl other, from) p =
      deliver-HasPrefix source es n _ numbered from (other_session source n e r other p)
  deliver-HasPrefix source (e ∷ es) n r numbered (inr (i, at), from) p =
      let (n', grows, q) =
        deliver-HasPrefix source es (if i == n then suc n else n) _ numbered from
          (source_event source n i e r numbered at p) in
      (n', ground arith, q)

  -- The result for the source's event at a place that the prefix has reached.
  source_result :
      (source : List Event) (n k : ℕ) (e : Event) (r : Reducer)
      → IsNumbered id 1 source
      → get_elem? source k ≡ some e
      → k ≤ n
      → HasPrefix source n r
      → (apply_event locale e r).1 ≡ (if k == n then EventResult.applied e else duplicate e)
  unfolding stored_result
  source_result source n k e r numbered at le p =
      let (same_id, place) = get_elem?-IsNumbered id 1 k source numbered at in
      let view : log e.session_id r ≡ take n source = ap (λ i. log i r) same_id ∙ p.view in
      let result : (apply_event locale e r).1
          ≡ stored_result locale e (take n source) (get_elem? (take n source) k) =
        apply_event-result locale e r p.well_formed
        ∙ ap (spec_result locale e) view
        ∙ spec_result_at locale e k (take n source) (omega arith) in
      ground (
        arith,
        result,
        length-take_le n source p.bounded,
        get_elem?-take n k source,
        get_elem?_beyond (take n source) k,
        same_event_refl locale e,
      )

  -- The result of a replay: the numbers of applied events and of duplicates, and the whole source.
  abbrev pub Caught : List Event → ℕ → ℕ → List Tombstone → Reducer × SnapshotResult → Type 0
  Caught source new old tombstones out =
      (out.1 ≡ SnapshotResult.applied partial new old tombstones)
      × HasPrefix source (length source) out.0

  apply_events_applied :
      (x y : Event) (xs : List Event) (new old : ℕ) (t : List Tombstone) (r : Reducer)
      → (apply_event locale x r).1 ≡ EventResult.applied y
      → apply_events locale (x ∷ xs) new old t r
        ≡ apply_events locale xs (new + 1) old t (apply_event locale x r).0
  unfolding apply_events
  apply_events_applied x y xs new old t r h = rw (h, apply_events)

  apply_events_duplicate :
      (x y : Event) (xs : List Event) (new old : ℕ) (t : List Tombstone) (r : Reducer)
      → (apply_event locale x r).1 ≡ duplicate y
      → apply_events locale (x ∷ xs) new old t r
        ≡ apply_events locale xs new (old + 1) t (apply_event locale x r).0
  unfolding apply_events
  apply_events_duplicate x y xs new old t r h = rw (h, apply_events)

  apply_events_from :
      (source : List Event) (left n k new old new' old' : ℕ) (tombstones : List Tombstone)
      (r : Reducer)
      → IsNumbered id 1 source
      → k ≤ n
      → k + left ≡ length source
      → new' ≡ new + (length source - n)
      → old' ≡ old + (n - k)
      → HasPrefix source n r
      → Caught source new' old' tombstones
          (apply_events locale (drop k source) new old tombstones r)
  unfolding apply_events
  apply_events_from source zero n k new old new' old' tombstones r numbered le e a b p =
      let all_there : n ≡ length source = omega (arith, p.bounded) in
      let a' : new ≡ new' = omega arith in
      let b' : old ≡ old' = omega arith in
      rw (drop_all k source (omega arith))
        (cc (a', b'), subst (λ n. HasPrefix source n r) all_there p)
  apply_events_from source (suc left) n k new old new' old' tombstones r numbered le e a b p =
      let (x, at) = get_elem?_within source k (omega arith) in
      let xs : List Event = drop (suc k) source in
      let result = source_result source n k x r numbered at le p in
      let after = source_event source n k x r numbered at p in
      rw (drop_step k source at) (elim (ℕ_discrete k n) [
        | yes here ↦
            rw (apply_events_applied x x xs new old tombstones r (ground (arith, result))) (
              apply_events_from source left (suc n) (suc k) (new + 1) old new' old' tombstones _
                numbered (omega arith) (omega arith) (omega arith) (omega arith)
                (ground (arith, after)))
        | no past ↦
            rw (apply_events_duplicate x x xs new old tombstones r (ground (arith, result))) (
              apply_events_from source left n (suc k) new (old + 1) new' old' tombstones _ numbered
                (omega arith) (omega arith) (omega arith) (omega arith) (ground (arith, after)))
      ])

  pub apply_events-catch_up :
      (source : List Event) (n k : ℕ) (tombstones : List Tombstone) (r : Reducer)
      → IsNumbered id 1 source
      → k ≤ n
      → HasPrefix source n r
      → Caught source
          (length source - n)
          (n - k)
          tombstones
          (apply_events locale (drop k source) 0 0 tombstones r)
  apply_events-catch_up source n k tombstones r numbered le p =
      apply_events_from source (length source - k) n k 0 0 _ _ tombstones r numbered le
        (omega (arith, p.bounded)) (omega arith) (omega arith) p

  deliver_from :
      (source : List Event) (left n k : ℕ) (r : Reducer)
      → IsNumbered id 1 source
      → k ≤ n
      → k + left ≡ length source
      → HasPrefix source n r
      → HasPrefix source (length source) (deliver (drop k source) r)
  unfolding deliver
  deliver_from source zero n k r numbered le e p =
      let all_there : n ≡ length source = omega (arith, p.bounded) in
      rw (drop_all k source (omega arith)) (subst (λ n. HasPrefix source n r) all_there p)
  deliver_from source (suc left) n k r numbered le e p =
      let (x, at) = get_elem?_within source k (omega arith) in
      let after = source_event source n k x r numbered at p in
      rw (drop_step k source at) (
        deliver_from source left (if k == n then suc n else n) (suc k) _ numbered (ground arith)
          (omega arith) after)

  -- If a reducer has the first n events of a numbered session, delivering the session's events from
  -- any position k that is at most n to the end leaves it with the whole session.
  pub deliver-catch_up :
      (source : List Event) (n k : ℕ) (r : Reducer)
      → IsNumbered id 1 source
      → k ≤ n
      → HasPrefix source n r
      → HasPrefix source (length source) (deliver (drop k source) r)
  deliver-catch_up source n k r numbered le p =
      deliver_from source (length source - k) n k r numbered le (omega (arith, p.bounded)) p
