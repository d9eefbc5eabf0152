-- ===== src/State/Fit.antt =====
-- The snapshot that the store builds: it passes the protocol's schema, fits the payload limit, and
-- brings the reducer up to date.
use harness_control_protocol.Base.{
  ℕ, zero, suc, and_right, ◌+◌, ◌-◌, ◌≤◌, ◌<◌, String, ◌≡◌, ◌≢◌, all, inl, inr, refl, sym, ap, ◌∙◌,
  subst, Bool, true, false, ◌&&◌, some, List, [], ◌∷◌, arith, nat_eq, string_eq, length, ◌==◌, leb,
  drop, Bool-cases, drop-drop, leb→le, take_all, Collation.Collation,
}
use mathlib.Core.Bool.{false≢true}
use harness_control_protocol.Protocol.Event.{
  Event, Snapshot, complete, snapshot_bytes, Formats, reason_ok, range_ok, snapshot_ok, events_ok,
}
use harness_control_protocol.Protocol.Reducer.{Reducer, apply_snapshot}
use harness_control_protocol.Protocol.Reducer.Log.{IsNumbered, IsWellFormed}
use harness_control_protocol.Protocol.Reducer.Snapshots.{
  apply_snapshot-complete, apply_snapshot-IsWellFormed,
}
use harness_control_protocol.Protocol.Reducer.Delivery.{HasPrefix}
use harness_control_protocol.State.{StateData, events_of, next_after}
use harness_control_protocol.State.Window.{Holds, next_after-IsNumbered}
use harness_control_protocol.State.Replay.{drop-IsNumbered}
use harness_control_protocol.State.Queries.{
  payload_max_encoded_bytes, first_sequence, snapshot_of, fit_snapshot, session_snapshot,
}

events_ok-IsNumbered :
    (id : String) (n : ℕ) (es : List Event) → IsNumbered id n es → events_ok id n es ≡ true
unfolding events_ok
events_ok-IsNumbered id n [] h = refl
events_ok-IsNumbered id n (e ∷ es) h = ground (arith, h, events_ok-IsNumbered id (suc n) es h.2)

-- What every snapshot of numbered events satisfies.
snapshot_of-range_ok :
    (command id now : String) (starts all_there : Bool) (n : ℕ) (e : Event) (es : List Event)
    → IsNumbered id (suc n) (e ∷ es)
    → (starts && all_there ≡ true → n ≡ 0)
    → range_ok (snapshot_of command id now starts all_there (e ∷ es)) ≡ true
unfolding snapshot_of range_ok next_after
snapshot_of-range_ok command id now starts all_there n e es h whole = ground (
  arith,
  h,
  events_ok-IsNumbered id (suc n) (e ∷ es) h,
  next_after-IsNumbered id (suc n) e es h,
  λ (p : n ≡ 0). ap (λ i. events_ok id (suc i) (e ∷ es)) p,
)

-- What is known of a snapshot that is built from `es`: its events are the end of `es`.
record IsFit (es : List Event) (starts all_there : Bool) (s : Snapshot) : Type 0 where
  valid : range_ok s ≡ true
  small : snapshot_bytes s ≤ payload_max_encoded_bytes
  dropped : ℕ
  rest : s.events ≡ drop dropped es
  whole : s.completeness ≡ complete → (s.events ≡ es) × (starts ≡ true) × (all_there ≡ true)

complete_only_if :
    (command id now : String) (starts all_there : Bool) (es : List Event)
    → (snapshot_of command id now starts all_there es).completeness ≡ complete
    → (starts ≡ true) × (all_there ≡ true)
unfolding snapshot_of
complete_only_if command id now starts all_there es h = ground arith

snapshot_of-events :
    (command id now : String) (starts all_there : Bool) (es : List Event)
    → (snapshot_of command id now starts all_there es).events ≡ es
unfolding snapshot_of
snapshot_of-events command id now starts all_there es = refl

fit_snapshot-IsFit :
    (command id now : String) (starts all_there : Bool) (n : ℕ) (es : List Event) (s : Snapshot)
    → IsNumbered id (suc n) es
    → (starts && all_there ≡ true → n ≡ 0)
    → fit_snapshot command id now starts all_there es ≡ some s
    → IsFit es starts all_there s
unfolding fit_snapshot
fit_snapshot-IsFit command id now starts all_there n [] s h whole found = absurd (cc)
fit_snapshot-IsFit command id now starts all_there n (e ∷ es) s h whole found =
    let first = snapshot_of command id now starts all_there (e ∷ es) in
    elim (Bool-cases (leb (snapshot_bytes first) payload_max_encoded_bytes)) [
      | inl fits ↦
          let same : first ≡ s = ground arith in
          subst (IsFit (e ∷ es) starts all_there) same (record {
            valid = snapshot_of-range_ok command id now starts all_there n e es h whole;
            small = leb→le _ _ fits;
            dropped = 0;
            rest = snapshot_of-events command id now starts all_there (e ∷ es);
            whole = λ c.
                let (a, b) = complete_only_if command id now starts all_there (e ∷ es) c in
                (snapshot_of-events command id now starts all_there (e ∷ es), a, b);
          })
      | inr large ↦
          let later : fit_snapshot command id now starts false es ≡ some s = ground arith in
          let fit =
            fit_snapshot-IsFit command id now starts false (suc n) es s h.2 (λ c. ground arith)
              later in
          record {
            valid = fit.valid;
            small = fit.small;
            dropped = suc fit.dropped;
            rest = fit.rest;
            whole = λ c. absurd (false≢true (fit.whole c).2);
          }
    ]

fit_nonempty :
    (command id now : String) (starts all_there : Bool) (es : List Event) (s : Snapshot)
    → fit_snapshot command id now starts all_there es ≡ some s
    → 0 < length es
unfolding fit_snapshot
fit_nonempty command id now starts all_there [] s found = absurd (cc)
fit_nonempty command id now starts all_there (e ∷ es) s found = omega arith

starts_at_one :
    (id : String) (n : ℕ) (es : List Event)
    → IsNumbered id (suc n) es
    → 0 < length es
    → (first_sequence es == 1) ≡ true
    → n ≡ 0
unfolding first_sequence
starts_at_one id n [] h pos one = absurd (omega arith)
starts_at_one id n (e ∷ es) h pos one = ground (arith, h)

and_true : (b : Bool) → (b && true) ≡ true → b ≡ true
and_true true h = refl
and_true false h = h

fitted :
    (command id now : String) (limit : ℕ) (history : List Event) (d : StateData) (s : Snapshot)
    → 1 ≤ limit
    → Holds limit id history d
    → session_snapshot command id now d ≡ some s
    → IsFit (events_of id d) (first_sequence (events_of id d) == 1) true s
      × (s.completeness ≡ complete → s.events ≡ history)
unfolding session_snapshot
fitted command id now limit history d s pos h found =
    let n : ℕ = length history - limit in
    let es : List Event = events_of id d in
    let numbered : IsNumbered id (suc n) es = subst (IsNumbered id (suc n)) (sym h.window) (
      subst (λ i. IsNumbered id i (drop n history)) (omega arith)
        (drop-IsNumbered id 1 n history h.numbered)) in
    let some_event = fit_nonempty command id now (first_sequence es == 1) true es s found in
    let at_start = starts_at_one id n es numbered some_event in
    let fit =
      fit_snapshot-IsFit command id now (first_sequence es == 1) true n es s numbered
        (λ c. at_start (and_true _ c)) found in
    (
      fit,
      λ c.
          let (same, starts, _) = fit.whole c in
          same ∙ h.window ∙ ap (λ i. drop i history) (at_start starts),
    )

-- What a snapshot says of itself, its range apart.
record Header (command id now : String) (s : Snapshot) : Type 0 where
  command_id : s.command_id ≡ command
  session_id : s.session_id ≡ id
  generated_at : s.generated_at ≡ now
  tombstones : s.tombstones ≡ []
  reason : reason_ok s.completeness s.reason ≡ true

snapshot_of-Header :
    (command id now : String) (starts all_there : Bool) (es : List Event)
    → Header command id now (snapshot_of command id now starts all_there es)
unfolding snapshot_of reason_ok
snapshot_of-Header command id now starts all_there es = record {
  command_id = refl;
  session_id = refl;
  generated_at = refl;
  tombstones = refl;
  reason = ground arith;
}

fit_snapshot-Header :
    (command id now : String) (starts all_there : Bool) (es : List Event) (s : Snapshot)
    → fit_snapshot command id now starts all_there es ≡ some s
    → Header command id now s
unfolding fit_snapshot
fit_snapshot-Header command id now starts all_there [] s found = absurd (cc)
fit_snapshot-Header command id now starts all_there (e ∷ es) s found =
    let first = snapshot_of command id now starts all_there (e ∷ es) in
    elim (Bool-cases (leb (snapshot_bytes first) payload_max_encoded_bytes)) [
      | inl fits ↦
          let same : first ≡ s = ground arith in
          subst (Header command id now) same
            (snapshot_of-Header command id now starts all_there (e ∷ es))
      | inr large ↦
          let later : fit_snapshot command id now starts false es ≡ some s = ground arith in
          fit_snapshot-Header command id now starts false es s later
    ]

all-drop {ℓ} :
    {A : Type ℓ} (p : A → Bool) (n : ℕ) (xs : List A) → all p xs ≡ true → all p (drop n xs) ≡ true
all-drop p zero xs h = h
all-drop p (suc n) [] h = refl
all-drop p (suc n) (x ∷ xs) h = all-drop p n xs (and_right (p x) (all p xs) h)

Header-snapshot_ok :
    (formats : Formats) (command id now : String) (s : Snapshot)
    → Header command id now s
    → command ≢ ""
    → id ≢ ""
    → formats.is_timestamp now ≡ true
    → all formats.is_event s.events ≡ true
    → range_ok s ≡ true
    → snapshot_ok formats s ≡ true
unfolding snapshot_ok
Header-snapshot_ok formats command id now s h named owned timed events range =
    ground (arith, h.command_id, h.session_id, h.generated_at, h.tombstones, h.reason)

-- If the retention is at least one, the store holds the last events of a session's history, the
-- command and the session have a name, the time is a timestamp, and every event of the history has
-- passed a check of single events, then a snapshot that sessionSnapshot gives passes the protocol's
-- snapshot schema with that check for its events, has at most the encoded bytes that a payload may
-- have, and its events are an end of the history.
pub session_snapshot_lem :
    (formats : Formats) (command id now : String) (limit : ℕ) (history : List Event) (d : StateData)
    (s : Snapshot)
    → 1 ≤ limit
    → Holds limit id history d
    → command ≢ ""
    → id ≢ ""
    → formats.is_timestamp now ≡ true
    → all formats.is_event history ≡ true
    → session_snapshot command id now d ≡ some s
    → (snapshot_ok formats s ≡ true)
      × (snapshot_bytes s ≤ payload_max_encoded_bytes)
      × ((k : ℕ) × (s.events ≡ drop k history))
unfolding session_snapshot
session_snapshot_lem formats command id now limit history d s pos h named owned timed events found =
    let n : ℕ = length history - limit in
    let (fit, _) = fitted command id now limit history d s pos h found in
    let header = fit_snapshot-Header command id now _ true (events_of id d) s found in
    let rest : s.events ≡ drop (fit.dropped + n) history =
      fit.rest ∙ ap (drop fit.dropped) h.window ∙ drop-drop fit.dropped n _ history refl in
    let fine : all formats.is_event s.events ≡ true =
      rw rest (all-drop formats.is_event (fit.dropped + n) history events) in
    (
      Header-snapshot_ok formats command id now s header named owned timed fine fit.valid,
      fit.small,
      (fit.dropped + n, rest),
    )

-- If the retention is at least one, the store holds the last events of a session's history, and it
-- offers a snapshot marked complete, then a well-formed reducer that applies the snapshot has the
-- session's whole history, whatever it held before.
pub session_snapshot-recovers :
    (locale : Collation) (command id now : String) (limit : ℕ) (history : List Event)
    (d : StateData) (s : Snapshot) (r : Reducer)
    → 1 ≤ limit
    → Holds limit id history d
    → session_snapshot command id now d ≡ some s
    → s.completeness ≡ complete
    → IsWellFormed r
    → HasPrefix locale id history (length history) (apply_snapshot locale s r).0
unfolding session_snapshot
session_snapshot-recovers locale command id now limit history d s r pos h found full wf =
    let (fit, whole) = fitted command id now limit history d s pos h found in
    let owner = (fit_snapshot-Header command id now _ true (events_of id d) s found).session_id in
    record {
      well_formed = apply_snapshot-IsWellFormed locale s r fit.valid wf;
      bounded = omega arith;
      view = ground (
        arith,
        owner,
        (apply_snapshot-complete locale s id r fit.valid full).0,
        whole full,
        take_all (length history) history,
      );
    }
