-- ===== src/State/Replay.antt =====
-- Replay: what a cursor gets, and the reducer at the other end that catches up by it.
use harness_control_protocol.Base.{
  ℕ, zero, suc, ◌+◌, ◌-◌, ◌≤◌, String, ◌≡◌, refl, sym, ap, subst, ◌∙◌, ◌||◌, Option, none, some,
  List, [], ◌∷◌, arith, nat_eq, string_eq, length, if◌then◌else◌, ltb, get_last?, drop, select,
  drop_all, length-drop, drop_step, drop-drop, get_elem?_within, Collation.Collation,
}
use harness_control_protocol.Protocol.Event.{Event}
use harness_control_protocol.Protocol.Reducer.{Reducer}
use harness_control_protocol.Protocol.Reducer.Log.{IsNumbered}
use harness_control_protocol.Protocol.Reducer.Delivery.{HasPrefix, deliver, deliver-catch_up}
use harness_control_protocol.State.{StateData, next_after}
use harness_control_protocol.State.Window.{Holds, next_after-IsNumbered}
use harness_control_protocol.State.Queries.{replay_window, after_sequence, replay_events_after}

-- Keeping the sequences above `last` of a numbered list drops its first part.
select-IsNumbered :
    (id : String) (n last : ℕ) (es : List Event)
    → IsNumbered id (suc n) es
    → select (after_sequence last) es ≡ drop (last - n) es
unfolding after_sequence
select-IsNumbered id n last [] h = sym (drop_all {A = Event} (last - n) [] (omega arith))
select-IsNumbered id n last (e ∷ es) h = ground (
  arith,
  h,
  select-IsNumbered id (suc n) last es h.2,
  λ (p : last - n ≡ suc (last - suc n)). ap (λ i. drop i (e ∷ es)) p,
  λ (p : last - n ≡ 0). ap (λ i. drop i (e ∷ es)) p,
  λ (p : last - suc n ≡ 0). ap (λ i. drop i es) p,
)

pub drop-IsNumbered :
    (id : String) (n k : ℕ) (es : List Event)
    → IsNumbered id n es
    → IsNumbered id (n + k) (drop k es)
drop-IsNumbered id n zero es h = subst (λ i. IsNumbered id i es) (omega arith) h
drop-IsNumbered id n (suc k) [] h = tt
drop-IsNumbered id n (suc k) (e ∷ es) h =
    subst (λ i. IsNumbered id i (drop k es)) (omega arith) (drop-IsNumbered id (suc n) k es h.2)

window_replay :
    (id : String) (n last : ℕ) (x : Event) (xs : List Event)
    → IsNumbered id (suc n) (x ∷ xs)
    → replay_window last (x ∷ xs) (get_last? (x ∷ xs)) ≡ (
        if ltb last n || ltb (n + suc (length xs)) last
        then none
        else some (drop (last - n) (x ∷ xs)))
unfolding replay_window next_after
window_replay id n last x xs h =
    ground
      (arith, h, select-IsNumbered id n last (x ∷ xs) h, next_after-IsNumbered id (suc n) x xs h)

-- A replay is given exactly for the cursors that lie in what is retained, and is the rest of the
-- history.
unfoldable pub replay_spec : ℕ → ℕ → List Event → Option (List Event)
replay_spec limit last [] = none
replay_spec limit last (e ∷ es) =
    if ltb last (suc (length es) - limit) || ltb (suc (length es)) last
    then none
    else some (drop last (e ∷ es))

-- If the retention is at least one and the store holds the last events of a session's history,
-- replayEventsAfter answers exactly for the cursors from the retained window's start to the end of
-- a history that is not empty, and answers the history after the cursor.
pub replay_events_after-Holds :
    (limit : ℕ) (id : String) (last : ℕ) (history : List Event) (d : StateData)
    → 1 ≤ limit
    → Holds limit id history d
    → replay_events_after id last d ≡ replay_spec limit last history
unfolding replay_events_after replay_spec
replay_events_after-Holds limit id last [] d pos h =
    rw (h.window, drop_all {A = Event} (0 - limit) [] (omega arith)) refl
replay_events_after-Holds limit id last (e ∷ es) d pos h =
    let n : ℕ = suc (length es) - limit in
    let (x, at) = get_elem?_within (e ∷ es) n (omega arith) in
    let step = drop_step n (e ∷ es) at in
    let window = h.window ∙ step in
    let numbered = subst (IsNumbered id (suc n)) step (
      subst (λ i. IsNumbered id i (drop n (e ∷ es))) (omega arith)
        (drop-IsNumbered id 1 n (e ∷ es) h.numbered)) in
    let size = length-drop (suc n) (e ∷ es) in
    rw (window, window_replay id n last x _ numbered)
      (ground (arith, size, ap (drop (last - n)) step, drop-drop (last - n) n last (e ∷ es)))

replay_is_rest :
    (limit last : ℕ) (history replayed : List Event)
    → replay_spec limit last history ≡ some replayed
    → drop last history ≡ replayed
unfolding replay_spec
replay_is_rest limit last [] replayed h = cc
replay_is_rest limit last (e ∷ es) replayed h = ground arith

-- If the retention is at least one, the store holds the last events of a session's history, and a
-- reducer has the first n events of that history, then whatever replayEventsAfter n answers brings
-- the reducer to the whole history when it is delivered.
pub replay-catch_up :
    (locale : Collation) (limit : ℕ) (id : String) (n : ℕ) (history replayed : List Event)
    (d : StateData) (r : Reducer)
    → 1 ≤ limit
    → Holds limit id history d
    → HasPrefix locale id history n r
    → replay_events_after id n d ≡ some replayed
    → HasPrefix locale id history (length history) (deliver locale id replayed r)
unfolding replay_spec
replay-catch_up locale limit id n history replayed d r pos h p given =
    let spec = sym (replay_events_after-Holds limit id n history d pos h) ∙ given in
    rw (← replay_is_rest limit n history replayed spec)
      (deliver-catch_up locale id history n n r h.numbered (omega arith) p)
