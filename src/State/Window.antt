-- ===== src/State/Window.antt =====
-- A session's events in the store as a window on its history: its end, of the length that is retained.
use harness_control_protocol.Base.{
  ℕ, suc, ◌+◌, ◌-◌, ◌≤◌, String, ◌≡◌, refl, sym, ap, ◌∙◌, List, [], ◌∷◌, ◌++◌, arith, nat_eq,
  string_eq, length, get_last?, drop, length-append, length-drop, drop-append, drop-drop,
  get_last?-drop, drop_all,
}
use harness_control_protocol.Protocol.Event.{Event}
use harness_control_protocol.Protocol.Reducer.Log.{IsNumbered}
use harness_control_protocol.State.{StateData, events_of, next_after, next_event_sequence, shift_to}

-- The store holds the last `limit` events of the session's history.
pub record Holds (limit : ℕ) (id : String) (history : List Event) (d : StateData) : Type 0 where
  pub numbered : IsNumbered id 1 history
  pub window : events_of id d ≡ drop (length history - limit) history

pub Holds-same :
    (limit : ℕ) (id : String) (history : List Event) (d d' : StateData)
    → Holds limit id history d
    → events_of id d' ≡ events_of id d
    → Holds limit id history d'
Holds-same limit id history d d' h same = record { numbered = h.numbered; window = same ∙ h.window }

pub IsNumbered-append :
    (id : String) (n : ℕ) (es : List Event) (e : Event)
    → IsNumbered id n es
    → e.session_id ≡ id
    → e.sequence ≡ n + length es
    → IsNumbered id n (es ++ e ∷ [])
IsNumbered-append id n [] e h s q = (s, omega arith, tt)
IsNumbered-append id n (x ∷ es) e (a, b, h) s q =
    (a, b, IsNumbered-append id (suc n) es e h s (omega arith))

pub next_after-IsNumbered :
    (id : String) (n : ℕ) (e : Event) (es : List Event)
    → IsNumbered id n (e ∷ es)
    → next_after (get_last? (e ∷ es)) ≡ n + suc (length es)
unfolding next_after
next_after-IsNumbered id n e [] h = omega arith
next_after-IsNumbered id n e (x ∷ es) h = omega (arith, next_after-IsNumbered id (suc n) x es h.2)

pub next_event_sequence-Holds :
    (limit : ℕ) (id : String) (history : List Event) (d : StateData)
    → 1 ≤ limit
    → Holds limit id history d
    → next_event_sequence id d ≡ suc (length history)
unfolding next_event_sequence
next_event_sequence-Holds limit id [] d pos h =
    rw (h.window, drop_all {A = Event} (0 - limit) [] (omega arith)) refl
next_event_sequence-Holds limit id (e ∷ es) d pos h =
    let n : ℕ = suc (length es) - limit in
    rw (h.window, get_last?-drop n (e ∷ es) (omega arith))
      (next_after-IsNumbered id 1 e es h.numbered ∙ omega arith)

shift_to-drop : (limit : ℕ) (es : List Event) → shift_to limit es ≡ drop (length es - limit) es
unfolding shift_to
shift_to-drop limit [] = sym (drop_all (0 - limit) [] (omega arith))
shift_to-drop limit (e ∷ es) = ground (
  arith,
  shift_to-drop limit es,
  λ (h : suc (length es) - limit ≡ suc (length es - limit)). ap (λ i. drop i (e ∷ es)) h,
  λ (h : suc (length es) - limit ≡ 0). ap (λ i. drop i (e ∷ es)) h,
)

-- Appending to the window and shifting gives the window of the longer history.
pub window-append :
    (limit : ℕ) (history : List Event) (e : Event)
    → shift_to limit (drop (length history - limit) history ++ e ∷ [])
      ≡ drop (length (history ++ e ∷ []) - limit) (history ++ e ∷ [])
window-append limit history e =
    let n : ℕ = length history - limit in
    let longer : List Event = history ++ e ∷ [] in
    let same = drop-append n history (e ∷ []) (omega arith) in
    let size = length-append history (e ∷ []) in
    rw (← same) (
      shift_to-drop limit (drop n longer)
      ∙ drop-drop _ n (length longer - limit) longer (omega (arith, length-drop n longer, size)))
