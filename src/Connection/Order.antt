-- ===== src/Connection/Order.antt =====
-- The order of the events on a socket.
pub mod Steps
use harness_control_protocol.Base.{
  ℕ, ◌≤◌, ◌<◌, String, ◌≡◌, refl, sym, ap, ◌∙◌, Bool, true, false, not, Option, none, some, List,
  [], ◌∷◌, ◌++◌, ◌==◌, arith, if◌then◌else◌, string_eq, nat_eq, Result, ok, err, Option-cases,
  Bool-cases, subst, ◌&&◌, inl, inr, select, leb, All,
}
use mathlib.Core.List.{append-nil}
use harness_control_protocol.Base.Dict.{Dict, lookup, insert, lookup-insert}
use harness_control_protocol.Protocol.Event.{Event}
use harness_control_protocol.Protocol.Command.{HcpError}
use harness_control_protocol.State.{StateData, Options, CommandOutcome, ack, nack}
use harness_control_protocol.State.Receipts.{get_command_receipt}
use harness_control_protocol.Connection.{
  Message, ack_message, snapshot_message, conversation_message, nack_message, event_message, Clock,
  SettledCommand, CommandRecord, pending, settled, Connection, send, send_each,
  send_event_if_connected, send_events, or_zero, answer_messages, HandlerError, plain_error,
  to_hcp_error, create_nack_payload, Execution, Reception, existing_record, mismatch_error,
}
use harness_control_protocol.Connection.Commands.{
  answer_record, receive_command, settle, resume_each, resume_waiting, fail_command,
  succeed_command, finish_command, send_parse_nack,
}
use harness_control_protocol.Connection.Runs.{
  Step, receive, finish, invalid, publish, opened, closed, apply_step, apply_steps,
}

-- The sequences of a session's events among the messages.
unfoldable pub event_sequences : String → List Message → List ℕ
event_sequences id [] = []
event_sequences id (m ∷ ms) =
    let rest = event_sequences id ms in
    elim m [ event_message e ↦ if e.session_id == id then e.sequence ∷ rest else rest | _ ↦ rest ]

-- Above the number, each above the one before it.
abbrev pub IsAscending : ℕ → List ℕ → Type 0
IsAscending low [] = Unit
IsAscending low (x ∷ xs) = (low < x) × IsAscending x xs

unfoldable pub last_or : ℕ → List ℕ → ℕ
last_or low [] = low
last_or low (x ∷ xs) = last_or x xs

IsAscending-append :
    (low : ℕ) (xs : List ℕ) (y : ℕ)
    → IsAscending low xs
    → last_or low xs < y
    → IsAscending low (xs ++ y ∷ []) × (last_or low (xs ++ y ∷ []) ≡ y)
unfolding last_or
IsAscending-append low [] y up lt = ((lt, tt), refl)
IsAscending-append low (x ∷ xs) y (first, up) lt =
    let (up', same) = IsAscending-append x xs y up lt in ((first, up'), same)

unfoldable pub is_event : Message → Bool
is_event (event_message e) = true
is_event _ = false

event_sequences-append :
    (id : String) (ms : List Message) (m : Message)
    → event_sequences id (ms ++ m ∷ []) ≡ event_sequences id ms ++ event_sequences id (m ∷ [])
unfolding event_sequences
event_sequences-append id [] m = refl
event_sequences-append id (x ∷ ms) m = ground (arith, event_sequences-append id ms m)

event_sequences_quiet :
    (id : String) (ms : List Message) (m : Message)
    → is_event m ≡ false
    → event_sequences id (ms ++ m ∷ []) ≡ event_sequences id ms
unfolding event_sequences is_event
event_sequences_quiet id [] m quiet = ground arith
event_sequences_quiet id (x ∷ ms) m quiet = ground (arith, event_sequences_quiet id ms m quiet)

-- The events of the session on the current socket ascend, up to the sequence that is noted.
pub record InOrder (id : String) (c : Connection) : Type 0 where
  pub ascending : IsAscending 0 (event_sequences id c.sent)
  pub noted : last_or 0 (event_sequences id c.sent) ≡ or_zero (lookup id c.last_sent_event)

pub InOrder-same :
    (id : String) (c c' : Connection)
    → InOrder id c
    → event_sequences id c'.sent ≡ event_sequences id c.sent
    → c'.last_sent_event ≡ c.last_sent_event
    → InOrder id c'
InOrder-same id c c' order sent last = record {
  ascending = rw sent order.ascending;
  noted = ground (arith, sent, last, order.noted);
}

pub send-InOrder :
    (id : String) (m : Message) (c : Connection)
    → is_event m ≡ false
    → InOrder id c
    → InOrder id (send m c).0
unfolding send
send-InOrder id m c quiet order =
    InOrder-same id c _ order (ground (arith, event_sequences_quiet id c.sent m quiet))
      (ground arith)

pub send_each-InOrder :
    (id : String) (ms : List Message) (c : Connection)
    → All (λ m. is_event m ≡ false) ms
    → InOrder id c
    → InOrder id (send_each ms c).0
unfolding send_each
send_each-InOrder id [] c quiet order = order
send_each-InOrder id (m ∷ ms) c (quiet, rest) order =
    let after = send-InOrder id m c quiet order in
    elim (Option-cases (send m c).1) [
      | inl sent ↦
          let same : send_each (m ∷ ms) c ≡ send_each ms (send m c).0 = ground (arith, sent) in
          subst (λ p. InOrder id p.0) (sym same) (send_each-InOrder id ms (send m c).0 rest after)
      | inr (message, failed) ↦
          let same : send_each (m ∷ ms) c ≡ ((send m c).0, some message) = ground (arith, failed) in
          subst (λ p. InOrder id p.0) (sym same) after
    ]

pub answer_messages_quiet :
    (id at : String) (duplicate : Bool) (o : CommandOutcome)
    → All (λ m. is_event m ≡ false) (answer_messages id at duplicate o)
unfolding answer_messages is_event
answer_messages_quiet id at duplicate (ack none none) = (refl, tt)
answer_messages_quiet id at duplicate (ack none (some j)) = (refl, (refl, tt))
answer_messages_quiet id at duplicate (ack (some s) none) = (refl, (refl, tt))
answer_messages_quiet id at duplicate (ack (some s) (some j)) = (refl, (refl, (refl, tt)))
answer_messages_quiet id at duplicate (nack payload) = (refl, tt)

-- A written event whose sequence is above the one that is noted keeps the order.
sent_event-InOrder :
    (id : String) (e : Event) (c : Connection)
    → InOrder id c
    → event_sequences id (c.sent ++ event_message e ∷ [])
      ≡ event_sequences id c.sent ++ event_sequences id (event_message e ∷ [])
    → or_zero (lookup e.session_id c.last_sent_event) < e.sequence
    → InOrder id (record c {
      sent = c.sent ++ event_message e ∷ [];
      last_sent_event = insert e.session_id e.sequence c.last_sent_event;
    })
unfolding event_sequences
sent_event-InOrder id e c order longer above = elim (string_eq.dec e.session_id id) [
  | yes own ↦
      let there = lookup-insert id e.session_id e.sequence c.last_sent_event in
      let list : event_sequences id (c.sent ++ event_message e ∷ [])
          ≡ event_sequences id c.sent ++ e.sequence ∷ [] =
        ground (arith, longer) in
      let (up, last) =
        IsAscending-append 0 (event_sequences id c.sent) e.sequence order.ascending
          (ground (arith, order.noted, own, above)) in
      record { ascending = rw list up; noted = rw list (last ∙ ground (arith, there)) }
  | no other ↦
      let same : event_sequences id (c.sent ++ event_message e ∷ []) ≡ event_sequences id c.sent =
        ground (arith, longer, append-nil (event_sequences id c.sent)) in
      let there = lookup-insert id e.session_id e.sequence c.last_sent_event in
      record {
        ascending = rw same order.ascending;
        noted = ground (arith, same, there, order.noted);
      }
]

pub send_event_if_connected-InOrder :
    (id : String) (e : Event) (c : Connection)
    → InOrder id c
    → InOrder id (send_event_if_connected e c)
unfolding send_event_if_connected event_sequences
send_event_if_connected-InOrder id e c order =
    elim (Bool-cases
      (c.is_open && not (leb e.sequence (or_zero (lookup e.session_id c.last_sent_event))))) [
        | inr skipped ↦
            let same : send_event_if_connected e c ≡ c = ground arith in
            subst (InOrder id) (sym same) order
        | inl sends ↦
            let c' : Connection = record c {
              sent = c.sent ++ event_message e ∷ [];
              last_sent_event = insert e.session_id e.sequence c.last_sent_event;
            } in
            let same : send_event_if_connected e c ≡ c' = ground arith in
            let longer = event_sequences-append id c.sent (event_message e) in
            subst (InOrder id) (sym same) (sent_event-InOrder id e c order longer (ground arith))
      ]

pub send_events-InOrder :
    (id : String) (es : List Event) (c : Connection) → InOrder id c → InOrder id (send_events es c)
unfolding send_events
send_events-InOrder id [] c order = order
send_events-InOrder id (e ∷ es) c order =
    send_events-InOrder id es _ (send_event_if_connected-InOrder id e c order)
