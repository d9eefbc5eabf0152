-- ===== src/Connection/Sends.antt =====
-- What sending messages and events, and answering the waiting repeats of a command, leaves as it was.
use harness_control_protocol.Base.{
  String, ◌≡◌, refl, ap, ◌∙◌, Bool, true, false, not, none, some, List, [], ◌∷◌, ◌++◌, ◌==◌, arith,
  if◌then◌else◌, string_eq, select,
}
use mathlib.Core.List.{append-nil, append_assoc}
use harness_control_protocol.Protocol.Event.{Event}
use harness_control_protocol.State.{CommandOutcome, ack, nack}
use harness_control_protocol.Connection.{
  CommandRecord, pending, Message, settled, Connection, send, send_each, send_event_if_connected,
  send_events, answer_messages, not_connected,
}
use harness_control_protocol.Connection.Commands.{answer_record, resume_each, resume_waiting}

pub send_each_open :
    (ms : List Message) (c : Connection)
    → c.is_open ≡ true
    → send_each ms c ≡ (record c { sent = c.sent ++ ms }, none)
unfolding send_each send
send_each_open [] c connected = rw (append-nil c.sent) refl
send_each_open (m ∷ ms) c connected = ground (
  arith,
  send_each_open ms (record c { sent = c.sent ++ m ∷ [] }) connected,
  append_assoc c.sent (m ∷ []) ms,
)

pub send_each-store : (ms : List Message) (c : Connection) → (send_each ms c).0.store ≡ c.store
unfolding send_each send
send_each-store [] c = refl
send_each-store (m ∷ ms) c = ground (arith, send_each-store ms (send m c).0)

pub send_events-store : (es : List Event) (c : Connection) → (send_events es c).store ≡ c.store
unfolding send_events send_event_if_connected
send_events-store [] c = refl
send_events-store (e ∷ es) c = ground (arith, send_events-store es (send_event_if_connected e c))

pub resume_each-store :
    (id at : String) (o : CommandOutcome) (ws : List String) (c : Connection)
    → (resume_each id at o ws c).store ≡ c.store
unfolding resume_each
resume_each-store id at o [] c = refl
resume_each-store id at o (w ∷ ws) c =
    let c' : Connection = (send_each (answer_messages id at true o) c).0 in
    let same : (if w == id then c' else c).store ≡ c.store =
      ground (arith, send_each-store (answer_messages id at true o) c) in
    resume_each-store id at o ws (if w == id then c' else c) ∙ same

pub resume_waiting-store :
    (id at : String) (o : CommandOutcome) (c : Connection)
    → (resume_waiting id at o c).store ≡ c.store
unfolding resume_waiting
resume_waiting-store id at o c = resume_each-store id at o c.waiting _

pub send_each_closed :
    (m : Message) (ms : List Message) (c : Connection)
    → c.is_open ≡ false
    → send_each (m ∷ ms) c ≡ (c, some not_connected)
unfolding send_each send
send_each_closed m ms c closed = ground arith

pub answer_messages_closed :
    (id at : String) (duplicate : Bool) (o : CommandOutcome) (c : Connection)
    → c.is_open ≡ false
    → send_each (answer_messages id at duplicate o) c ≡ (c, some not_connected)
unfolding answer_messages
answer_messages_closed id at duplicate (ack snapshot conversation) c closed =
    send_each_closed _ _ c closed
answer_messages_closed id at duplicate (nack payload) c closed = send_each_closed _ _ c closed

pub resume_each_closed :
    (id at : String) (o : CommandOutcome) (ws : List String) (c : Connection)
    → c.is_open ≡ false
    → resume_each id at o ws c ≡ c
unfolding resume_each
resume_each_closed id at o [] c closed = refl
resume_each_closed id at o (w ∷ ws) c closed =
    let same : (if w == id then (send_each (answer_messages id at true o) c).0 else c) ≡ c =
      ground (arith, answer_messages_closed id at true o c closed) in
    ap (resume_each id at o ws) same ∙ resume_each_closed id at o ws c closed

pub resume_waiting_closed :
    (id at : String) (o : CommandOutcome) (c : Connection)
    → c.is_open ≡ false
    → resume_waiting id at o c ≡ record c { waiting = select (λ w. not (w == id)) c.waiting }
unfolding resume_waiting
resume_waiting_closed id at o c closed = resume_each_closed id at o c.waiting _ closed

pub send_each-command_records :
    (ms : List Message) (c : Connection) → (send_each ms c).0.command_records ≡ c.command_records
unfolding send_each send
send_each-command_records [] c = refl
send_each-command_records (m ∷ ms) c = ground (arith, send_each-command_records ms (send m c).0)

pub send_events-command_records :
    (es : List Event) (c : Connection) → (send_events es c).command_records ≡ c.command_records
unfolding send_events send_event_if_connected
send_events-command_records [] c = refl
send_events-command_records (e ∷ es) c =
    ground (arith, send_events-command_records es (send_event_if_connected e c))

pub resume_each-command_records :
    (id at : String) (o : CommandOutcome) (ws : List String) (c : Connection)
    → (resume_each id at o ws c).command_records ≡ c.command_records
unfolding resume_each
resume_each-command_records id at o [] c = refl
resume_each-command_records id at o (w ∷ ws) c =
    let c' : Connection = (send_each (answer_messages id at true o) c).0 in
    let same : (if w == id then c' else c).command_records ≡ c.command_records =
      ground (arith, send_each-command_records (answer_messages id at true o) c) in
    resume_each-command_records id at o ws (if w == id then c' else c) ∙ same

pub resume_waiting-command_records :
    (id at : String) (o : CommandOutcome) (c : Connection)
    → (resume_waiting id at o c).command_records ≡ c.command_records
unfolding resume_waiting
resume_waiting-command_records id at o c = resume_each-command_records id at o c.waiting _

pub answer_record-command_records :
    (id hash at : String) (r : CommandRecord) (c : Connection)
    → (answer_record id hash at r c).0.command_records ≡ c.command_records
unfolding answer_record send
answer_record-command_records id hash at (pending h) c = ground arith
answer_record-command_records id hash at (settled s) c =
    ground (arith, send_each-command_records (answer_messages id at true s.outcome) c)
