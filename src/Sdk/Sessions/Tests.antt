-- ===== src/Sdk/Sessions/Tests.antt =====
-- A session that is opened, closed and followed by another of its group, and the theorems applied to it.
use mathlib.Core.Bool.{false≢true}
use harness_control_protocol.Base.{
  ap, ◌==◌, String, ◌≡◌, ◌≤◌, refl, true, false, none, some, List, [], ◌∷◌, ok, string_eq, nat_eq,
  option_eq, ℕ_discrete,
}
use harness_control_protocol.Base.Dict.{lookup, insert, erase}
use harness_control_protocol.Sdk.Sessions.{Payload, Observed, Reply, Registry, open_token, is_ready}
use harness_control_protocol.Sdk.Sessions.Calls.{
  new_session, open_begin, opens, closes, changes_identity, configuration,
}
use harness_control_protocol.Sdk.Sessions.Runs.{
  Step, observed, open_begun, open_ended, close_begun, close_ended, start, stop, run, new_registry,
}
use harness_control_protocol.Sdk.Sessions.Groups.{Exclusive, run-Exclusive}
use harness_control_protocol.Sdk.Sessions.Lifecycle.{OpensAndCloses, open_end-close_end}
use harness_control_protocol.Sdk.Sessions.Once.{starts_of, stops_of, run-at_most_once}

abbrev payload : String → Payload
payload id = record {
  session_id = id;
  provider_instance_id = "p";
  execution_profile = some "native";
  has_first_turn = false;
  continuation_group_key = some "g";
  expected_native_reference = none;
}

abbrev configured_event : Observed
configured_event = record {
  session_id = "a";
  sequence = 1;
  event_type = "session.configured";
  execution_profile = some "native";
  native_conversation_ready = true;
  native_reference = some "thread";
  provider_instance_id = none;
  native_owner_closed = false;
}

abbrev exited_event : Observed
exited_event = record configured_event {
  sequence = 2;
  event_type = "session.exited";
  provider_instance_id = some "p";
  native_owner_closed = true;
}

abbrev reply : Observed → Reply
reply e = record { sent = ok tt; seen = e ∷ []; is_aborted = false }

-- The second session is refused at first, and opens when the first one is closed. A second close of
-- the first sends nothing.
abbrev demo : List Step
demo =
    open_begun (payload "a") none false 0
    ∷ open_ended none "a" 0 (reply configured_event) (configured_event ∷ [])
    ∷ open_begun (payload "b") none false 1
    ∷ close_begun "a" false 2
    ∷ observed exited_event
    ∷ close_ended "a" 2 (reply exited_event)
    ∷ close_begun "a" false 3
    ∷ open_begun (payload "b") none false 4
    ∷ []

demo_sends : (run demo new_registry).1 ≡ start "a" ∷ stop "a" ∷ start "b" ∷ []
unfolding run new_registry string_eq lookup insert option_eq nat_eq ℕ_discrete erase
demo_sends = refl

run-Exclusive_example : Exclusive (run demo new_registry).0
run-Exclusive_example = run-Exclusive demo

run-at_most_once_example :
    (starts_of "a" (run demo new_registry).1 ≤ 1) × (stops_of "a" (run demo new_registry).1 ≤ 1)
run-at_most_once_example = run-at_most_once demo "a"

abbrev begun_a : Registry
begun_a = record {
  records = ("a", new_session (payload "a")) ∷ [];
  mutations = ("a", open_token 0) ∷ [];
  positions = [];
  is_disposed = false;
}

begins : open_begin (payload "a") none false 0 new_registry ≡ ok begun_a
unfolding open_begin new_registry string_eq lookup insert
begins = refl

-- An event of another session comes first.
abbrev watched : Observed → Reply
watched e = record {
  sent = ok tt;
  seen = record exited_event { session_id = "b" } ∷ e ∷ [];
  is_aborted = false;
}

open_end-close_end_example :
    OpensAndCloses none
      (payload "a")
      0
      1
      (watched configured_event)
      (watched exited_event)
      (configured_event ∷ [])
      configured_event
      exited_event
      begun_a
unfolding opens closes string_eq option_eq is_ready changes_identity configuration
open_end-close_end_example =
    open_end-close_end none (payload "a") 0 1 (watched configured_event) (watched exited_event)
      (configured_event ∷ []) configured_event exited_event new_registry begun_a begins
      (record { acknowledged = refl; running = refl; event = refl })
      (
        (λ own. absurd (false≢true (ap (λ s. s == "a") own))),
        (
          (λ own. (
            λ same. false≢true (ap (λ s. s == "session.exited") same),
            λ same. false≢true (ap (λ s. s == "native.work.owner_lost") same),
          )),
          tt,
        ),
      )
      refl (record { acknowledged = refl; running = refl; event = refl })
