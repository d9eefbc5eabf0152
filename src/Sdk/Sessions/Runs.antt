-- ===== src/Sdk/Sessions/Runs.antt =====
-- The steps of a registry in any order, and the commands that they send.
use harness_control_protocol.Base.{
  ℕ, String, Bool, Option, false, List, [], ◌∷◌, ◌++◌, ok, err, Result,
}
use harness_control_protocol.Sdk.Sessions.{
  Payload, Observed, Token, Registry, Outcome, Reply, observe, lose, dispose,
}
use harness_control_protocol.Sdk.Sessions.Calls.{
  Begun, claimed, fence, open_begin, open_end, close_begin, close_end,
}

pub data Step : Type 0 where
  observed : Observed → Step
  lost : Option String → Step
  open_begun : Payload → Option String → Bool → ℕ → Step
  open_ended : Option String → String → ℕ → Reply → List Observed → Step
  close_begun : String → Bool → ℕ → Step
  close_ended : String → ℕ → Reply → Step
  call_aborted : String → Token → Step
  disposed : Step

pub data Sent : Type 0 where
  start stop : String → Sent

abbrev pub or_same : Result Outcome Registry → Registry → Registry
or_same (err _) st = st
or_same (ok next) st = next

abbrev pub begun : Result Outcome Begun → Registry → Registry
begun (ok (claimed next)) st = next
begun _ st = st

unfoldable pub step : Step → Registry → Registry
unfolding observe lose dispose fence open_begin open_end close_begin close_end
step (observed e) st = observe e st
step (lost which) st = lose which st
step (open_begun p readiness is_aborted n) st = or_same (open_begin p readiness is_aborted n st) st
step (open_ended readiness id n reply log) st = (open_end readiness id n reply log st).0
step (close_begun id is_aborted n) st = begun (close_begin id is_aborted n st) st
step (close_ended id n reply) st = (close_end id n reply st).0
step (call_aborted id token) st = fence id token st
step disposed st = dispose st

abbrev start_sent : String → Result Outcome Registry → List Sent
start_sent id (err _) = []
start_sent id (ok _) = start id ∷ []

abbrev stop_sent : String → Result Outcome Begun → List Sent
stop_sent id (ok (claimed _)) = stop id ∷ []
stop_sent id _ = []

unfoldable pub sends : Step → Registry → List Sent
unfolding open_begin close_begin
sends (open_begun p readiness is_aborted n) st =
    start_sent p.session_id (open_begin p readiness is_aborted n st)
sends (close_begun id is_aborted n) st = stop_sent id (close_begin id is_aborted n st)
sends _ st = []

-- A run, with the commands that it has sent.
unfoldable pub run : List Step → Registry → Registry × List Sent
unfolding step sends
run [] st = (st, [])
run (s ∷ steps) st = let (after, sent) = run steps (step s st) in (after, sends s st ++ sent)

unfoldable pub new_registry : Registry
new_registry = record { records = []; mutations = []; positions = []; is_disposed = false }
