-- ===== src/Protocol/Command.antt =====
-- The acknowledgements of commands (packages/hcp-protocol/src/index.ts).
use harness_control_protocol.Base.{String, Bool}

pub record HcpError : Type 0 where
  pub code : String
  pub message : String
  pub retryable : Bool

pub record NackPayload : Type 0 where
  pub command_id : String
  pub rejected_at : String
  pub error : HcpError

pub record AckPayload : Type 0 where
  pub command_id : String
  pub accepted_at : String
  pub duplicate : Bool
