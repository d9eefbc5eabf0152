-- ===== src/Mcp/Inputs/Tests.antt =====
-- A continuation that is retained, answered and tried again, and the theorems applied to it.
use harness_control_protocol.Base.{
  String, ◌≡◌, ◌≢◌, refl, differ, true, none, some, List, [], ◌∷◌, ok, err, string_eq, nat_eq,
}
use harness_control_protocol.Base.Dict.{lookup, insert, erase}
use harness_control_protocol.Mcp.Inputs.{
  Parts, hint_at, Entry, Inputs, no_inputs, Reply, key_text, retain, consume, Call, retained,
  scope_closed, calls, foreign_continuation,
}
use harness_control_protocol.Mcp.Inputs.Bounded.{IsBounded, calls-IsBounded}
use harness_control_protocol.Mcp.Inputs.OneUse.{IsReply, consume-IsReply, consume-consume}

abbrev parts : Parts
parts = record {
  parse_pending = λ input. some input;
  bytes_of = λ pending. 100;
  hint_of = λ pending. hint_at 60;
  answers_ok = λ pending responses. true;
}

abbrev entry : Entry
entry = record { scope = "s"; action = "a"; pending = "input"; expires = 60; bytes = 100 }

abbrev waiting : Inputs
waiting = record { pending = ("k", entry) ∷ []; bytes = 100 }

abbrev reply : Reply
reply = record { pending = "input"; responses = "{}" }

retain_once : retain parts "s" "a" "input" "k" 5 no_inputs ≡ (waiting, ok "k")
unfolding retain no_inputs insert
retain_once = refl

consume_once :
    consume parts "s" "a" (key_text "k") (some "{}") 6 waiting ≡ (no_inputs, ok (some reply))
unfolding consume no_inputs lookup erase string_eq
consume_once = refl

consume-IsReply_example : IsReply parts "s" "a" "k" (some "{}") 6 waiting no_inputs reply
consume-IsReply_example =
    consume-IsReply parts "s" "a" "k" (some "{}") 6 waiting no_inputs reply consume_once

abbrev others : List Call
others = retained "s" "a" "input" "j" 7 ∷ scope_closed "t" ∷ []

j_is_not_k : ◌≢◌ {A = String} "j" "k"
unfolding string_eq
j_is_not_k = differ {A = String} "j" "k" refl

consume-consume_example :
    (consume parts "s" "a" (key_text "k") none 9 (calls parts others no_inputs)).1
    ≡ err foreign_continuation
consume-consume_example =
    consume-consume parts "s" "a" "k" (some "{}") 6 waiting no_inputs reply others "s" "a" none 9
      consume_once (j_is_not_k, (tt, tt))

calls-IsBounded_example : IsBounded (calls parts others no_inputs)
calls-IsBounded_example = calls-IsBounded parts others
