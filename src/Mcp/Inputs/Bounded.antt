-- ===== src/Mcp/Inputs/Bounded.antt =====
-- The capacity of the inputs, and which calls leave a key alone.
use harness_control_protocol.Base.{
  ℕ, ◌+◌, ◌≤◌, ◌<◌, String, ◌≡◌, sym, subst, Bool, Option, none, some, List, [], ◌∷◌, string_eq,
  ◌==◌, arith, Option-cases, Bool-cases, Result-cases, inl, inr, length, ok,
}
use harness_control_protocol.Base.Dict.{
  Dict, lookup, insert, values, NodupKeys, erase-NodupKeys, insert-NodupKeys,
}
use harness_control_protocol.Base.Weights.{
  sum_of, length-erase, length-insert, total-erase, total-insert,
}
use harness_control_protocol.Mcp.Inputs.{
  Parts, Entry, Inputs, Continuation, absent, not_text, key_text, no_inputs, remove_found, remove,
  remove_each, has_expired, expire, retain_in, retain, max_bytes, parsed, mcp_input_expires_at,
  consume_found, consume_key, consume, close_scope, close, Call, retained, consumed, scope_closed,
  all_closed, call, calls,
}

abbrev held : Dict String Entry → ℕ
held d = sum_of (λ (e : Entry). e.bytes) (values d)

-- The bytes that are counted cover those that are held, and both bounds hold.
pub record IsBounded (st : Inputs) : Type 0 where
  pub unique : NodupKeys st.pending
  pub covered : held st.pending ≤ st.bytes
  pub small : st.bytes ≤ 8388608
  pub few : length st.pending ≤ 128

remove-IsBounded : (key : String) (st : Inputs) → IsBounded st → IsBounded (remove key st)
unfolding remove remove_found
remove-IsBounded key st h = elim (Option-cases (lookup key st.pending)) [
  | inl gone ↦ rw gone h
  | inr (e, there) ↦ rw there (record {
    unique = erase-NodupKeys key st.pending h.unique;
    covered =
        omega
          (arith, h.covered, total-erase (λ (e : Entry). e.bytes) key e st.pending h.unique there);
    small = omega (arith, h.small);
    few = omega (arith, h.few, length-erase key st.pending);
  })
]

pub remove_each-IsBounded :
    (p : Entry → Bool) (rest : Dict String Entry) (st : Inputs)
    → IsBounded st
    → IsBounded (remove_each p rest st)
unfolding remove_each
remove_each-IsBounded p [] st h = h
remove_each-IsBounded p ((key, e) ∷ rest) st h = elim (Bool-cases (p e)) [
  | inl gone ↦ rw gone (remove_each-IsBounded p rest (remove key st) (remove-IsBounded key st h))
  | inr stays ↦ rw stays (remove_each-IsBounded p rest st h)
]

-- What a retained entry is.
pub record IsRetained (key : String) (st after : Inputs) : Type 0 where
  pub entry : Entry
  pub room : length st.pending < 128
  pub fits : st.bytes + entry.bytes ≤ 8388608
  pub result :
      after ≡ record { pending = insert key entry st.pending; bytes = st.bytes + entry.bytes }

pub retain_in-IsRetained :
    (parts : Parts) (scope action input key : String) (now : ℕ) (st after : Inputs)
    → retain_in parts scope action input key now st ≡ ok after
    → IsRetained key st after
unfolding retain_in max_bytes parsed mcp_input_expires_at
retain_in-IsRetained parts scope action input key now st after h =
    elim (Option-cases (parts.parse_pending input)) [
      | inl bad ↦ absurd (ground (arith, h, bad))
      | inr (pending, good) ↦
          elim (Result-cases (mcp_input_expires_at (parts.hint_of pending) (now + 300000))) [
            | inl (thrown, failed) ↦ absurd (ground (arith, h, good, failed))
            | inr (expires, at) ↦ record {
              entry = record {
                scope = scope;
                action = action;
                pending = pending;
                expires = expires;
                bytes = parts.bytes_of pending;
              };
              room = ground (arith, h, good, at);
              fits = ground (arith, h, good, at);
              result = ground (arith, h, good, at);
            }
          ]
    ]

retained-IsBounded :
    (key : String) (st after : Inputs) → IsRetained key st after → IsBounded st → IsBounded after
retained-IsBounded key st after r h = subst IsBounded (sym r.result) (record {
  unique = insert-NodupKeys key r.entry st.pending h.unique;
  covered = omega (arith, h.covered, total-insert (λ (e : Entry). e.bytes) key r.entry st.pending);
  small = r.fits;
  few = omega (arith, r.room, length-insert key r.entry st.pending);
})

pub expire-IsBounded : (now : ℕ) (st : Inputs) → IsBounded st → IsBounded (expire now st)
unfolding expire
expire-IsBounded now st h = remove_each-IsBounded (has_expired now) st.pending st h

retain-IsBounded :
    (parts : Parts) (scope action input key : String) (now : ℕ) (st : Inputs)
    → IsBounded st
    → IsBounded (retain parts scope action input key now st).0
unfolding retain
retain-IsBounded parts scope action input key now st h =
    elim (Result-cases (retain_in parts scope action input key now (expire now st))) [
      | inl (thrown, failed) ↦ rw (failed, retain) (expire-IsBounded now st h)
      | inr (after, done) ↦
          rw (done, retain)
            (retained-IsBounded key (expire now st) after
              (retain_in-IsRetained parts scope action input key now (expire now st) after done)
              (expire-IsBounded now st h))
    ]

consume_key-IsBounded :
    (parts : Parts) (scope action key : String) (responses : Option String) (st : Inputs)
    → IsBounded st
    → IsBounded (consume_key parts scope action key responses st).0
unfolding consume_key
consume_key-IsBounded parts scope action key responses st h =
    elim (Result-cases (consume_found parts scope action (lookup key st.pending) responses)) [
      | inl (thrown, failed) ↦ rw (failed, consume_key) h
      | inr (reply, done) ↦ rw (done, consume_key) (remove-IsBounded key st h)
    ]

consume-IsBounded :
    (parts : Parts) (scope action : String) (state : Continuation) (responses : Option String)
    (now : ℕ) (st : Inputs)
    → IsBounded st
    → IsBounded (consume parts scope action state responses now st).0
unfolding consume
consume-IsBounded parts scope action absent none now st h = expire-IsBounded now st h
consume-IsBounded parts scope action absent (some responses) now st h = expire-IsBounded now st h
consume-IsBounded parts scope action not_text responses now st h = expire-IsBounded now st h
consume-IsBounded parts scope action (key_text key) responses now st h =
    consume_key-IsBounded parts scope action key responses (expire now st)
      (expire-IsBounded now st h)

empty-IsBounded : IsBounded (record { pending = []; bytes = 0 })
empty-IsBounded = record {
  unique = tt;
  covered = unfold sum_of in omega arith;
  small = omega arith;
  few = omega arith;
}

call-IsBounded :
    (parts : Parts) (c : Call) (st : Inputs) → IsBounded st → IsBounded (call parts c st)
unfolding call
call-IsBounded parts (retained scope action input key now) st h =
    retain-IsBounded parts scope action input key now st h
call-IsBounded parts (consumed scope action state responses now) st h =
    consume-IsBounded parts scope action state responses now st h
call-IsBounded parts (scope_closed scope) st h =
    unfold close_scope in remove_each-IsBounded (λ e. e.scope == scope) st.pending st h
call-IsBounded parts all_closed st h = unfold close in empty-IsBounded

calls_from-IsBounded :
    (parts : Parts) (cs : List Call) (st : Inputs) → IsBounded st → IsBounded (calls parts cs st)
unfolding calls
calls_from-IsBounded parts [] st h = h
calls_from-IsBounded parts (c ∷ cs) st h =
    calls_from-IsBounded parts cs (call parts c st) (call-IsBounded parts c st h)

-- After any calls of retain, consume, closeScope and close, there are at most 128 entries with one
-- for each key, the bytes that are counted are at most 8 MiB, and they cover the bytes of the
-- entries.
pub calls-IsBounded : (parts : Parts) (cs : List Call) → IsBounded (calls parts cs no_inputs)
calls-IsBounded parts cs =
    calls_from-IsBounded parts cs no_inputs (unfold no_inputs in empty-IsBounded)
