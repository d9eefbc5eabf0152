-- ===== src/Mcp/Inputs/OneUse.antt =====
-- A continuation is used once, by the scope and the action that it was retained for, before it expires.
use harness_control_protocol.Base.{
  ℕ, ◌<◌, String, ◌≡◌, ◌≢◌, refl, ap, sym, subst, ◌∙◌, Bool, true, false, Option, none, some, List,
  [], ◌∷◌, string_eq, ◌==◌, arith, Option-cases, Bool-cases, Result-cases, inl, inr, if◌then◌else◌,
  ok, err, All, leb,
}
use harness_control_protocol.Base.Dict.{Dict, lookup, lookup-erase, lookup-insert_ne}
use harness_control_protocol.Mcp.Inputs.{
  Parts, Entry, Inputs, foreign_continuation, Reply, Continuation, absent, not_text, key_text,
  remove_found, remove, remove_each, has_expired, expire, retain_in, retain, consume_found,
  consume_key, consume, close_scope, close, Call, retained, consumed, scope_closed, all_closed,
  call, calls,
}
use harness_control_protocol.Mcp.Inputs.Bounded.{retain_in-IsRetained}

lookup-remove :
    (j key : String) (st : Inputs)
    → lookup j (remove key st).pending ≡ (if j == key then none else lookup j st.pending)
unfolding remove remove_found
lookup-remove j key st = elim (Option-cases (lookup key st.pending)) [
  | inl gone ↦
      rw (gone, remove_found)
        (elim (string_eq.dec j key) [
          | yes same ↦ ground (arith, same, gone)
          | no other ↦ ground (arith, other)
        ])
  | inr (e, there) ↦ rw (there, remove_found) (lookup-erase j key st.pending)
]

-- An entry that a loop leaves was there, and the loop passed it by.
remove_each-left :
    (p : Entry → Bool) (j : String) (rest : Dict String Entry) (st : Inputs) {e : Entry}
    → lookup j (remove_each p rest st).pending ≡ some e
    → lookup j st.pending ≡ some e
unfolding remove_each
remove_each-left p j [] st h = h
remove_each-left p j ((k, f) ∷ rest) st {e} h = elim (Bool-cases (p f)) [
  | inl gone ↦
      let later : lookup j (remove_each p rest (remove k st)).pending ≡ some e =
        subst (λ b. lookup j (remove_each p rest (if b then remove k st else st)).pending ≡ some e)
          gone h in
      let left : lookup j (remove k st).pending ≡ some e =
        remove_each-left p j rest (remove k st) {e = e} later in
      ground (arith, left, lookup-remove j k st)
  | inr stays ↦ remove_each-left p j rest st {e = e} (
      subst (λ b. lookup j (remove_each p rest (if b then remove k st else st)).pending ≡ some e)
        stays h)
]

remove_each-passed :
    (p : Entry → Bool) (j : String) (rest : Dict String Entry) (st : Inputs) {e f : Entry}
    → lookup j (remove_each p rest st).pending ≡ some e
    → lookup j rest ≡ some f
    → p f ≡ false
unfolding remove_each lookup
remove_each-passed p j [] st h found = absurd (ground (arith, found))
remove_each-passed p j ((k, g) ∷ rest) st {e} {f} h found = elim (string_eq.dec j k) [
  | no other ↦
      remove_each-passed p j rest (if p g then remove k st else st) {e = e} {f = f} h
        (ground (arith, other, found))
  | yes same ↦ elim (Bool-cases (p g)) [
    | inr stays ↦ ground (arith, same, found, stays)
    | inl gone ↦
        let later : lookup j (remove_each p rest (remove k st)).pending ≡ some e =
          subst
            (λ b. lookup j (remove_each p rest (if b then remove k st else st)).pending ≡ some e)
            gone h in
        let left : lookup j (remove k st).pending ≡ some e =
          remove_each-left p j rest (remove k st) {e = e} later in
        absurd (ground (arith, left, same, lookup-remove j k st))
  ]
]

absent-remove_each :
    (p : Entry → Bool) (j : String) (rest : Dict String Entry) (st : Inputs)
    → lookup j st.pending ≡ none
    → lookup j (remove_each p rest st).pending ≡ none
absent-remove_each p j rest st h = elim (Option-cases (lookup j (remove_each p rest st).pending)) [
  | inl gone ↦ gone
  | inr (e, there) ↦ absurd (ground (arith, h, remove_each-left p j rest st {e = e} there))
]

absent-expire :
    (j : String) (now : ℕ) (st : Inputs)
    → lookup j st.pending ≡ none
    → lookup j (expire now st).pending ≡ none
unfolding expire
absent-expire j now st h = absent-remove_each (has_expired now) j st.pending st h

expire-live :
    (now : ℕ) (key : String) (st : Inputs) {e : Entry}
    → lookup key (expire now st).pending ≡ some e
    → (lookup key st.pending ≡ some e) × (now < e.expires)
unfolding expire
expire-live now key st {e} there =
    let before : lookup key st.pending ≡ some e =
      remove_each-left (has_expired now) key st.pending st {e = e} there in
    let passed : leb e.expires now ≡ false =
      remove_each-passed (has_expired now) key st.pending st {e = e} {f = e} there before in
    (before, ground (arith, passed))

-- What a reply needs.
pub record IsReply (parts : Parts) (scope action key : String) (responses : Option String) (now : ℕ)
    (st after : Inputs) (reply : Reply) : Type 0 where
  pub entry : Entry
  pub there : lookup key st.pending ≡ some entry
  pub same_scope : entry.scope ≡ scope
  pub same_action : entry.action ≡ action
  pub live : now < entry.expires
  pub answered : parts.answers_ok entry.pending reply.responses ≡ true
  pub same_pending : reply.pending ≡ entry.pending
  pub used : lookup key after.pending ≡ none

found_reply :
    (parts : Parts) (scope action : String) (o : Option Entry) (responses : Option String)
    {reply : Reply}
    → consume_found parts scope action o responses ≡ ok reply
    → (e : Entry) × (o ≡ some e)
      × (e.scope ≡ scope)
      × (e.action ≡ action)
      × (parts.answers_ok e.pending reply.responses ≡ true)
      × (reply.pending ≡ e.pending)
unfolding consume_found
found_reply parts scope action none responses h = absurd (ground (arith, h))
found_reply parts scope action (some e) responses h =
    (e, refl, ground (arith, h), ground (arith, h), ground (arith, h), ground (arith, h))

consume_key-IsReply :
    (parts : Parts) (scope action key : String) (responses : Option String) (st after : Inputs)
    {reply : Reply}
    → consume_key parts scope action key responses st ≡ (after, ok (some reply))
    → (consume_found parts scope action (lookup key st.pending) responses ≡ ok reply)
      × (after ≡ remove key st)
unfolding consume_key
consume_key-IsReply parts scope action key responses st after h = ground (arith, h)

-- If consume gives a reply for a key, then an entry was retained under the key for this scope and
-- this action, its expiry is later than the present time, the reply holds the entry's request with
-- answers that its schema accepts, and the key is gone afterwards.
pub consume-IsReply :
    (parts : Parts) (scope action key : String) (responses : Option String) (now : ℕ)
    (st after : Inputs) (reply : Reply)
    → consume parts scope action (key_text key) responses now st ≡ (after, ok (some reply))
    → IsReply parts scope action key responses now st after reply
unfolding consume
consume-IsReply parts scope action key responses now st after reply h =
    let kept : Inputs = expire now st in
    let (taken, left) =
      consume_key-IsReply parts scope action key responses kept after {reply = reply} h in
    let (e, there, same_scope, same_action, answered, same_pending) =
      found_reply parts scope action (lookup key kept.pending) responses {reply = reply} taken in
    let (was_there, live) = expire-live now key st {e = e} there in
    record {
      entry = e;
      there = was_there;
      same_scope = same_scope;
      same_action = same_action;
      live = live;
      answered = answered;
      same_pending = same_pending;
      used = ap (λ s. lookup key s.pending) left ∙ ground (arith, lookup-remove key key kept);
    }

-- No call of the list retains under this key, as no UUID comes twice.
abbrev pub RetainsOther : String → Call → Type 0
RetainsOther key (retained scope action input k now) = k ≢ key
RetainsOther key _ = Unit

absent-retain :
    (parts : Parts) (scope action input k : String) (now : ℕ) (st : Inputs) (key : String)
    → k ≢ key
    → lookup key st.pending ≡ none
    → lookup key (retain parts scope action input k now st).0.pending ≡ none
unfolding retain
absent-retain parts scope action input k now st key other h =
    let kept : lookup key (expire now st).pending ≡ none = absent-expire key now st h in
    elim (Result-cases (retain_in parts scope action input k now (expire now st))) [
      | inl (thrown, failed) ↦ rw (failed, retain) kept
      | inr (after, done) ↦
          let r = retain_in-IsRetained parts scope action input k now (expire now st) after done in
          rw (done, retain)
            (ap (λ s. lookup key s.pending) r.result
              ∙ lookup-insert_ne key k r.entry (expire now st).pending (λ same. other (sym same))
              ∙ kept)
    ]

absent-consume :
    (parts : Parts) (scope action : String) (state : Continuation) (responses : Option String)
    (now : ℕ) (st : Inputs) (key : String)
    → lookup key st.pending ≡ none
    → lookup key (consume parts scope action state responses now st).0.pending ≡ none
unfolding consume consume_key
absent-consume parts scope action absent none now st key h = absent-expire key now st h
absent-consume parts scope action absent (some responses) now st key h = absent-expire key now st h
absent-consume parts scope action not_text responses now st key h = absent-expire key now st h
absent-consume parts scope action (key_text k) responses now st key h =
    let kept : lookup key (expire now st).pending ≡ none = absent-expire key now st h in
    elim (Result-cases
      (consume_found parts scope action (lookup k (expire now st).pending) responses)) [
        | inl (thrown, failed) ↦ rw (failed, consume_key) kept
        | inr (reply, done) ↦
            rw (done, consume_key) (ground (arith, kept, lookup-remove key k (expire now st)))
      ]

absent-call :
    (parts : Parts) (c : Call) (st : Inputs) (key : String)
    → RetainsOther key c
    → lookup key st.pending ≡ none
    → lookup key (call parts c st).pending ≡ none
unfolding call close_scope close
absent-call parts (retained scope action input k now) st key other h =
    absent-retain parts scope action input k now st key other h
absent-call parts (consumed scope action state responses now) st key other h =
    absent-consume parts scope action state responses now st key h
absent-call parts (scope_closed scope) st key other h =
    absent-remove_each (λ e. e.scope == scope) key st.pending st h
absent-call parts all_closed st key other h = unfold lookup in refl

absent-calls :
    (parts : Parts) (cs : List Call) (st : Inputs) (key : String)
    → All (RetainsOther key) cs
    → lookup key st.pending ≡ none
    → lookup key (calls parts cs st).pending ≡ none
unfolding calls
absent-calls parts [] st key others h = h
absent-calls parts (c ∷ cs) st key (other, others) h =
    absent-calls parts cs (call parts c st) key others (absent-call parts c st key other h)

-- If consume gives a reply for a key, and no call after it retains under the same key, then every
-- later consume of that key throws that the continuation is expired, consumed or foreign, whatever
-- calls stand between and whatever scope, action and answers it has.
pub consume-consume :
    (parts : Parts) (scope action key : String) (responses : Option String) (now : ℕ)
    (st after : Inputs) (reply : Reply) (cs : List Call) (scope' action' : String)
    (responses' : Option String) (later : ℕ)
    → consume parts scope action (key_text key) responses now st ≡ (after, ok (some reply))
    → All (RetainsOther key) cs
    → (consume parts scope' action' (key_text key) responses' later (calls parts cs after)).1
      ≡ err foreign_continuation
consume-consume parts scope action key responses now st after reply cs scope' action' responses'
      later h others =
    let used = (consume-IsReply parts scope action key responses now st after reply h).used in
    let gone : lookup key (expire later (calls parts cs after)).pending ≡ none =
      absent-expire key later (calls parts cs after)
        (absent-calls parts cs after key others used) in
    unfold consume consume_key consume_found in rw (gone, consume_key) refl
