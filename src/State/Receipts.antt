-- ===== src/State/Receipts.antt =====
-- packages/hcp-runner/src/state/index.ts: the receipts of settled commands and local actions, which
-- answer a repeated command until their retention has run out.
use harness_control_protocol.Base.{
  ℕ, ◌+◌, ◌≤◌, String, ◌≡◌, Bool, not, ◌||◌, Option, none, some, arith, string_eq, ltb, any, true,
  List, [], ◌∷◌, ◌==◌, Result, ok, throw_if, ◌>>◌, if◌then◌else◌,
}
use harness_control_protocol.Base.Dict.{
  Dict, lookup, insert, retain, values, lookup-insert, lookup-retain, NodupKeys, insert-NodupKeys,
  retain-NodupKeys,
}
use harness_control_protocol.State.{
  StateData, Options, CommandReceipt, LocalActionReceipt, or_nil, events_of,
}
use harness_control_protocol.State.Queries.{is_true, has_session_exit}
use harness_control_protocol.Protocol.Event.{Event}

-- new Date(settledAt).getTime() < now - retention, with the subtraction moved to the other side
unfoldable pub is_expired : ℕ → ℕ → ℕ → Bool
is_expired retention now settled_at = ltb (settled_at + retention) now

unfoldable pub command_live : ℕ → ℕ → CommandReceipt → Bool
unfolding is_expired
command_live retention now r = not (is_expired retention now r.settled_at)

unfoldable pub action_live : ℕ → ℕ → LocalActionReceipt → Bool
unfolding is_expired
action_live retention now r = not (is_expired retention now r.settled_at)

-- #pruneExpiredReceipts: the data, and whether anything was deleted.
unfoldable pub prune_expired_receipts : Options → ℕ → StateData → StateData × Bool
unfolding command_live action_live
prune_expired_receipts o now d =
    let commands = command_live o.receipt_retention_ms now in
    let actions = action_live o.receipt_retention_ms now in
    (
      record d {
        command_receipts = retain commands d.command_receipts;
        local_action_receipts = retain actions d.local_action_receipts;
      },
      any (λ r. not (commands r)) (values d.command_receipts)
          || any (λ r. not (actions r)) (values d.local_action_receipts),
    )

unfoldable pub is_exit : Event → Bool
is_exit e = e.event_type == "session.exited"

-- The constructor's loop: a session with a session.exited event in its log is marked.
exits_found : Dict String (List Event) → Dict String Bool → Dict String Bool
exits_found [] exited = exited
exits_found ((id, es) ∷ d) exited =
    exits_found d (if any is_exit es then insert id true exited else exited)

-- The constructor, with the data that was read: the data that it keeps. An option that is not
-- positive is refused.
unfoldable pub open_store : Options → ℕ → StateData → Result String StateData
unfolding exits_found prune_expired_receipts
open_store o now d = do
  throw_if (ltb o.event_retention_per_session 1)
      "eventRetentionPerSession must be a positive integer."
  throw_if (ltb o.receipt_retention_ms 1) "receiptRetentionMs must be positive."
  let marked = record d { exited_sessions = exits_found d.events d.exited_sessions }
  ok (prune_expired_receipts o now marked).0

exits_found-lookup :
    (id : String) (d : Dict String (List Event)) (exited : Dict String Bool)
    → NodupKeys d
    → is_true (lookup id (exits_found d exited))
      ≡ (is_true (lookup id exited) || any is_exit (or_nil (lookup id d)))
unfolding exits_found is_true lookup
exits_found-lookup id [] exited u = ground arith
exits_found-lookup id ((j, es) ∷ d) exited (absent, u) = ground (
  arith,
  exits_found-lookup id d (if any is_exit es then insert j true exited else exited) u,
  lookup-insert id j true exited,
)

-- If the sessions of the data are distinct, a store that opens knows as exited the sessions that
-- were marked so and those with an exit event in their log, and no other, and keeps the log.
open_store-has_session_exit :
    (o : Options) (now : ℕ) (id : String) (d d' : StateData)
    → NodupKeys d.events
    → open_store o now d ≡ ok d'
    → (has_session_exit id d' ≡ (has_session_exit id d || any is_exit (events_of id d)))
      × (d'.events ≡ d.events)
unfolding open_store has_session_exit
open_store-has_session_exit o now id d d' u h =
    ground (arith, exits_found-lookup id d.events d.exited_sessions u)

module _ (persist : StateData → Option String) (o : Options) where
  -- The data, and what the call throws.
  save : StateData → StateData × Option String
  save d = (d, persist d)

  -- A read prunes first, and saves the data if that deleted anything; it answers unless that throws.
  unfoldable pub get_command_receipt :
      String → ℕ → StateData → StateData × Option String × Option CommandReceipt
  unfolding prune_expired_receipts
  get_command_receipt id now d =
      let (d', changed) = prune_expired_receipts o now d in
      (d', (if changed then persist d' else none), lookup id d'.command_receipts)

  unfoldable pub set_command_receipt :
      String → CommandReceipt → ℕ → StateData → StateData × Option String
  unfolding prune_expired_receipts save
  set_command_receipt id receipt now d =
      save
        (prune_expired_receipts o now
          (record d { command_receipts = insert id receipt d.command_receipts })).0

  unfoldable pub get_local_action_receipt :
      String → ℕ → StateData → StateData × Option String × Option LocalActionReceipt
  unfolding prune_expired_receipts
  get_local_action_receipt id now d =
      let (d', changed) = prune_expired_receipts o now d in
      (d', (if changed then persist d' else none), lookup id d'.local_action_receipts)

  unfoldable pub set_local_action_receipt :
      String → LocalActionReceipt → ℕ → StateData → StateData × Option String
  unfolding prune_expired_receipts save
  set_local_action_receipt id receipt now d =
      save
        (prune_expired_receipts o now
          (record d { local_action_receipts = insert id receipt d.local_action_receipts })).0

  pub set_command_receipt-NodupKeys :
      (id : String) (receipt : CommandReceipt) (now : ℕ) (d : StateData)
      → NodupKeys d.command_receipts
      → NodupKeys (set_command_receipt id receipt now d).0.command_receipts
  unfolding set_command_receipt
  set_command_receipt-NodupKeys id receipt now d u =
      retain-NodupKeys (command_live o.receipt_retention_ms now)
        (insert id receipt d.command_receipts) (insert-NodupKeys id receipt d.command_receipts u)

  -- A store whose data can be written does not throw.
  pub set_command_receipt_saved :
      (id : String) (receipt : CommandReceipt) (now : ℕ) (d : StateData)
      → ((d : StateData) → persist d ≡ none)
      → (set_command_receipt id receipt now d).1 ≡ none
  unfolding set_command_receipt
  set_command_receipt_saved id receipt now d written = written _

  pub get_command_receipt_saved :
      (id : String) (now : ℕ) (d : StateData)
      → ((d : StateData) → persist d ≡ none)
      → (get_command_receipt id now d).1 ≡ none
  unfolding get_command_receipt
  get_command_receipt_saved id now d written =
      ground (arith, written (prune_expired_receipts o now d).0)

  -- If the receipts have distinct keys, a receipt that was written answers a later read of its
  -- command exactly until its retention has run out.
  pub get-set_command_receipt :
      (id : String) (receipt : CommandReceipt) (written read : ℕ) (d : StateData)
      → NodupKeys d.command_receipts
      → written ≤ read
      → (get_command_receipt id read (set_command_receipt id receipt written d).0).2
        ≡ (if ltb (receipt.settled_at + o.receipt_retention_ms) read then none else some receipt)
  unfolding get_command_receipt set_command_receipt
  get-set_command_receipt id receipt written read d u le =
      let stored = insert id receipt d.command_receipts in
      let stored_u = insert-NodupKeys id receipt d.command_receipts u in
      let p = command_live o.receipt_retention_ms written in
      let q = command_live o.receipt_retention_ms read in
      ground (
        arith,
        lookup-retain q id (retain p stored) (retain-NodupKeys p stored stored_u),
        lookup-retain p id stored stored_u,
        lookup-insert id id receipt d.command_receipts,
      )

  pub get-set_local_action_receipt :
      (id : String) (receipt : LocalActionReceipt) (written read : ℕ) (d : StateData)
      → NodupKeys d.local_action_receipts
      → written ≤ read
      → (get_local_action_receipt id read (set_local_action_receipt id receipt written d).0).2
        ≡ (if ltb (receipt.settled_at + o.receipt_retention_ms) read then none else some receipt)
  unfolding get_local_action_receipt set_local_action_receipt
  get-set_local_action_receipt id receipt written read d u le =
      let stored = insert id receipt d.local_action_receipts in
      let stored_u = insert-NodupKeys id receipt d.local_action_receipts u in
      let p = action_live o.receipt_retention_ms written in
      let q = action_live o.receipt_retention_ms read in
      ground (
        arith,
        lookup-retain q id (retain p stored) (retain-NodupKeys p stored stored_u),
        lookup-retain p id stored stored_u,
        lookup-insert id id receipt d.local_action_receipts,
      )

  pub get_local_action_receipt_saved :
      (id : String) (now : ℕ) (d : StateData)
      → ((d : StateData) → persist d ≡ none)
      → (get_local_action_receipt id now d).1 ≡ none
  unfolding get_local_action_receipt
  get_local_action_receipt_saved id now d written =
      ground (arith, written (prune_expired_receipts o now d).0)
