-- ===== src/LocalActions/Manager/Calls.antt =====
-- Histories of calls on one lease: the limit on the number of calls, and revocation.
use harness_control_protocol.Base.{
  ℕ, ◌<>◌, ◌+◌, ◌≤◌, ◌<◌, String, ◌≡◌, refl, ◌∙◌, subst, true, false, Option, some, List, [], ◌∷◌,
  ◌++◌, arith, ◌==◌, contains, if◌then◌else◌, nat_eq, string_eq, ok, err, All, find_All,
}
use harness_control_protocol.Base.Dict.{lookup-insert}
use harness_control_protocol.LocalActions.Lease.{Grant, Lease, ActionRequest, Manager, Checked}
use harness_control_protocol.LocalActions.Manager.{
  count_key, call_count, is_exhausted, assert_action_allowed, revoke_lease, fail,
}
use harness_control_protocol.LocalActions.Manager.Allowed.{counted, assert_action_allowed-IsAllowed}

-- What is left of the manager after a call; a refused call leaves it as it was.
after : Manager → Checked (Grant × Manager) → Manager
after m (ok (g, m')) = m'
after m (err e) = m

-- 1 if the call was allowed for the key.
hit : Lease → String → Checked (Grant × Manager) → ℕ
hit lease key (ok (g, m')) = if count_key lease g == key then 1 else 0
hit lease key (err e) = 0

-- Timed calls on one lease, and how many of them were allowed for a key.
pub run : Lease → List (ℕ × ActionRequest) → Manager → Manager
unfolding after
run lease [] m = m
run lease ((now, request) ∷ calls) m =
    run lease calls (after m (assert_action_allowed lease request now m))

unfoldable pub hits : Lease → String → List (ℕ × ActionRequest) → Manager → ℕ
unfolding hit after
hits lease key [] m = 0
hits lease key ((now, request) ∷ calls) m =
    let result = assert_action_allowed lease request now m in
    hit lease key result + hits lease key calls (after m result)

step_count :
    (lease : Lease) (key : String) (now : ℕ) (request : ActionRequest) (m : Manager)
    (result : Checked (Grant × Manager))
    → assert_action_allowed lease request now m ≡ result
    → call_count key (after m result) ≡ call_count key m + hit lease key result
unfolding after hit counted
step_count lease key now request m (ok (g, m')) e =
    let (_, same) = assert_action_allowed-IsAllowed lease request now m m' g e in
    ground (
      arith,
      same,
      lookup-insert key (count_key lease g) (call_count (count_key lease g) m + 1) m.call_counts,
    )
step_count lease key now request m (err e') e = omega arith

-- Every grant of the lease with this key has a limit of at most `most` calls.
abbrev pub IsLimited : Lease → String → ℕ → Type 0
IsLimited lease key most =
    All (λ g. count_key lease g ≡ key → (n : ℕ) × (g.max_calls ≡ some n) × (n ≤ most))
      lease.capabilities

below_limit :
    (limit : Option ℕ) (n count : ℕ) → is_exhausted limit count ≡ false → limit ≡ some n → count < n
unfolding is_exhausted
below_limit limit n count h e = ground arith

step_bound :
    (lease : Lease) (key : String) (most now : ℕ) (request : ActionRequest) (m : Manager)
    (result : Checked (Grant × Manager))
    → IsLimited lease key most
    → assert_action_allowed lease request now m ≡ result
    → call_count key m ≤ most
    → call_count key m + hit lease key result ≤ most
unfolding hit
step_bound lease key most now request m (err e') limited e le = omega arith
step_bound lease key most now request m (ok (g, m')) limited e le =
    let (allowed, _) = assert_action_allowed-IsAllowed lease request now m m' g e in
    let limit = find_All _ _ lease.capabilities limited allowed.granted in
    elim (string_eq.dec (count_key lease g) key) [
      | yes same ↦
          let (n, is_n, n_le) = limit same in
          ground (
            arith,
            same,
            below_limit g.max_calls n (call_count key m)
                (subst (λ k. is_exhausted g.max_calls (call_count k m) ≡ false) same
                  allowed.below_limit)
                is_n,
          )
      | no other ↦ ground arith
    ]

-- If every grant of the lease with a count key has a limit of at most `most` and the calls counted
-- so far are at most `most`, then no list of calls, whatever their requests and times, is allowed
-- more often than `most` in all.
pub hits-le-max_calls :
    (lease : Lease) (key : String) (most : ℕ) (calls : List (ℕ × ActionRequest)) (m : Manager)
    → IsLimited lease key most
    → call_count key m ≤ most
    → call_count key m + hits lease key calls m ≤ most
unfolding hits
hits-le-max_calls lease key most [] m limited le = omega arith
hits-le-max_calls lease key most ((now, request) ∷ calls) m limited le =
    let result = assert_action_allowed lease request now m in
    let step = step_count lease key now request m result refl in
    let bound = step_bound lease key most now request m result limited refl le in
    omega (
      arith,
      step,
      bound,
      hits-le-max_calls lease key most calls (after m result) limited (omega (arith, step, bound)),
    )

contains-append : (xs : List String) (id : String) → contains (xs ++ id ∷ []) id ≡ true
contains-append [] id = ground arith
contains-append (x ∷ xs) id = ground (arith, contains-append xs id)

revoke_lease-contains :
    (id : String) (m : Manager) → contains (revoke_lease id m).revoked_lease_ids id ≡ true
unfolding revoke_lease
revoke_lease-contains id m = ground (arith, contains-append m.revoked_lease_ids id)

after-revoked :
    (lease : Lease) (now : ℕ) (request : ActionRequest) (m : Manager)
    → (after m (assert_action_allowed lease request now m)).revoked_lease_ids ≡ m.revoked_lease_ids
unfolding after assert_action_allowed
after-revoked lease now request m = ground arith

run-revoked :
    (lease : Lease) (calls : List (ℕ × ActionRequest)) (m : Manager)
    → (run lease calls m).revoked_lease_ids ≡ m.revoked_lease_ids
unfolding run
run-revoked lease [] m = refl
run-revoked lease ((now, request) ∷ calls) m =
    run-revoked lease calls _ ∙ after-revoked lease now request m

-- Once a lease is revoked, every call on it is refused as revoked, whatever calls were made since,
-- on that lease or another.
revoked-assert_action_allowed :
    (lease other : Lease) (calls : List (ℕ × ActionRequest)) (request : ActionRequest) (now : ℕ)
    (m : Manager)
    → assert_action_allowed lease request now (run other calls (revoke_lease lease.lease_id m))
      ≡ err (
          fail "local_capability_lease_revoked"
            ("Local capability lease '" <> lease.lease_id <> "' has been revoked."))
unfolding assert_action_allowed
revoked-assert_action_allowed lease other calls request now m = ground (
  arith,
  run-revoked other calls (revoke_lease lease.lease_id m),
  revoke_lease-contains lease.lease_id m,
)
