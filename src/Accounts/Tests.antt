-- ===== src/Accounts/Tests.antt =====
-- Two snapshots of a host's accounts, and the theorems applied to them.
use harness_control_protocol.Base.{
  ℕ, String, ◌≡◌, ◌≢◌, refl, differ, some, none, [], ◌∷◌, ◌++◌, string_eq, nat_eq, pair_eq, ok,
}
use harness_control_protocol.Base.Dict.{lookup, insert, values}
use harness_control_protocol.Accounts.{
  Timestamp, provider, Identity, codex_app_server, Available, available, unavailable, timeout,
  AccountsSnapshot, Sources, apply, fresh, UsageView, accounts,
}
use harness_control_protocol.Accounts.Views.{succeeded}
use harness_control_protocol.Accounts.Updates.{IsSound, apply-IsSound, apply_other}

abbrev at : ℕ → Timestamp
at ms = record { iso = "t"; ms = ms }

abbrev identity : Identity
identity = record { key = "k"; provider = "codex"; scope_source = provider; label = "Work" }

abbrev usage : ℕ → Available
usage ms = record {
  observed_at = at ms;
  account = identity;
  source = codex_app_server;
  plan = none;
  limits = [];
}

abbrev good : AccountsSnapshot
good = record {
  request_id = "r";
  host_id = "h";
  providers = record { provider_instance_id = "p"; observation = available (usage 10) } ∷ [];
}

abbrev bad : AccountsSnapshot
bad = record {
  request_id = "r";
  host_id = "h";
  providers =
      record { provider_instance_id = "p"; observation = unavailable (at 20) timeout "timed out" }
      ∷ [];
}

abbrev after_good : Sources
after_good =
    (
      ("h", "p"),
      record {
        host_id = "h";
        provider_instance_id = "p";
        latest = available (usage 10);
        last_success = some (usage 10);
      },
    )
    ∷ []

abbrev after_bad : Sources
after_bad =
    (
      ("h", "p"),
      record {
        host_id = "h";
        provider_instance_id = "p";
        latest = unavailable (at 20) timeout "timed out";
        last_success = some (usage 10);
      },
    )
    ∷ []

good_applied : apply good [] ≡ ok after_good
unfolding apply lookup insert string_eq nat_eq pair_eq
good_applied = refl

bad_applied : apply bad after_good ≡ ok after_bad
unfolding apply lookup insert string_eq nat_eq pair_eq
bad_applied = refl

empty-IsSound : IsSound []
unfolding lookup
empty-IsSound = record { sources = λ key s found. absurd (cc) }

good-IsSound : IsSound after_good
good-IsSound = apply-IsSound good [] after_good empty-IsSound good_applied

apply-IsSound_example : IsSound after_bad
apply-IsSound_example = apply-IsSound bad after_good after_bad good-IsSound bad_applied

g_is_not_h : ◌≢◌ {A = String} "g" "h"
unfolding string_eq
g_is_not_h = differ {A = String} "g" "h" refl

abbrev elsewhere : String × String
elsewhere = ("g", "p")

apply_other_example : lookup elsewhere after_bad ≡ lookup elsewhere after_good
apply_other_example = apply_other bad elsewhere after_good after_bad g_is_not_h bad_applied

-- Another host sees the same account later, before the first one fails.
abbrev two_hosts : Sources
two_hosts =
    after_bad
    ++ (
      ("i", "p"),
      record {
        host_id = "i";
        provider_instance_id = "p";
        latest = available (usage 15);
        last_success = some (usage 15);
      },
    )
      ∷ []

abbrev shown_at_16 : UsageView
shown_at_16 = record {
  account = identity;
  observation = usage 15;
  freshness = fresh;
  sources =
      record { host_id = "h"; provider_instance_id = "p" }
      ∷ record { host_id = "i"; provider_instance_id = "p" }
      ∷ [];
}

one_view : accounts 16 5 two_hosts ≡ ok (shown_at_16 ∷ [])
unfolding accounts lookup insert string_eq nat_eq
one_view = refl

k_succeeded : succeeded "k" (values two_hosts) ≢ []
unfolding succeeded string_eq nat_eq
k_succeeded h = absurd (cc)
