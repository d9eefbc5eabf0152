-- ===== src/Protocol/Reducer/Samples.antt =====
-- Concrete reducers, with the invariant that they satisfy.
use harness_control_protocol.Base.{
  ◌≡◌, refl, ap, subst, [], ◌∷◌, arith, nat_eq, string_eq, ℕ_discrete,
}
use harness_control_protocol.Base.Collation.{by_code_points}
use harness_control_protocol.Base.Dict.{lookup, insert}
use harness_control_protocol.Protocol.Reducer.{
  Reducer, EventResult, apply_event, expected_sequence, max_key,
}
use harness_control_protocol.Protocol.Reducer.Log.{IsWellFormed, log, IsNumbered}
use harness_control_protocol.Protocol.Reducer.Apply.{apply_event-IsWellFormed}
use harness_control_protocol.Protocol.Reducer.Delivery.{HasPrefix}
use harness_control_protocol.Protocol.Event.Samples.{started, source}

abbrev pub one_event : Reducer
one_event = ("s", (1, started) ∷ []) ∷ []

pub empty-IsWellFormed : IsWellFormed []
unfolding lookup
empty-IsWellFormed = record { runs = λ id m h. absurd (cc) }

pub first_applied : apply_event by_code_points started [] ≡ (one_event, EventResult.applied started)
unfolding apply_event expected_sequence max_key lookup insert string_eq nat_eq ℕ_discrete
first_applied = refl

pub one_event-IsWellFormed : IsWellFormed one_event
one_event-IsWellFormed =
    subst IsWellFormed (ap (λ p. p.0) first_applied)
      (apply_event-IsWellFormed by_code_points started [] empty-IsWellFormed)

pub source-IsNumbered : IsNumbered "s" 1 source
source-IsNumbered = (refl, refl, (refl, refl, (refl, refl, tt)))

pub nothing_yet : HasPrefix by_code_points "s" source 0 []
unfolding log lookup
nothing_yet = record { well_formed = empty-IsWellFormed; bounded = omega arith; view = refl }

pub one_there : HasPrefix by_code_points "s" source 1 one_event
unfolding log lookup string_eq
one_there = record { well_formed = one_event-IsWellFormed; bounded = omega arith; view = refl }
