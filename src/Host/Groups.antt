-- ===== src/Host/Groups.antt =====
-- The continuation groups against the providers of the configuration.
use harness_control_protocol.Base.{
  String, ◌≡◌, Option, none, some, List, [], ◌∷◌, ◌++◌, map, arith, ◌==◌, string_eq, select, ap,
  sym, ◌∙◌,
}
use mathlib.Core.List.{append-nil, append_assoc}
use harness_control_protocol.Base.Dict.{Dict, lookup, insert, lookup-insert}
use harness_control_protocol.Host.{
  ProviderInstance, ContinuationGroup, compute_continuation_group_key, joined, group_providers,
}

-- The members of the group with a key.
unfoldable pub members : Option ContinuationGroup → List String
members none = []
members (some g) = g.provider_instance_ids

members-joined :
    (key own : String) (p : ProviderInstance) (g : Dict String ContinuationGroup)
    → own ≡ key
    → members (lookup key (insert own (joined own p (lookup own g)) g))
      ≡ members (lookup key g) ++ p.id ∷ []
unfolding members joined
members-joined key own p g same =
    ground (arith, same, lookup-insert key own (joined own p (lookup own g)) g)

group_providers_from :
    (key : String) (ps : List ProviderInstance) (g : Dict String ContinuationGroup)
    → members (lookup key (group_providers ps g))
      ≡ members (lookup key g)
        ++ map (λ p. p.id) (select (λ p. compute_continuation_group_key p == key) ps)
unfolding group_providers members joined
group_providers_from key [] g = sym (append-nil (members (lookup key g)))
group_providers_from key (p ∷ ps) g =
    let own = compute_continuation_group_key p in
    let next = joined own p (lookup own g) in
    let rest = map (λ p. p.id) (select (λ p. compute_continuation_group_key p == key) ps) in
    let step = group_providers_from key ps (insert own next g) in
    elim (string_eq.dec own key) [
      | yes same ↦
          let grown : members (lookup key (insert own next g))
              ≡ members (lookup key g) ++ p.id ∷ [] =
            members-joined key own p g same in
          step
          ∙ ap (λ m. m ++ rest) grown
          ∙ append_assoc (members (lookup key g)) (p.id ∷ []) rest
          ∙ ground (arith, same)
      | no other ↦ ground (arith, step, lookup-insert key own next g)
    ]

-- The continuation group of a key has the ids of the configured providers with that key, in the
-- configuration's order, and no other.
group_providers-members :
    (key : String) (ps : List ProviderInstance)
    → members (lookup key (group_providers ps []))
      ≡ map (λ p. p.id) (select (λ p. compute_continuation_group_key p == key) ps)
unfolding members lookup
group_providers-members key ps = group_providers_from key ps []
