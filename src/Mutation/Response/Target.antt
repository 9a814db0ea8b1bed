-- ===== src/Mutation/Response/Target.antt =====
-- The row that a mutation acts on: `mutation_target_source` and `resolve_mutation_instance`
-- (views/mutation/utils.py), for a spec that was built.
use djangorestframework_serv.Prelude.{
  ◌≡◌, ◌↔◌, Bool, Bool-cases, true, false, Option, none, some, is_some, inl, inr, arith, refl,
  if◌then◌else◌,
}
use djangorestframework_serv.Values.{Value}
use djangorestframework_serv.Specs.{SelectorSpec, ServiceSpec}
use djangorestframework_serv.Construction.{operates_on_set}
use djangorestframework_serv.Construction.Sound.{IsBuilt}
use djangorestframework_serv.Mutation.Response.{
  TargetSource, bulk, instance_selector, get_object, no_target, left_to_dispatch,
  resolve_mutation_instance, set_selector, target_from,
}

selector_needs_spec : (o : Option SelectorSpec) → is_some o ≡ false → set_selector o ≡ false
selector_needs_spec none h = refl
selector_needs_spec (some spec) h = cc

-- The source by whether the spec operates on a set and whether its instance selector is set.
abbrev source : Bool → Bool → TargetSource
source on_set selected = if on_set then bulk else if selected then instance_selector else get_object

by_sources :
    (v : Value) (on_set selected : Bool)
    → (on_set ≡ true → selected ≡ false)
    → ((target_from v (source on_set selected) ≡ no_target) ↔ (on_set ≡ true))
      × ((target_from v (source on_set selected) ≡ left_to_dispatch) ↔ (selected ≡ true))
by_sources v true true h = cc (h refl)
by_sources v true false h = ((λ p. refl, λ p. refl), (λ p. cc, λ p. cc))
by_sources v false true h = ((λ p. cc, λ p. cc), (λ p. refl, λ p. refl))
by_sources v false false h = ((λ p. cc, λ p. cc), (λ p. cc, λ p. cc))

set-has-no-instance :
    (spec : ServiceSpec)
    → IsBuilt spec
    → operates_on_set spec ≡ true
    → is_some spec.instance_selector_spec ≡ false
set-has-no-instance spec built on_set =
    let one = built.one_lookup in
    elim (Bool-cases spec.many) [
      | inl many ↦ built.list_has_no_instance many
      | inr single ↦ ground arith
    ]

-- The mutation of a spec that was built acts on no row exactly where the spec is over many items
-- or has a collection selector, and leaves the lookup to dispatch exactly where its instance
-- selector is set.
pub resolve_mutation_instance_lem :
    (get_object_row : Value) (spec : ServiceSpec)
    → IsBuilt spec
    → ((resolve_mutation_instance get_object_row spec ≡ no_target) ↔ (operates_on_set spec ≡ true))
      × ((resolve_mutation_instance get_object_row spec ≡ left_to_dispatch)
          ↔ (set_selector spec.instance_selector_spec ≡ true))
unfolding resolve_mutation_instance
resolve_mutation_instance_lem v spec built =
    by_sources v (operates_on_set spec) (set_selector spec.instance_selector_spec) λ on_set.
      selector_needs_spec spec.instance_selector_spec (set-has-no-instance spec built on_set)
