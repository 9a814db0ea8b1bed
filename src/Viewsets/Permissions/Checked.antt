-- ===== src/Viewsets/Permissions/Checked.antt =====
-- That the permissions checked for an action are those of the spec that then serves it.
use djangorestframework_serv.Prelude.{
  first_some, ℕ, String, ◌≡◌, ap, sym, ◌∙◌, true, Option, none, some, List, [], ◌∷◌, Dict, get,
  or_else, Result, ok, err, arith, >>=-eq-ok, ok-injective, values, if◌then◌else◌, nat_eq,
}
use djangorestframework_serv.Mutation.Errors.{ServiceError}
use djangorestframework_serv.Specs.{
  PermissionEntry, PermissionStrategy, discriminate, ServiceSpec, PolymorphicServiceSpec, Variant,
  variant,
}
use djangorestframework_serv.Viewsets.Actions.{
  ActionSpec, service_action, selector_action, polymorphic_action, other_action, ActionView,
  RequestError, Choices, Discriminate, chosen_before, choice_of, known_choice, choose,
  resolve_polymorphic_service_spec, resolve_action_spec, resolve_action_spec_entry, served_by,
  resolve_action_service_spec,
}
use djangorestframework_serv.Viewsets.Permissions.Union.{variant_permissions, union_classes-covers}
use djangorestframework_serv.Viewsets.Permissions.{
  holds, union_classes, classes_of, by_strategy, polymorphic_permissions, permissions_for,
  get_permissions,
}

known_choice_lem :
    (identity : ℕ) (key' : String) (choices choices' : Choices) (o : Option Variant) (v : Variant)
    → known_choice identity key' choices o ≡ ok (v, choices')
    → (o ≡ some v) × (choices' ≡ ((identity, v) ∷ choices))
known_choice_lem identity key' choices choices' none v h = (cc, cc)
known_choice_lem identity key' choices choices' (some w) v h =
    let same = ok-injective h in
    let w_v : w ≡ v = ap (λ c. c.0) same in
    (ap some w_v, sym (ap (λ c. c.1) same) ∙ ap (λ u. (identity, u) ∷ choices) w_v)

-- Where no choice stands in the cache, the one that is made is a variant, and is recorded.
choice_of_lem :
    (identity : ℕ) (specs : Dict Variant) (answer : Result ServiceError String)
    (choices choices' : Choices) (v : Variant)
    → choice_of identity specs answer choices ≡ ok (v, choices')
    → ((k : String) × (get k specs ≡ some v)) × (choices' ≡ ((identity, v) ∷ choices))
choice_of_lem identity specs (err e) choices choices' v h = absurd (cc)
choice_of_lem identity specs (ok key') choices choices' v h =
    let (found, made) = known_choice_lem identity key' choices choices' (get key' specs) v h in
    ((key', found), made)

nat_eq_refl : (n : ℕ) → nat_eq n n ≡ true
nat_eq_refl n = ground arith

chosen_before-recorded :
    (identity : ℕ) (choices choices' : Choices) (v : Variant)
    → choices' ≡ ((identity, v) ∷ choices)
    → chosen_before identity choices' ≡ some v
unfolding chosen_before
chosen_before-recorded identity choices choices' v h =
    ap (chosen_before identity) h
    ∙ ap (λ b. if b then some v else chosen_before identity choices) (nat_eq_refl identity)

-- On a fresh view the choice is one of the variants, and from then on the one that is made,
-- whatever the discriminator would answer.
pub resolve_polymorphic_service_spec_lem :
    (ask : Discriminate) (identity : ℕ) (poly : PolymorphicServiceSpec) (choices : Choices)
    (v : Variant)
    → resolve_polymorphic_service_spec ask identity poly [] ≡ ok (v, choices)
    → ((k : String) × (get k poly.specs ≡ some v)) × (chosen_before identity choices ≡ some v)
unfolding resolve_polymorphic_service_spec chosen_before
resolve_polymorphic_service_spec_lem ask identity poly choices v h =
    let (found, made) = choice_of_lem identity poly.specs (ask poly.discriminator) [] choices v h in
    (found, chosen_before-recorded identity [] choices v made)

chosen_again :
    (again : Discriminate) (identity : ℕ) (poly : PolymorphicServiceSpec)
    (choices choices' : Choices) (v w : Variant)
    → chosen_before identity choices ≡ some v
    → resolve_polymorphic_service_spec again identity poly choices ≡ ok (w, choices')
    → v ≡ w
unfolding resolve_polymorphic_service_spec
chosen_again again identity poly choices choices' v w made h =
    ap (λ c. c.0)
      (ok-injective
        (sym (ap (choose identity poly.specs (again poly.discriminator) choices) made) ∙ h))

-- The classes that are checked for a polymorphic action hold those of the variant that serves it.
by_strategy-covers :
    (strategy : PermissionStrategy) (ask again : Discriminate) (default : List PermissionEntry)
    (identity : ℕ) (poly : PolymorphicServiceSpec) (ps : List PermissionEntry)
    (choices choices' : Choices) (spec : ServiceSpec) (p : PermissionEntry)
    → by_strategy strategy ask default identity poly [] ≡ ok (ps, choices)
    → resolve_polymorphic_service_spec again identity poly choices ≡ ok (variant spec, choices')
    → holds p (or_else spec.permission_classes default) ≡ true
    → holds p ps ≡ true
by_strategy-covers discriminate ask again default identity poly ps choices choices' spec p h served
      asked =
    let (chosen, resolved, more) =
      >>=-eq-ok (resolve_polymorphic_service_spec ask identity poly []) _ h in
    let (classes, own, made) = >>=-eq-ok (classes_of default chosen.0) _ more in
    let left = ok-injective made in
    let (_, before) =
      resolve_polymorphic_service_spec_lem ask identity poly chosen.1 chosen.0 resolved in
    let recorded = sym (ap (λ c. chosen_before identity c.1) left) ∙ before in
    let same =
      chosen_again again identity poly choices choices' chosen.0 (variant spec) recorded served in
    let theirs = ok-injective (sym (ap (classes_of default) same) ∙ own) in
    ap (holds p) (sym (theirs ∙ ap (λ c. c.0) left)) ∙ asked
by_strategy-covers strategy ask again default identity poly ps choices choices' spec p h served
      asked =
    let (classes, united, made) = >>=-eq-ok (union_classes default [] (values poly.specs)) _ h in
    let left = ok-injective made in
    let ((k, found), _) =
      resolve_polymorphic_service_spec_lem again identity poly choices' (variant spec)
        (ap (λ c. resolve_polymorphic_service_spec again identity poly c.1) left ∙ served) in
    sym (ap (λ c. holds p c.0) left)
    ∙ union_classes-covers default poly.specs [] classes p k (variant spec) united found asked

-- Of an action of a fresh view: each permission class of the spec that then serves the action, or
-- of the view where that spec declares none, is among those that `get_permissions` had returned,
-- whichever the strategy and even if the discriminator answers otherwise when it is asked again.
pub get_permissions-covers :
    (ask again : Discriminate) (view : ActionView) (action method : String)
    (ps : List PermissionEntry) (choices choices' : Choices) (spec : ServiceSpec)
    (p : PermissionEntry)
    → get_permissions ask view (some action) [] ≡ ok (ps, choices)
    → resolve_action_service_spec again view.action_specs action method choices
      ≡ ok (variant spec, choices')
    → holds p (or_else spec.permission_classes view.permission_classes) ≡ true
    → holds p ps ≡ true
unfolding get_permissions resolve_action_spec resolve_action_service_spec
get_permissions-covers ask again view action method ps choices choices' spec p h served asked =
    go (resolve_action_spec_entry view.action_specs (some action)) _ h served
  where
    same_spec :
        (declared : ServiceSpec)
        → ◌≡◌ {A = Result RequestError (Variant × Choices)}
            (ok (variant declared, choices))
            (ok (variant spec, choices'))
        → declared.permission_classes ≡ spec.permission_classes
    same_spec declared e = ap variant_permissions (ap (λ c. c.0) (ok-injective e))

    go :
        (entry stamp : Option ActionSpec)
        → permissions_for ask view.permission_classes [] (first_some entry stamp) ≡ ok (ps, choices)
        → served_by again choices action method entry ≡ ok (variant spec, choices')
        → holds p ps ≡ true
    go none stamp made run = cc
    go (some (selector_action declared)) stamp made run = cc
    go (some (other_action t)) stamp made run = cc
    go (some (service_action declared)) stamp made run =
        sym (ap (λ c. holds p c.0) (ok-injective made))
        ∙ ap (λ o. holds p (or_else o view.permission_classes)) (same_spec declared run)
        ∙ asked
    go (some (polymorphic_action identity poly)) stamp made run =
        by_strategy-covers poly.permission_strategy ask again view.permission_classes identity poly
          ps choices choices' spec p (unfold polymorphic_permissions in made) run asked
