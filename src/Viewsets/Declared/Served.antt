-- ===== src/Viewsets/Declared/Served.antt =====
-- That the spec which serves a mutation was validated for its action.
use djangorestframework_serv.Prelude.{
  first_some, String, ◌≡◌, refl, ap, sym, ◌∙◌, subst, Bool, Option, none, some, [], ◌∷◌, Dict, get,
  ok, arith, eq_iff, Bool-cases, Option-cases, is_some, true, ◌⊎◌, ◌==◌, inl, inr, ok-injective,
}
use djangorestframework_serv.Config.{Label}
use djangorestframework_serv.Specs.{ServiceSpec, Variant, variant, not_variant}
use djangorestframework_serv.Validation.Parts.{ViewClass}
use djangorestframework_serv.Validation.Nested.{Descriptions}
use djangorestframework_serv.Validation.Whole.Accepts.{IsValidService}
use djangorestframework_serv.Validation.Whole.Variants.{AreVariants}
use djangorestframework_serv.Viewsets.Actions.{
  ActionSpec, service_action, selector_action, polymorphic_action, other_action, ActionView,
  action_spec_fallbacks, through, resolve_action_spec_entry, Choices, Discriminate, served_by,
  resolve_action_service_spec,
}
use djangorestframework_serv.Viewsets.Declared.{
  mutation_actions, selector_action_kind, mutation_extras_are_permissive, action_label, as_view,
}
use djangorestframework_serv.Viewsets.Declared.Accepts.{
  IsServing, IsFor, IsDeclared, AreDeclaredActions, as_view_iff,
}
use djangorestframework_serv.Viewsets.Permissions.Checked.{resolve_polymorphic_service_spec_lem}

get-IsDeclared :
    (d : Descriptions) (view : ViewClass) (specs : Dict ActionSpec) (action : String)
    (spec : ActionSpec)
    → AreDeclaredActions d view specs
    → get action specs ≡ some spec
    → IsDeclared d view action spec
unfolding get
get-IsDeclared d view [] action spec all found = cc
get-IsDeclared d view ((a, s) ∷ rest) action spec (here, more) found =
    elim (Bool-cases (a == action)) [
      | inl e ↦
          subst (λ k. IsDeclared d view k spec) ((eq_iff a action).0 e)
            (subst (λ x. IsDeclared d view a x) (ground arith) here)
      | inr e ↦ get-IsDeclared d view rest action spec more (ground arith)
    ]

get-IsServing :
    (d : Descriptions) (view : ViewClass) (specs : Dict ActionSpec) (action : String)
    (spec : ActionSpec) (has_instance : Bool)
    → AreDeclaredActions d view specs
    → get action specs ≡ some spec
    → get action mutation_actions ≡ some has_instance
    → IsServing d has_instance
        (mutation_extras_are_permissive view action)
        (action_label view action)
        spec
get-IsServing d view specs action spec has_instance all found row =
    subst
      (λ o.
        IsFor d view (mutation_extras_are_permissive view action) (action_label view action) o
          (get action selector_action_kind) spec)
      row (get-IsDeclared d view specs action spec all found)

-- The action that serves in place of another acts on a row where the other does.
fallback_row :
    (action other : String)
    → get action action_spec_fallbacks ≡ some other
    → get action mutation_actions ≡ get other mutation_actions
unfolding get
fallback_row action other h = elim (Bool-cases ("partial_update" == action)) [
  | inl e ↦
      let same : "update" ≡ other = ground arith in
      ap (λ k. get k mutation_actions) (sym ((eq_iff "partial_update" action).0 e))
      ∙ ap (λ k. get k mutation_actions) same
  | inr e ↦ absurd (ground arith)
]

abbrev IsValidVariant : Descriptions → Bool → Bool → Variant → Type 0
IsValidVariant d has_instance permissive (variant spec) =
    IsValidService d has_instance permissive spec
IsValidVariant d has_instance permissive (not_variant t) = ⊥

variant_valid :
    (d : Descriptions) (has_instance permissive : Bool) (label : Label) (specs : Dict Variant)
    (k : String) (spec : ServiceSpec)
    → AreVariants d has_instance permissive label specs
    → get k specs ≡ some (variant spec)
    → IsValidService d has_instance permissive spec
unfolding get
variant_valid d has_instance permissive label [] k spec all found = cc
variant_valid d has_instance permissive label ((j, not_variant t) ∷ specs) k spec all found =
    absurd all
variant_valid d has_instance permissive label ((j, variant s) ∷ specs) k spec (here, more) found =
    elim (Bool-cases (j == k)) [
      | inl e ↦
          let same : variant s ≡ variant spec = ground arith in
          subst (IsValidVariant d has_instance permissive) same here.0
      | inr e ↦ variant_valid d has_instance permissive label specs k spec more (ground arith)
    ]

served_valid :
    (d : Descriptions) (has_instance permissive : Bool) (label : Label) (ask : Discriminate)
    (action method : String) (entry : ActionSpec) (spec : ServiceSpec) (choices : Choices)
    → IsServing d has_instance permissive label entry
    → served_by ask [] action method (some entry) ≡ ok (variant spec, choices)
    → IsValidService d has_instance permissive spec
served_valid d has_instance permissive label ask action method (service_action declared) spec
      choices valid run =
    subst (IsValidVariant d has_instance permissive) (ap (λ c. c.0) (ok-injective run)) valid.0
served_valid d has_instance permissive label ask action method (polymorphic_action identity poly)
      spec choices (_, (all, _)) run =
    let ((k, found), _) =
      resolve_polymorphic_service_spec_lem ask identity poly choices (variant spec) run in
    variant_valid d has_instance permissive label poly.specs k spec all found
served_valid d has_instance permissive label ask action method (selector_action declared) spec
      choices valid run =
    absurd valid
served_valid d has_instance permissive label ask action method (other_action t) spec choices valid
      run =
    absurd valid

-- The action whose declaration serves an action: its own, or that of the action that stands in where
-- it declares none.
abbrev pub DeclaredAs : ActionView → (action declared : String) → Type 0
DeclaredAs view action declared =
    ((declared ≡ action) × (is_some (get action view.action_specs) ≡ true))
    ⊎ ((get action view.action_specs ≡ none) × (get action action_spec_fallbacks ≡ some declared))

-- A mutation of a viewset that was mounted is served, on a fresh view, by a service spec that passed
-- every check of the action that declares it: with a row exactly where the action has one, and with
-- extra arguments permitted only as the class permits them for the declaring action. That action
-- is the one served, or, where it declares nothing, the one that stands in for it. A variant that a
-- discriminator chose is valid like a plain spec.
pub resolve_action_service_spec-IsValidService :
    (d : Descriptions) (view : ActionView) (ask : Discriminate) (action method : String)
    (has_instance : Bool) (spec : ServiceSpec) (choices : Choices)
    → as_view d view ≡ ok tt
    → get action mutation_actions ≡ some has_instance
    → resolve_action_service_spec ask view.action_specs action method []
      ≡ ok (variant spec, choices)
    → (declared : String) × DeclaredAs view action declared
      × IsValidService d has_instance (mutation_extras_are_permissive view.class_ declared) spec
unfolding resolve_action_service_spec resolve_action_spec_entry
resolve_action_service_spec-IsValidService d view ask action method has_instance spec choices
      mounted row run =
    go (get action view.action_specs) (get action action_spec_fallbacks) refl refl run
  where
    all : AreDeclaredActions d view.class_ view.action_specs
    all = (as_view_iff d view).0 mounted

    serves :
        (by : String) (entry : ActionSpec)
        → get by view.action_specs ≡ some entry
        → get by mutation_actions ≡ some has_instance
        → served_by ask [] action method (some entry) ≡ ok (variant spec, choices)
        → IsValidService d has_instance (mutation_extras_are_permissive view.class_ by) spec
    serves by entry found row' served =
        served_valid d has_instance _ (action_label view.class_ by) ask action method entry spec
          choices
          (get-IsServing d view.class_ view.action_specs by entry has_instance all found row')
          served

    go :
        (own : Option ActionSpec) (fallback : Option String)
        → get action view.action_specs ≡ own
        → get action action_spec_fallbacks ≡ fallback
        → served_by ask [] action method (first_some own (through view.action_specs fallback))
          ≡ ok (variant spec, choices)
        → (declared : String) × DeclaredAs view action declared
          × IsValidService d has_instance (mutation_extras_are_permissive view.class_ declared) spec
    go (some entry) fallback found _ served =
        (action, inl (refl, ap is_some found), serves action entry found row served)
    go none none _ _ served = cc
    go none (some other) missing stands served = elim (Option-cases (get other view.action_specs)) [
      | inl e ↦ absurd (nothing_served (sym (ap (served_by ask [] action method) e) ∙ served))
      | inr (entry, e) ↦ (
        other,
        inr (missing, stands),
        serves other entry e (sym (fallback_row action other stands) ∙ row)
            (sym (ap (served_by ask [] action method) e) ∙ served),
      )
    ]
      where
        nothing_served : served_by ask [] action method none ≡ ok (variant spec, choices) → ⊥
        nothing_served h = cc
