-- ===== src/Validation/Whole/Selectors.antt =====
-- When a selector spec passes its validator, alone and on a view.
use djangorestframework_serv.Prelude.{
  ◌≡◌, refl, ◌↔◌, false, ◌&&◌, Option, none, some, is_some, ok, arith, chain_iff, refuse_if_iff,
  >>-iff, trans_iff,
}
use djangorestframework_serv.Config.{Label, named, field, unexpected_kind}
use djangorestframework_serv.Specs.{SelectorKind, list, retrieve, SelectorSpec}
use djangorestframework_serv.Validation.Parts.{
  ViewClass, uses_django_filter_backend, validate_filter_set_no_backend_conflict,
}
use djangorestframework_serv.Validation.Parts.Accepts.{
  ShapesASelector, selector_shaping_iff, ArePermissions, permission_classes_iff, ArePreconditions,
  preconditions_iff,
}
use djangorestframework_serv.Validation.Nested.{lookup_offers, selector_callables}
use djangorestframework_serv.Validation.Nested.Accepts.{IsSelector, validate_selector_callable_iff}
use djangorestframework_serv.Validation.Whole.{
  selector_offers, unexpected, validate_selector_spec, validate_selector_view_spec,
}
use djangorestframework_serv.Validation.Whole.Accepts.{AreReadable, misplaced_markers_iff}

-- The kind is the one that the mount point expects, where it expects one.
abbrev pub IsExpected : Option SelectorKind → SelectorKind → Type 0
IsExpected none kind = Unit
IsExpected (some expected) kind = kind ≡ expected

unexpected_iff :
    (expected : Option SelectorKind) (kind : SelectorKind)
    → (unexpected expected kind ≡ false) ↔ IsExpected expected kind
unexpected_iff none kind = (λ h. tt, λ h. refl)
unexpected_iff (some list) list = (λ h. refl, λ h. refl)
unexpected_iff (some list) retrieve = (λ h. cc, λ h. cc)
unexpected_iff (some retrieve) list = (λ h. cc, λ h. cc)
unexpected_iff (some retrieve) retrieve = (λ h. refl, λ h. refl)

pub record IsValidSelector (expected : Option SelectorKind) (spec : SelectorSpec) : Type 0 where
  pub permission_classes : ArePermissions spec.permission_classes
  pub shaped : ShapesASelector spec
  pub kind : IsExpected expected spec.kind
  pub preconditions : ArePreconditions (selector_offers spec) spec.preconditions
  pub selector : IsSelector (lookup_offers spec.kwargs) spec.selector

-- A selector spec passes the validator exactly where its fields satisfy their conditions and the
-- markers of all its callables can be read.
pub validate_selector_spec_iff :
    (spec : SelectorSpec) (label : Label) (expected : Option SelectorKind)
    → (validate_selector_spec spec label expected ≡ ok tt)
      ↔ (IsValidSelector expected spec × AreReadable (selector_callables spec label))
unfolding validate_selector_spec
validate_selector_spec_iff spec label expected =
    trans_iff
      (chain_iff (permission_classes_iff spec.permission_classes label) (
        chain_iff (selector_shaping_iff spec label) (
          chain_iff
            (trans_iff (refuse_if_iff (unexpected expected spec.kind) (unexpected_kind label))
              (unexpected_iff expected spec.kind))
            (chain_iff (preconditions_iff spec.preconditions label (selector_offers spec)) (
              chain_iff (misplaced_markers_iff (selector_callables spec label)) (
                validate_selector_callable_iff spec.selector label (lookup_offers spec.kwargs)))))))
      (
        λ h. (
          record {
            permission_classes = h.0;
            shaped = h.1.0;
            kind = h.1.1.0;
            preconditions = h.1.1.1.0;
            selector = h.1.1.1.1.1;
          },
          h.1.1.1.1.0,
        ),
        λ (r, readable).
            (r.permission_classes, (r.shaped, (r.kind, (r.preconditions, (readable, r.selector))))),
      )

backend_conflict_iff :
    (view : ViewClass) (spec : SelectorSpec) (label : Label)
    → (validate_filter_set_no_backend_conflict view spec label ≡ ok tt)
      ↔ ((is_some spec.filter_set && uses_django_filter_backend view) ≡ false)
unfolding validate_filter_set_no_backend_conflict
backend_conflict_iff view spec label = ground arith

-- On a list view the filter set is the only one that filters: a spec that passes there and sets
-- `filter_set` stands on a view without DjangoFilterBackend; and its kind is the view's.
pub list_view_filters_once :
    (view : ViewClass) (spec : SelectorSpec)
    → validate_selector_view_spec view (some spec) list ≡ ok tt
    → (spec.kind ≡ list) × ((is_some spec.filter_set && uses_django_filter_backend view) ≡ false)
unfolding validate_selector_view_spec
list_view_filters_once view spec h =
    let label = field (named view.class_name) "spec" in
    let (valid, apart) = (>>-iff (validate_selector_spec spec label (some list)) _).0 h in
    (
      ((validate_selector_spec_iff spec label (some list)).0 valid).0.kind,
      (backend_conflict_iff view spec label).0 apart,
    )
