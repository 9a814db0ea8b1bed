-- ===== src/Validation/Whole/Variants.antt =====
-- When a polymorphic service spec passes its validator.
use djangorestframework_serv.Prelude.{
  ◌≡◌, refl, ap, sym, ◌∙◌, ◌↔◌, Bool, true, false, ◌&&◌, not, Option, none, some, List, [], ◌∷◌,
  some-inj, is_empty, ok, All, chain_iff, refuse_if_iff, eq_refl, and_true_left, and_true_right,
  or_false_left, or_false_right, trans_iff, Dict, any, eq_iff, values, not-false_iff,
}
use djangorestframework_serv.Config.{Label, key, no_variants, variants_differ}
use djangorestframework_serv.Specs.{
  PermissionEntry, permission_class, other_class, not_a_class, PolymorphicServiceSpec,
  PermissionStrategy, union, discriminate, require_identical, Variant, variant, not_variant,
}
use djangorestframework_serv.Validation.Nested.{service_callables, Descriptions}
use djangorestframework_serv.Validation.Whole.{
  same_entry, same_entries, same_classes, differ, variant_classes, is_require_identical,
  validate_variants, validate_polymorphic_service_spec,
}
use djangorestframework_serv.Validation.Whole.Accepts.{
  AreReadable, IsValidService, validate_service_spec_iff,
}

pub same_entry_sound : (a b : PermissionEntry) → same_entry a b ≡ true → a ≡ b
same_entry_sound (permission_class a) (permission_class b) h =
    ap permission_class ((eq_iff a b).0 h)
same_entry_sound (other_class a) (other_class b) h = ap other_class ((eq_iff a b).0 h)
same_entry_sound (not_a_class a) (not_a_class b) h = ap not_a_class ((eq_iff a b).0 h)
same_entry_sound a b h = cc

pub same_entry_refl : (a : PermissionEntry) → same_entry a a ≡ true
same_entry_refl (permission_class a) = eq_refl a
same_entry_refl (other_class a) = eq_refl a
same_entry_refl (not_a_class a) = eq_refl a

same_entries_sound : (as' bs : List PermissionEntry) → same_entries as' bs ≡ true → as' ≡ bs
unfolding same_entries
same_entries_sound [] [] h = refl
same_entries_sound (a ∷ as') (b ∷ bs) h = cc (
  same_entry_sound a b (and_true_left _ _ h),
  same_entries_sound as' bs (and_true_right (same_entry a b) _ h),
)
same_entries_sound _ _ h = cc

same_entries_refl : (as' : List PermissionEntry) → same_entries as' as' ≡ true
unfolding same_entries
same_entries_refl [] = refl
same_entries_refl (a ∷ as') = rw (same_entry_refl a) (same_entries_refl as')

same_classes_iff : (c d : Option (List PermissionEntry)) → (same_classes c d ≡ true) ↔ (c ≡ d)
unfolding same_classes
same_classes_iff none none = (λ h. refl, λ h. refl)
same_classes_iff (some as') (some bs) = (
  λ h. ap some (same_entries_sound as' bs h),
  λ h. ap (same_entries as') (sym (some-inj h)) ∙ same_entries_refl as',
)
same_classes_iff none (some bs) = (λ h. cc, λ h. cc)
same_classes_iff (some as') none = (λ h. cc, λ h. cc)

-- All the elements are one value.
abbrev pub AreOne : List (Option (List PermissionEntry)) → Type 0
AreOne [] = Unit
AreOne (c ∷ cs) = All (λ c'. c ≡ c') cs

any_differs_iff :
    (c : Option (List PermissionEntry)) (cs : List (Option (List PermissionEntry)))
    → (any (λ c'. not (same_classes c c')) cs ≡ false) ↔ All (λ c'. c ≡ c') cs
unfolding any
any_differs_iff c [] = (λ h. tt, λ h. refl)
any_differs_iff c (c' ∷ cs) =
    let ih = any_differs_iff c cs in
    let here = trans_iff (not-false_iff (same_classes c c')) (same_classes_iff c c') in
    (
      λ h. (here.0 (or_false_left _ _ h), ih.0 (or_false_right _ _ h)),
      λ h. rw (here.1 h.0) (ih.1 h.1),
    )

differ_iff : (cs : List (Option (List PermissionEntry))) → (differ cs ≡ false) ↔ AreOne cs
unfolding differ
differ_iff [] = (λ h. tt, λ h. refl)
differ_iff (c ∷ cs) = any_differs_iff c cs

-- Each variant is a service spec that passes under its own label.
abbrev pub AreVariants : Descriptions → Bool → Bool → Label → Dict Variant → Type 0
AreVariants d has_instance permissive label [] = Unit
AreVariants d has_instance permissive label ((name, not_variant t) ∷ vs) = ⊥
AreVariants d has_instance permissive label ((name, variant spec) ∷ vs) =
    (IsValidService d has_instance permissive spec
      × AreReadable (service_callables spec (key label name)))
    × AreVariants d has_instance permissive label vs

variants_iff :
    (d : Descriptions) (vs : Dict Variant) (label : Label) (has_instance permissive : Bool)
    → (validate_variants d vs label has_instance permissive ≡ ok tt)
      ↔ AreVariants d has_instance permissive label vs
unfolding validate_variants
variants_iff d [] label has_instance permissive = (λ h. tt, λ h. refl)
variants_iff d ((name, not_variant t) ∷ vs) label has_instance permissive = (λ h. cc, λ h. absurd h)
variants_iff d ((name, variant spec) ∷ vs) label has_instance permissive =
    chain_iff (validate_service_spec_iff d spec (key label name) has_instance permissive)
      (variants_iff d vs label has_instance permissive)

-- Where identical permissions are required, the variants declare one value.
abbrev pub ArePermittedAlike : PolymorphicServiceSpec → Type 0
ArePermittedAlike poly =
    poly.permission_strategy ≡ require_identical → AreOne (variant_classes (values poly.specs))

alike_iff :
    (strategy : PermissionStrategy) (cs : List (Option (List PermissionEntry)))
    → ((is_require_identical strategy && differ cs) ≡ false)
      ↔ (strategy ≡ require_identical → AreOne cs)
alike_iff require_identical cs = (λ h _. (differ_iff cs).0 h, λ h. (differ_iff cs).1 (h refl))
alike_iff union cs = (λ h e. absurd (cc), λ h. refl)
alike_iff discriminate cs = (λ h e. absurd (cc), λ h. refl)

-- A polymorphic spec passes exactly where it has a variant, each variant is a valid service spec,
-- and `require_identical` is met.
pub validate_polymorphic_service_spec_iff :
    (d : Descriptions) (poly : PolymorphicServiceSpec) (label : Label)
    (has_instance permissive : Bool)
    → (validate_polymorphic_service_spec d poly label has_instance permissive ≡ ok tt) ↔ (
        (is_empty poly.specs ≡ false)
        × (AreVariants d has_instance permissive label poly.specs × ArePermittedAlike poly))
unfolding validate_polymorphic_service_spec
validate_polymorphic_service_spec_iff d poly label has_instance permissive =
    chain_iff (refuse_if_iff (is_empty poly.specs) (no_variants label)) (
      chain_iff (variants_iff d poly.specs label has_instance permissive) (
        trans_iff
          (refuse_if_iff
            (is_require_identical poly.permission_strategy
              && differ (variant_classes (values poly.specs)))
            (variants_differ label))
          (alike_iff poly.permission_strategy (variant_classes (values poly.specs)))))
