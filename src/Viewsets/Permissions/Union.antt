-- ===== src/Viewsets/Permissions/Union.antt =====
-- That the union of the permissions of the variants holds those of each.
use djangorestframework_serv.Prelude.{
  String, ◌≡◌, refl, ap, sym, ◌∙◌, true, ◌||◌, Option, none, some, List, [], ◌∷◌, ◌++◌, Dict, get,
  or_else, ok, arith, Bool-cases, inl, inr, ok-injective, values, if◌then◌else◌, subst, ◌==◌,
}
use djangorestframework_serv.Specs.{PermissionEntry, Variant, variant, not_variant}
use djangorestframework_serv.Validation.Whole.{same_entry}
use djangorestframework_serv.Validation.Whole.Variants.{same_entry_sound, same_entry_refl}
use djangorestframework_serv.Viewsets.Permissions.{holds, add_new, union_classes}

holds-append :
    (p : PermissionEntry) (ps qs : List PermissionEntry)
    → holds p (ps ++ qs) ≡ (holds p ps || holds p qs)
unfolding holds
holds-append p [] qs = refl
holds-append p (q ∷ ps) qs = ground (arith, holds-append p ps qs)

add_new-keeps :
    (p : PermissionEntry) (ps classes : List PermissionEntry)
    → holds p classes ≡ true
    → holds p (add_new classes ps) ≡ true
unfolding add_new
add_new-keeps p [] classes h = h
add_new-keeps p (q ∷ ps) classes h = elim (Bool-cases (holds q classes)) [
  | inl e ↦ rw e (add_new-keeps p ps classes h)
  | inr e ↦
      rw e
        (add_new-keeps p ps (classes ++ (q ∷ [])) (ground (arith, holds-append p classes (q ∷ []))))
]

-- After one class was added it is there.
holds-added :
    (p : PermissionEntry) (classes : List PermissionEntry)
    → holds p (if holds p classes then classes else classes ++ (p ∷ [])) ≡ true
unfolding holds
holds-added p classes = ground (arith, holds-append p classes (p ∷ []), same_entry_refl p)

add_new-adds :
    (p : PermissionEntry) (ps classes : List PermissionEntry)
    → holds p ps ≡ true
    → holds p (add_new classes ps) ≡ true
unfolding add_new holds
add_new-adds p [] classes h = cc
add_new-adds p (q ∷ ps) classes h = elim (Bool-cases (same_entry p q)) [
  | inl e ↦ add_new-keeps p ps (if holds q classes then classes else classes ++ (q ∷ [])) (
      subst (λ r. holds p (if holds r classes then classes else classes ++ (r ∷ [])) ≡ true)
        (same_entry_sound p q e) (holds-added p classes))
  | inr e ↦
      add_new-adds p ps (if holds q classes then classes else classes ++ (q ∷ [])) (ground arith)
]

union_classes-keeps :
    (default : List PermissionEntry) (vs : List Variant) (classes all : List PermissionEntry)
    (p : PermissionEntry)
    → union_classes default classes vs ≡ ok all
    → holds p classes ≡ true
    → holds p all ≡ true
unfolding union_classes
union_classes-keeps default [] classes all p h here = ap (holds p) (sym (ok-injective h)) ∙ here
union_classes-keeps default (not_variant t ∷ vs) classes all p h here = cc
union_classes-keeps default (variant spec ∷ vs) classes all p h here =
    union_classes-keeps default vs (add_new classes (or_else spec.permission_classes default)) all p
      h (add_new-keeps p (or_else spec.permission_classes default) classes here)

abbrev pub variant_permissions : Variant → Option (List PermissionEntry)
variant_permissions (variant spec) = spec.permission_classes
variant_permissions (not_variant t) = none

abbrev declared_classes : List PermissionEntry → Variant → List PermissionEntry
declared_classes default (variant spec) = or_else spec.permission_classes default
declared_classes default (not_variant t) = []

-- The union holds every class of each variant.
pub union_classes-covers :
    (default : List PermissionEntry) (specs : Dict Variant) (classes all : List PermissionEntry)
    (p : PermissionEntry) (k : String) (v : Variant)
    → union_classes default classes (values specs) ≡ ok all
    → get k specs ≡ some v
    → holds p (declared_classes default v) ≡ true
    → holds p all ≡ true
unfolding union_classes get
union_classes-covers default [] classes all p k v h found asked = cc
union_classes-covers default ((j, not_variant t) ∷ specs) classes all p k v h found asked = cc
union_classes-covers default ((j, variant first) ∷ specs) classes all p k v h found asked =
    let added = add_new classes (or_else first.permission_classes default) in
    elim (Bool-cases (j == k)) [
      | inl e ↦
          let same : variant first ≡ v = ground arith in
          union_classes-keeps default (values specs) added all p h (
            add_new-adds p (or_else first.permission_classes default) classes
              (ap (λ w. holds p (declared_classes default w)) same ∙ asked))
      | inr e ↦ union_classes-covers default specs added all p k v h (ground arith) asked
    ]
