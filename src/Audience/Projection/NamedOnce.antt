-- ===== src/Audience/Projection/NamedOnce.antt =====
-- A projected record has at most one name.
use mathlib.Core.List.{append-nil}
use djangorestframework_serv.Prelude.{
  String, ◌≡◌, refl, inl, inr, ap, ◌∙◌, false, Option, none, some, List, [], ◌∷◌, ◌++◌, Dict, ok,
  refuse_if, >>=-eq-ok, >>-eq-ok, refuse_if-eq-ok, ok-injective, arith, Bool-cases, ltb, length,
  update,
}
use djangorestframework_serv.Audience.Projection.{
  FieldMarking, Fields, done, bound, Projection, fields_of, label_of, empty_projection, marking_of,
  is_label, mark, next_label, project_fields, project_child, project, labels, first, with_overrides,
  overridden, build_audience_projection,
}

abbrev listed : Option String → List String
listed none = []
listed (some k) = k ∷ []

-- The label is the one field that is marked as the label, and there is none where no field is.
abbrev pub IsNamedOnce : Projection → Type 0
IsNamedOnce p = labels (fields_of p) ≡ listed (label_of p)

-- What one field adds to the labels, by the label found before it and after it.
next_label_lem :
    (name : String) (m : Option FieldMarking) (seen seen' : Option String) (d : Dict FieldMarking)
    → next_label name m seen ≡ ok seen'
    → listed seen ++ labels (mark name m d) ≡ listed seen' ++ labels d
next_label_lem name none seen seen' d h = ap (λ s. listed s ++ labels d) (ok-injective h)
next_label_lem name (some m) none seen' d h = elim (Bool-cases (is_label m)) [
  | inl e ↦ rw e (ap (λ s. listed s ++ labels d) (ok-injective (rw e at h)))
  | inr e ↦ rw e (ap (λ s. listed s ++ labels d) (ok-injective (rw e at h)))
]
next_label_lem name (some m) (some other) seen' d h = elim (Bool-cases (is_label m)) [
  | inl e ↦ absurd (ground arith)
  | inr e ↦ rw e (ap (λ s. listed s ++ labels d) (ok-injective (rw e at h)))
]

project_fields_sound :
    (seen : Option String) (fs : Fields) (p : Projection)
    → project_fields seen fs ≡ ok p
    → listed seen ++ labels (fields_of p) ≡ listed (label_of p)
unfolding project_fields
project_fields_sound seen done p h = rw (← ok-injective h) (append-nil (listed seen))
project_fields_sound seen (bound name f rest) p h =
    let (m, marked, h1) = >>=-eq-ok (marking_of name f) _ h in
    let (seen', next, h2) = >>=-eq-ok (next_label name m seen) _ h1 in
    let (inner, projected, h3) = >>=-eq-ok (project_child f) _ h2 in
    let (later, found, made) = >>=-eq-ok (project_fields seen' rest) _ h3 in
    rw (← ok-injective made) (
      next_label_lem name m seen seen' (fields_of later) next
      ∙ project_fields_sound seen' rest later found)

labels_below_two : (ks : List String) → ltb 1 (length ks) ≡ false → ks ≡ listed (first ks)
labels_below_two [] h = refl
labels_below_two (k ∷ []) h = refl
labels_below_two (k ∷ k' ∷ ks) h = absurd (ground arith)

with_overrides_sound :
    (p q : Projection) (overrides : Dict FieldMarking)
    → with_overrides p overrides ≡ ok q
    → IsNamedOnce q
unfolding with_overrides
with_overrides_sound p q overrides h =
    let fields = update (fields_of p) overrides in
    let (few, made) = >>-eq-ok (refuse_if (ltb 1 (length (labels fields))) _) _ h in
    rw (← ok-injective made) (labels_below_two (labels fields) (refuse_if-eq-ok _ _ few))

overridden_sound :
    (p q : Projection) (overrides : Option (Dict FieldMarking))
    → IsNamedOnce p
    → overridden p overrides ≡ ok q
    → IsNamedOnce q
overridden_sound p q none named h = rw (← ok-injective h) named
overridden_sound p q (some []) named h = rw (← ok-injective h) named
overridden_sound p q (some (m ∷ marks)) named h = with_overrides_sound p q (m ∷ marks) h

-- Of a projection that is built, whatever the serializer and the overrides, the label is the one
-- field marked as the label, and there is no label where no field is marked so.
pub build_audience_projection-IsNamedOnce :
    (rendered : Option Fields) (overrides : Option (Dict FieldMarking)) (q : Projection)
    → build_audience_projection rendered overrides ≡ ok q
    → IsNamedOnce q
unfolding build_audience_projection
build_audience_projection-IsNamedOnce none overrides q h =
    overridden_sound empty_projection q overrides refl h
build_audience_projection-IsNamedOnce (some fs) overrides q h =
    let (p, projected, h1) = >>=-eq-ok (project fs) _ h in
    overridden_sound p q overrides (project_fields_sound none fs p (unfold project in projected)) h1
