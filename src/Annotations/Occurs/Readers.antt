-- ===== src/Annotations/Occurs/Readers.antt =====
-- That the readers of types/read_schema_markers.py and types/read_input_description.py read or refuse
-- each marker of an annotation.
use djangorestframework_serv.Prelude.{
  String, ◌≡◌, ◌↔◌, refl, sym, ◌∙◌, subst, ◌⊎◌, inl, inr, Bool, true, false, Option, none, some,
  List, [], ◌∷◌, any, ok, >>=-eq-ok, >>-eq-ok, refuse_if-eq-ok,
}
use djangorestframework_serv.Config.{Config, misplaced_marker}
use djangorestframework_serv.Annotations.{
  Metadata, input_required, not_client_input, input_description, Annotation, none_type, annotated,
  union, Annotations, nil, cons,
}
use djangorestframework_serv.Annotations.Markers.{
  is_required, is_hidden, carries_a_marker, others, only_annotated, union_layer, marker_layer,
  Markers, markers_of, read_schema_markers, descriptions, layer_metadata, one_description,
  read_input_description, refuse_misplaced_markers,
}
use djangorestframework_serv.Annotations.Layer.{
  markers_of-hidden, only_annotated-eq-some, underlying_clean,
}
use djangorestframework_serv.Annotations.Descriptions.{layer_metadata_agrees}
use djangorestframework_serv.Annotations.Occurs.{
  Listed, Occurs, OccursInOne, IsMarker, clean-none-Occurs,
}

abbrev SomeOccurs : Metadata → List Annotation → Type 0
SomeOccurs x [] = ⊥
SomeOccurs x (a ∷ as') = Occurs x a ⊎ SomeOccurs x as'

occurs_in_others :
    (x : Metadata) (as' : Annotations) → OccursInOne x as' ↔ SomeOccurs x (others as')
unfolding Occurs
occurs_in_others x nil = (λ h. h, λ h. h)
occurs_in_others x (cons none_type as') =
    let (to, from) = occurs_in_others x as' in
    (λ h. elim h [ inl absent ↦ absurd absent | inr more ↦ to more ], λ h. inr (from h))
occurs_in_others x (cons a as') =
    let (to, from) = occurs_in_others x as' in
    (
      λ h. elim h [ inl here ↦ inl here | inr more ↦ inr (to more) ],
      λ h. elim h [ inl here ↦ inl here | inr more ↦ inr (from more) ],
    )

clean_of_refused :
    (a : Annotation) → refuse_misplaced_markers a ≡ ok tt → carries_a_marker a ≡ false
unfolding refuse_misplaced_markers
clean_of_refused a h = refuse_if-eq-ok (carries_a_marker a) misplaced_marker h

same_metadata :
    {a c : Annotation} {b d : List Metadata}
    → ◌≡◌ {A = Config (Annotation × List Metadata)} (ok (a, b)) (ok (c, d))
    → b ≡ d
same_metadata h = cc

occurs_in_optional :
    (x : Metadata) (inner : Annotation) (metadata : List Metadata) (as' : Annotations)
    → IsMarker x
    → others as' ≡ annotated inner metadata ∷ []
    → carries_a_marker inner ≡ false
    → OccursInOne x as' ↔ Listed x metadata
unfolding Occurs
occurs_in_optional x inner metadata as' marker alone clean =
    let (to, from) = occurs_in_others x as' in
    (
      λ h. elim (subst (SomeOccurs x) alone (to h)) [
        | inl (inl listed) ↦ listed
        | inl (inr occurs) ↦ absurd (clean-none-Occurs x inner marker clean occurs)
        | inr absent ↦ absurd absent
      ],
      λ listed. from (subst (SomeOccurs x) (sym alone) (inl (inl listed))),
    )

union_layer_lem :
    (x : Metadata) (as' : Annotations) (o : Option (Annotation × List Metadata)) (u : Annotation)
    (ms : List Metadata)
    → IsMarker x
    → only_annotated (others as') ≡ o
    → union_layer o as' ≡ ok (u, ms)
    → OccursInOne x as' ↔ Listed x ms
unfolding Occurs
union_layer_lem x as' none u ms marker e h =
    let (refused, made) = >>-eq-ok (refuse_misplaced_markers (union as')) _ h in
    subst (λ ns. OccursInOne x as' ↔ Listed x ns) (same_metadata made)
      (
        λ occurs. clean-none-Occurs x (union as') marker (clean_of_refused _ refused) occurs,
        λ listed. absurd listed,
      )
union_layer_lem x as' (some (inner, metadata)) u ms marker e h =
    let (refused, made) = >>-eq-ok (refuse_misplaced_markers inner) _ h in
    subst (λ ns. OccursInOne x as' ↔ Listed x ns) (same_metadata made)
      (occurs_in_optional x inner metadata as' marker
        (only_annotated-eq-some (others as') inner metadata e) (clean_of_refused _ refused))

-- Of an annotation whose layer can be read, the markers are those of the layer.
marker_layer_lem :
    (x : Metadata) (a u : Annotation) (ms : List Metadata)
    → IsMarker x
    → marker_layer a ≡ ok (u, ms)
    → Occurs x a ↔ Listed x ms
unfolding marker_layer Occurs
marker_layer_lem x (annotated underlying metadata) u ms marker h =
    let (refused, made) = >>-eq-ok (refuse_misplaced_markers underlying) _ h in
    subst (λ ns. Occurs x (annotated underlying metadata) ↔ Listed x ns) (same_metadata made)
      (
        λ h. elim h [
          | inl listed ↦ listed
          | inr occurs ↦
              absurd (clean-none-Occurs x underlying marker (clean_of_refused _ refused) occurs)
        ],
        λ listed. inl listed,
      )
marker_layer_lem x (union as') u ms marker h =
    union_layer_lem x as' (only_annotated (others as')) u ms marker refl h
marker_layer_lem x a u ms marker h =
    let (refused, made) = >>-eq-ok (refuse_misplaced_markers a) _ h in
    subst (λ ns. Occurs x a ↔ Listed x ns) (same_metadata made)
      (
        λ occurs. clean-none-Occurs x a marker (clean_of_refused _ refused) occurs,
        λ listed. absurd listed,
      )

any_required_iff : (ms : List Metadata) → (any is_required ms ≡ true) ↔ Listed input_required ms
unfolding any
any_required_iff [] = (λ h. cc, λ h. absurd h)
any_required_iff (input_required ∷ ms) = (λ h. inl refl, λ h. refl)
any_required_iff (y ∷ ms) =
    let (to, from) = any_required_iff ms in
    (λ h. inr (to h), λ h. elim h [ inl same ↦ cc | inr listed ↦ from listed ])

any_hidden_iff : (ms : List Metadata) → (any is_hidden ms ≡ true) ↔ Listed not_client_input ms
unfolding any
any_hidden_iff [] = (λ h. cc, λ h. absurd h)
any_hidden_iff (not_client_input ∷ ms) = (λ h. inl refl, λ h. refl)
any_hidden_iff (y ∷ ms) =
    let (to, from) = any_hidden_iff ms in
    (λ h. inr (to h), λ h. elim h [ inl same ↦ cc | inr listed ↦ from listed ])

no_descriptions_iff :
    (ms : List Metadata)
    → (descriptions ms ≡ []) ↔ ¬ ((text : String) × Listed (input_description text) ms)
no_descriptions_iff [] = (λ h (text, listed). listed, λ h. refl)
no_descriptions_iff (input_description text ∷ ms) =
    (λ h. absurd (cc), λ h. absurd (h (text, inl refl)))
no_descriptions_iff (y ∷ ms) =
    let (to, from) = no_descriptions_iff ms in
    (
      λ h (text, listed). elim listed [ inl same ↦ cc | inr more ↦ to h (text, more) ],
      λ h. from (λ (text, more). h (text, inr more)),
    )

one_description-none :
    (hidden : Bool) (texts : List String) → (one_description hidden texts ≡ ok none) ↔ (texts ≡ [])
one_description-none hidden [] = (λ h. refl, λ h. refl)
one_description-none true (text ∷ []) = (λ h. cc, λ h. cc)
one_description-none false (text ∷ []) = (λ h. cc, λ h. cc)
one_description-none hidden (text ∷ other ∷ more) = (λ h. cc, λ h. cc)

no_description_lem :
    (a u : Annotation) (ms : List Metadata) (m : Markers)
    → read_schema_markers a ≡ ok m
    → marker_layer a ≡ ok (u, ms)
    → (read_input_description a ≡ ok none) ↔ ¬ ((text : String) × Occurs (input_description text) a)
unfolding read_input_description
no_description_lem a u ms m read layer =
    let texts : List String = descriptions (layer_metadata a) in
    let same : texts ≡ descriptions ms = layer_metadata_agrees a u ms layer in
    let (empty, of_empty) = one_description-none m.hidden texts in
    let (absent, of_absent) = no_descriptions_iff ms in
    let found = λ (text : String). marker_layer_lem (input_description text) a u ms tt layer in
    (
      λ h (text, occurs).
          absent (sym same ∙ empty (sym (reads read) ∙ h)) (text, (found text).0 occurs),
      λ none_there.
          reads read
          ∙ of_empty
              (same ∙ of_absent (λ (text, listed). none_there (text, (found text).1 listed))),
    )
  where
    reads :
        {n : Markers}
        → read_schema_markers a ≡ ok n
        → read_input_description a ≡ one_description n.hidden (descriptions (layer_metadata a))
    reads read' = rw (read') refl

-- Of an annotation whose markers can be read, no marker is left at any depth of the type behind them.
-- The annotation is read as required exactly where `InputRequired` occurs in it at any depth, and
-- as hidden exactly where `NotClientInput` does; and it is read as having no description exactly where
-- no `InputDescription` does, so that a description is read or refused.
pub read_schema_markers_clean :
    (a : Annotation) (m : Markers)
    → read_schema_markers a ≡ ok m
    → (¬ ((x : Metadata) × IsMarker x × Occurs x m.underlying))
      × ((m.required ≡ true) ↔ Occurs input_required a)
      × ((m.hidden ≡ true) ↔ Occurs not_client_input a)
      × ((read_input_description a ≡ ok none)
          ↔ ¬ ((text : String) × Occurs (input_description text) a))
unfolding read_schema_markers
read_schema_markers_clean a m h =
    let (layer, found, made) = >>=-eq-ok (marker_layer a) (λ l. markers_of l.0 l.1) h in
    let (required, hidden, _) = markers_of-hidden layer.0 layer.1 m made in
    let (listed, of_listed) = any_required_iff layer.1 in
    let (listed', of_listed') = any_hidden_iff layer.1 in
    let (in_layer, of_layer) = marker_layer_lem input_required a layer.0 layer.1 tt found in
    let (in_layer', of_layer') = marker_layer_lem not_client_input a layer.0 layer.1 tt found in
    (
      λ (x, marker, occurs).
          clean-none-Occurs x m.underlying marker (underlying_clean a m h) occurs,
      (λ r. of_layer (listed (sym required ∙ r)), λ o. required ∙ of_listed (in_layer o)),
      (λ r. of_layer' (listed' (sym hidden ∙ r)), λ o. hidden ∙ of_listed' (in_layer' o)),
      no_description_lem a layer.0 layer.1 m h found,
    )
