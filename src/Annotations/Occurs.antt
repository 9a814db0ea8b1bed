-- ===== src/Annotations/Occurs.antt =====
-- Where a marker occurs in an annotation, at any depth (types/read_schema_markers.py).
pub mod Readers
use djangorestframework_serv.Prelude.{
  String, ◌≡◌, ◌↔◌, refl, sym, ap, ◌∙◌, subst, ◌⊎◌, inl, inr, Bool, true, false, ◌||◌, Option, none,
  some, List, [], ◌∷◌, any, ok, err, refuse_if, >>=-eq-ok, >>-eq-ok, refuse_if-eq-ok, arith,
  or_false_left, or_false_right, ok-injective,
}
use djangorestframework_serv.Config.{Config, misplaced_marker}
use djangorestframework_serv.Annotations.{
  Metadata, input_required, not_client_input, input_description, plain_metadata, Annotation,
  none_type, annotated, union, applied, applied_typed_dict, Annotations, nil, cons, Arguments, end,
  one, several,
}
use djangorestframework_serv.Annotations.Markers.{
  is_marker, is_required, is_hidden, carries_a_marker, one_carries, argument_carries, others,
  only_annotated, union_layer, marker_layer, Markers, markers_of, read_schema_markers, descriptions,
  layer_metadata, one_description, read_input_description, refuse_misplaced_markers,
}
use djangorestframework_serv.Annotations.Layer.{
  markers_of-hidden, only_annotated-eq-some, underlying_clean,
}
use djangorestframework_serv.Annotations.Descriptions.{layer_metadata_agrees}

abbrev pub Listed : Metadata → List Metadata → Type 0
Listed x [] = ⊥
Listed x (y ∷ ms) = (y ≡ x) ⊎ Listed x ms

-- The metadata stands somewhere in the annotation: behind a type, in a member of a union, or in an
-- argument, also in one that is a list of types.
unfoldable mutual
  pub Occurs : Metadata → Annotation → Type 0
  Occurs x (annotated underlying metadata) = Listed x metadata ⊎ Occurs x underlying
  Occurs x (union as') = OccursInOne x as'
  Occurs x (applied origin args) = OccursInArgument x args
  Occurs x (applied_typed_dict td required args) = OccursInArgument x args
  Occurs x a = ⊥

  pub OccursInOne : Metadata → Annotations → Type 0
  OccursInOne x nil = ⊥
  OccursInOne x (cons a as') = Occurs x a ⊎ OccursInOne x as'

  pub OccursInArgument : Metadata → Arguments → Type 0
  OccursInArgument x end = ⊥
  OccursInArgument x (one a args) = Occurs x a ⊎ OccursInArgument x args
  OccursInArgument x (several as' args) = OccursInOne x as' ⊎ OccursInArgument x args

abbrev pub IsMarker : Metadata → Type 0
IsMarker (plain_metadata m) = ⊥
IsMarker _ = Unit

marker_true : (x : Metadata) → IsMarker x → is_marker x ≡ true
unfolding is_marker
marker_true (plain_metadata m) marker = absurd marker
marker_true x marker = refl

unmarked-none-Listed :
    (x : Metadata) (ms : List Metadata) → IsMarker x → any is_marker ms ≡ false → ¬ Listed x ms
unfolding any
unmarked-none-Listed x [] marker clean listed = listed
unmarked-none-Listed x (y ∷ ms) marker clean (inl same) =
    let here = or_false_left (is_marker y) _ clean in
    let there = ap is_marker same ∙ marker_true x marker in cc
unmarked-none-Listed x (y ∷ ms) marker clean (inr listed) =
    unmarked-none-Listed x ms marker (or_false_right (is_marker y) _ clean) listed

-- What the scan for markers passes has none at any depth.
mutual
  unfolding carries_a_marker Occurs any

  pub clean-none-Occurs :
      (x : Metadata) (a : Annotation) → IsMarker x → carries_a_marker a ≡ false → ¬ Occurs x a
  clean-none-Occurs x (annotated underlying metadata) marker clean (inl listed) =
      unmarked-none-Listed x metadata marker (or_false_left _ _ clean) listed
  clean-none-Occurs x (annotated underlying metadata) marker clean (inr occurs) =
      clean-none-Occurs x underlying marker (or_false_right _ _ clean) occurs
  clean-none-Occurs x (union as') marker clean occurs = clean-none_in_one x as' marker clean occurs
  clean-none-Occurs x (applied origin args) marker clean occurs =
      clean-none_in_argument x args marker clean occurs
  clean-none-Occurs x (applied_typed_dict td required args) marker clean occurs =
      clean-none_in_argument x args marker clean occurs
  clean-none-Occurs x a marker clean occurs = absurd occurs

  clean-none_in_one :
      (x : Metadata) (as' : Annotations)
      → IsMarker x
      → one_carries as' ≡ false
      → ¬ OccursInOne x as'
  clean-none_in_one x nil marker clean occurs = occurs
  clean-none_in_one x (cons a as') marker clean (inl occurs) =
      clean-none-Occurs x a marker (or_false_left _ _ clean) occurs
  clean-none_in_one x (cons a as') marker clean (inr occurs) =
      clean-none_in_one x as' marker (or_false_right _ _ clean) occurs

  clean-none_in_argument :
      (x : Metadata) (args : Arguments)
      → IsMarker x
      → argument_carries args ≡ false
      → ¬ OccursInArgument x args
  clean-none_in_argument x end marker clean occurs = occurs
  clean-none_in_argument x (one a args) marker clean (inl occurs) =
      clean-none-Occurs x a marker (or_false_left _ _ clean) occurs
  clean-none_in_argument x (one a args) marker clean (inr occurs) =
      clean-none_in_argument x args marker (or_false_right _ _ clean) occurs
  clean-none_in_argument x (several as' args) marker clean (inl occurs) =
      clean-none_in_one x as' marker (or_false_left _ _ clean) occurs
  clean-none_in_argument x (several as' args) marker clean (inr occurs) =
      clean-none_in_argument x args marker (or_false_right _ _ clean) occurs
