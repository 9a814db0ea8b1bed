-- ===== src/Annotations/Descriptions.antt =====
-- `read_input_description`: its reader of the layer and that of the markers agree.
use djangorestframework_serv.Prelude.{
  String, ◌≡◌, refl, sym, ap, ◌∙◌, Bool, false, Option, none, some, List, [], ◌∷◌, any, ok,
  refuse_if, >>=-eq-ok, arith, or_false_left, refuse_if-eq-ok, >>-eq-ok,
}
use djangorestframework_serv.Config.{Config, misplaced_marker}
use djangorestframework_serv.Annotations.{
  Metadata, plain_metadata, Annotation, none_type, annotated, union, Annotations, nil, cons,
}
use djangorestframework_serv.Annotations.Markers.{
  is_marker, is_hidden, carries_a_marker, one_carries, others, only_annotated, union_layer,
  marker_layer, markers_of, read_schema_markers, descriptions, metadata_of, first_metadata,
  layer_metadata, one_description, read_input_description, refuse_misplaced_markers,
}
use djangorestframework_serv.Annotations.Layer.{markers_of-hidden}

descriptions_of_unmarked : (ms : List Metadata) → any is_marker ms ≡ false → descriptions ms ≡ []
unfolding any is_marker
descriptions_of_unmarked [] h = refl
descriptions_of_unmarked (plain_metadata m ∷ ms) h = descriptions_of_unmarked ms h
descriptions_of_unmarked (m ∷ ms) h = cc

metadata_of_unmarked :
    (a : Annotation) → carries_a_marker a ≡ false → any is_marker (metadata_of a) ≡ false
unfolding any carries_a_marker
metadata_of_unmarked (annotated u ms) h = ground arith
metadata_of_unmarked a h = refl

first_metadata_unmarked :
    (as' : Annotations)
    → one_carries as' ≡ false
    → any is_marker (first_metadata (others as')) ≡ false
unfolding any carries_a_marker
first_metadata_unmarked nil h = refl
first_metadata_unmarked (cons none_type as') h = first_metadata_unmarked as' h
first_metadata_unmarked (cons a as') h =
    metadata_of_unmarked a (or_false_left _ (one_carries as') h)

only_annotated_first :
    (as' : List Annotation) (inner : Annotation) (ms : List Metadata)
    → only_annotated as' ≡ some (inner, ms)
    → first_metadata as' ≡ ms
only_annotated_first (annotated u ns ∷ []) inner ms h = cc
only_annotated_first [] inner ms h = cc
only_annotated_first (annotated u ns ∷ _ ∷ _) inner ms h = cc
only_annotated_first (a ∷ as') inner ms h = cc

second-ok :
    {a c : Annotation} {b d : List Metadata}
    → ◌≡◌ {A = Config (Annotation × List Metadata)} (ok (a, b)) (ok (c, d))
    → b ≡ d
second-ok h = cc

union_layer_agrees :
    (as' : Annotations) (o : Option (Annotation × List Metadata)) (u : Annotation)
    (ms : List Metadata)
    → only_annotated (others as') ≡ o
    → union_layer o as' ≡ ok (u, ms)
    → descriptions (first_metadata (others as')) ≡ descriptions ms
unfolding refuse_misplaced_markers carries_a_marker
union_layer_agrees as' none u ms e h =
    let (clean, made) = >>-eq-ok (refuse_if (one_carries as') misplaced_marker) _ h in
    let unmarked = first_metadata_unmarked as' (refuse_if-eq-ok _ misplaced_marker clean) in
    descriptions_of_unmarked (first_metadata (others as')) unmarked
    ∙ ap descriptions (second-ok made)
union_layer_agrees as' (some (inner, ns)) u ms e h =
    let (clean, made) = >>-eq-ok (refuse_if (carries_a_marker inner) misplaced_marker) _ h in
    ap descriptions (only_annotated_first (others as') inner ns e ∙ second-ok made)

-- Where the layer can be read, the two readers of it find the same descriptions.
pub layer_metadata_agrees :
    (a : Annotation) (u : Annotation) (ms : List Metadata)
    → marker_layer a ≡ ok (u, ms)
    → descriptions (layer_metadata a) ≡ descriptions ms
unfolding marker_layer layer_metadata
layer_metadata_agrees (union as') u ms h = union_layer_agrees as' _ u ms refl h
layer_metadata_agrees (annotated underlying metadata) u ms h =
    ap descriptions (second-ok (>>-eq-ok (refuse_misplaced_markers underlying) _ h).1)
layer_metadata_agrees a u ms h =
    ap descriptions (second-ok (>>-eq-ok (refuse_misplaced_markers a) _ h).1)

one_description-eq-some :
    (hidden : Bool) (texts : List String) (text : String)
    → one_description hidden texts ≡ ok (some text)
    → (texts ≡ text ∷ []) × (hidden ≡ false)
one_description-eq-some hidden [] text h = (cc, cc)
one_description-eq-some hidden (t ∷ []) text h = ground arith
one_description-eq-some hidden (t ∷ t' ∷ more) text h = (cc, cc)

-- Where the description reader returns a text, the marker layer of the annotation can be read, it
-- holds that one description, and no marker of it hides the input.
pub read_input_description_sound :
    (a : Annotation) (text : String)
    → read_input_description a ≡ ok (some text)
    → (u : Annotation) × (ms : List Metadata) × (marker_layer a ≡ ok (u, ms))
      × (descriptions ms ≡ text ∷ [])
      × (any is_hidden ms ≡ false)
unfolding read_input_description read_schema_markers
read_input_description_sound a text h =
    let (m, read, described) = >>=-eq-ok (read_schema_markers a) _ h in
    let (layer, found, made) = >>=-eq-ok (marker_layer a) (λ l. markers_of l.0 l.1) read in
    let (one, shown) = one_description-eq-some m.hidden _ text described in
    (
      layer.0,
      layer.1,
      found,
      sym (layer_metadata_agrees a layer.0 layer.1 found) ∙ one,
      sym (markers_of-hidden layer.0 layer.1 m made).1 ∙ shown,
    )
