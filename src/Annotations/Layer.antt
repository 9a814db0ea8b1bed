-- ===== src/Annotations/Layer.antt =====
-- The layer of an annotation that holds the markers, and the type behind it.
use djangorestframework_serv.Prelude.{
  ◌≡◌, refl, ap, ◌∙◌, inl, inr, false, ◌&&◌, ◌||◌, some, List, [], ◌∷◌, ◌++◌, any, ok, >>=-eq-ok,
  arith, or-false, Option-cases,
}
use djangorestframework_serv.Annotations.{
  Metadata, Annotation, none_type, annotated, union, Annotations, nil, cons, members, of_members,
}
use djangorestframework_serv.Annotations.Markers.{
  is_required, is_hidden, carries_a_marker, one_carries, others, only_annotated, with_inner,
  flattened, without_none, one_none, union_of_members, union_of, marker_layer, Markers, markers_of,
  read_schema_markers,
}

any-append :
    (as' bs : List Annotation)
    → any carries_a_marker (as' ++ bs) ≡ (any carries_a_marker as' || any carries_a_marker bs)
unfolding any
any-append [] bs = refl
any-append (a ∷ as') bs = ground (arith, any-append as' bs)

any-members : (as' : Annotations) → any carries_a_marker (members as') ≡ one_carries as'
unfolding any carries_a_marker
any-members nil = refl
any-members (cons a as') = ground (arith, any-members as')

one_carries-of_members :
    (as' : List Annotation) → one_carries (of_members as') ≡ any carries_a_marker as'
unfolding any carries_a_marker
one_carries-of_members [] = refl
one_carries-of_members (a ∷ as') = ground (arith, one_carries-of_members as')

any-flattened : (as' : Annotations) → any carries_a_marker (flattened as') ≡ one_carries as'
unfolding any carries_a_marker
any-flattened nil = refl
any-flattened (cons (union inner) as') =
    any-append (members inner) (flattened as')
    ∙ ground (arith, any-members inner, any-flattened as')
any-flattened (cons a as') = ground (arith, any-flattened as')

any-without_none :
    (as' : List Annotation) → any carries_a_marker (without_none as') ≡ any carries_a_marker as'
unfolding any carries_a_marker
any-without_none [] = refl
any-without_none (none_type ∷ as') = any-without_none as'
any-without_none (a ∷ as') = ground (arith, any-without_none as')

any-one_none :
    (as' : List Annotation) → any carries_a_marker (one_none as') ≡ any carries_a_marker as'
unfolding any carries_a_marker
any-one_none [] = refl
any-one_none (none_type ∷ as') = any-without_none as'
any-one_none (a ∷ as') = ground (arith, any-one_none as')

carries-union_of_members :
    (as' : List Annotation) → carries_a_marker (union_of_members as') ≡ any carries_a_marker as'
unfolding any carries_a_marker
carries-union_of_members [] = refl
carries-union_of_members (a ∷ []) = or-false (carries_a_marker a)
carries-union_of_members (a ∷ b ∷ as') =
    ap (λ rest. carries_a_marker a || (carries_a_marker b || rest)) (one_carries-of_members as')

carries-union_of : (as' : Annotations) → carries_a_marker (union_of as') ≡ one_carries as'
unfolding union_of
carries-union_of as' =
    carries-union_of_members (one_none (flattened as'))
    ∙ any-one_none (flattened as')
    ∙ any-flattened as'

one_carries-with_inner :
    (inner : Annotation) (as' : Annotations)
    → carries_a_marker inner ≡ false
    → one_carries (with_inner inner as') ≡ false
unfolding carries_a_marker
one_carries-with_inner inner nil h = refl
one_carries-with_inner inner (cons none_type as') h = one_carries-with_inner inner as' h
one_carries-with_inner inner (cons a as') h = ground (arith, one_carries-with_inner inner as' h)

pub only_annotated-eq-some :
    (as' : List Annotation) (inner : Annotation) (metadata : List Metadata)
    → only_annotated as' ≡ some (inner, metadata)
    → as' ≡ annotated inner metadata ∷ []
only_annotated-eq-some [] inner metadata h = cc
only_annotated-eq-some (annotated u md ∷ []) inner metadata h = cc
only_annotated-eq-some (annotated u md ∷ a ∷ as') inner metadata h = cc
only_annotated-eq-some (a ∷ as') inner metadata h = cc

marker_layer_clean :
    (a : Annotation) (u : Annotation) (ms : List Metadata)
    → marker_layer a ≡ ok (u, ms)
    → carries_a_marker u ≡ false
unfolding marker_layer
marker_layer_clean (union as') u ms h = elim (Option-cases (only_annotated (others as'))) [
  | inl e ↦ ground arith
  | inr (p, e) ↦
      ground (arith, carries-union_of (with_inner p.0 as'), one_carries-with_inner p.0 as')
]
marker_layer_clean (annotated underlying metadata) u ms h = ground arith
marker_layer_clean a u ms h = ground arith

pub markers_of-underlying :
    (u : Annotation) (ms : List Metadata) (m : Markers) → markers_of u ms ≡ ok m → m.underlying ≡ u
markers_of-underlying u ms m h = ground arith

-- The scan for markers finds none in the type that is left behind the layer.
pub underlying_clean :
    (a : Annotation) (m : Markers)
    → read_schema_markers a ≡ ok m
    → carries_a_marker m.underlying ≡ false
unfolding read_schema_markers
underlying_clean a m h =
    let (layer, read, made) = >>=-eq-ok (marker_layer a) (λ layer. markers_of layer.0 layer.1) h in
    let clean = marker_layer_clean a layer.0 layer.1 read in
    rw (ap (λ u. carries_a_marker u) (markers_of-underlying layer.0 layer.1 m made)) clean

pub markers_of-hidden :
    (u : Annotation) (ms : List Metadata) (m : Markers)
    → markers_of u ms ≡ ok m
    → (m.required ≡ any is_required ms)
      × (m.hidden ≡ any is_hidden ms)
      × ((m.required && m.hidden) ≡ false)
markers_of-hidden u ms m h = ground arith
