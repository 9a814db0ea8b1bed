-- ===== src/JsonSchema/Types/Sizes.antt =====
-- What is left of a type behind its markers is no larger than the type.
use djangorestframework_serv.Prelude.{
  ℕ, suc, ◌+◌, ◌≤◌, ◌≡◌, refl, ap, sym, subst, Option, none, some, List, [], ◌∷◌, ◌++◌, ok,
  >>=-eq-ok, >>-eq-ok, ok-injective, arith,
}
use djangorestframework_serv.Annotations.{
  Metadata, Annotation, none_type, annotated, union, applied, Annotations, nil, cons, Arguments,
  end, one, several, members, of_members,
}
use djangorestframework_serv.Annotations.Layer.{markers_of-underlying, only_annotated-eq-some}
use djangorestframework_serv.Annotations.Markers.{
  Markers, others, only_annotated, with_inner, flattened, without_none, one_none, union_of_members,
  union_of, union_layer, marker_layer, markers_of, read_schema_markers, refuse_misplaced_markers,
}

unfoldable mutual
  pub size : Annotation → ℕ
  size (annotated underlying metadata) = suc (size underlying)
  size (union as') = suc (total as')
  size (applied origin args) = suc (arguments_size args)
  size _ = 1

  pub total : Annotations → ℕ
  total nil = 0
  total (cons a as') = size a + total as'

  pub arguments_size : Arguments → ℕ
  arguments_size end = 1
  arguments_size (one a args) = size a + arguments_size args
  arguments_size (several as' args) = suc (arguments_size args)

unfoldable sum : List Annotation → ℕ
unfolding size
sum [] = 0
sum (a ∷ as') = size a + sum as'

sum-append : (as' bs : List Annotation) → sum (as' ++ bs) ≡ sum as' + sum bs
unfolding sum
sum-append [] bs = omega arith
sum-append (a ∷ as') bs = let ih = sum-append as' bs in omega arith

sum-members : (as' : Annotations) → sum (members as') ≡ total as'
unfolding sum size
sum-members nil = refl
sum-members (cons a as') = ap (λ n. size a + n) (sum-members as')

total-of_members : (as' : List Annotation) → total (of_members as') ≡ sum as'
unfolding sum size
total-of_members [] = refl
total-of_members (a ∷ as') = ap (λ n. size a + n) (total-of_members as')

sum-flattened : (as' : Annotations) → sum (flattened as') ≤ total as'
unfolding sum size
sum-flattened nil = omega arith
sum-flattened (cons (union inner) as') =
    let ih = sum-flattened as' in
    let both = sum-append (members inner) (flattened as') in
    let own = sum-members inner in omega arith
sum-flattened (cons a as') = let ih = sum-flattened as' in omega arith

sum-without_none : (as' : List Annotation) → sum (without_none as') ≤ sum as'
unfolding sum size
sum-without_none [] = omega arith
sum-without_none (none_type ∷ as') = let ih = sum-without_none as' in omega arith
sum-without_none (a ∷ as') = let ih = sum-without_none as' in omega arith

sum-one_none : (as' : List Annotation) → sum (one_none as') ≤ sum as'
unfolding sum size
sum-one_none [] = omega arith
sum-one_none (none_type ∷ as') = let rest = sum-without_none as' in omega arith
sum-one_none (a ∷ as') = let ih = sum-one_none as' in omega arith

size-union_of_members : (as' : List Annotation) → size (union_of_members as') ≤ suc (sum as')
unfolding sum size
size-union_of_members [] = omega arith
size-union_of_members (a ∷ []) = omega arith
size-union_of_members (a ∷ b ∷ as') = let same = total-of_members as' in omega arith

-- Only None stands beside the members.
total-with_inner_none :
    (inner : Annotation) (as' : Annotations)
    → others as' ≡ []
    → total (with_inner inner as') ≤ total as'
unfolding size
total-with_inner_none inner nil h = omega arith
total-with_inner_none inner (cons none_type as') h =
    let ih = total-with_inner_none inner as' h in omega arith
total-with_inner_none inner (cons a as') h = cc

total-with_inner :
    (as' : Annotations) (inner : Annotation) (metadata : List Metadata)
    → others as' ≡ annotated inner metadata ∷ []
    → total (with_inner inner as') ≤ total as'
unfolding size
total-with_inner nil inner metadata h = cc
total-with_inner (cons none_type as') inner metadata h =
    let ih = total-with_inner as' inner metadata h in omega arith
total-with_inner (cons (annotated u md) as') inner metadata h =
    let alone : others as' ≡ [] = cc in
    let rest = total-with_inner_none inner as' alone in
    let same : size u ≡ size inner = cc in omega arith
total-with_inner (cons a as') inner metadata h = cc

size-union_of : (as' : Annotations) → size (union_of as') ≤ suc (total as')
unfolding union_of
size-union_of as' =
    let single = size-union_of_members (one_none (flattened as')) in
    let nones = sum-one_none (flattened as') in let flat = sum-flattened as' in omega arith

size-union_layer :
    (found : Option (Annotation × List Metadata)) (as' : Annotations)
    (layer : Annotation × List Metadata)
    → only_annotated (others as') ≡ found
    → union_layer found as' ≡ ok layer
    → size layer.0 ≤ suc (total as')
unfolding size
size-union_layer none as' layer e h =
    let (_, made) = >>-eq-ok (refuse_misplaced_markers (union as')) _ h in
    subst (λ l. size l.0 ≤ suc (total as')) (ok-injective made) (omega arith)
size-union_layer (some (inner, metadata)) as' layer e h =
    let (_, made) = >>-eq-ok (refuse_misplaced_markers inner) _ h in
    let alone = only_annotated-eq-some (others as') inner metadata e in
    let inside = total-with_inner as' inner metadata alone in
    let rebuilt = size-union_of (with_inner inner as') in
    subst (λ l. size l.0 ≤ suc (total as')) (ok-injective made) (omega arith)

size-marker_layer :
    (a : Annotation) (layer : Annotation × List Metadata)
    → marker_layer a ≡ ok layer
    → size layer.0 ≤ size a
unfolding marker_layer size
size-marker_layer (annotated underlying metadata) layer h =
    let (_, made) = >>-eq-ok (refuse_misplaced_markers underlying) _ h in
    subst (λ l. size l.0 ≤ suc (size underlying)) (ok-injective made) (omega arith)
size-marker_layer (union as') layer h =
    size-union_layer (only_annotated (others as')) as' layer refl h
size-marker_layer a layer h =
    let (_, made) = >>-eq-ok (refuse_misplaced_markers a) _ h in
    subst (λ l. size l.0 ≤ size a) (ok-injective made) (omega arith)

-- The type behind the markers is no larger than the type.
pub size-underlying :
    (a : Annotation) (m : Markers) → read_schema_markers a ≡ ok m → size m.underlying ≤ size a
unfolding read_schema_markers
size-underlying a m h =
    let (layer, found, made) = >>=-eq-ok (marker_layer a) (λ l. markers_of l.0 l.1) h in
    let within = size-marker_layer a layer found in
    subst (λ u. size u ≤ size a) (sym (markers_of-underlying layer.0 layer.1 m made)) within
