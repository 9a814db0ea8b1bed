-- ===== src/JsonSchema/Serializers/Bounded.antt =====
-- The walk over nested serializers comes to an end, by the allowance of appearances and by the
-- depth that a caller sets.
use mathlib.Core.Path.{fun_ext}
use djangorestframework_serv.Prelude.{
  ℕ, zero, suc, ◌+◌, ◌-◌, ◌*◌, ◌≤◌, ◌<◌, String, ◌≡◌, refl, ap, ◌∙◌, subst, Bool, true, false,
  Option, none, some, List, [], ◌∷◌, Dict, contains, count, length, is_some, and_then, ◌==◌, leb,
  eq_iff, arith, inl, inr, Bool-cases, Option-cases, or_false_right, some-inj,
}
use djangorestframework_serv.Values.{Entries}
use djangorestframework_serv.JsonSchema.Fields.{
  Field, field, Kind, list_field, list_of, list_serializer, serializer, multiple_choice, choice,
  other, rule_schema, field_to_schema, kind_to_schema, or_walk,
}
use djangorestframework_serv.JsonSchema.Overrides.{ObjectSchema}
use djangorestframework_serv.JsonSchema.Serializers.{
  Texts, Options, Serializers, describe_fields, add_field, describe_object, node,
  serializer_to_schema, is_truncated, beyond_bound,
}

abbrev IsTotal : {I : Type 0} → (I → Option Entries) → Type 0
IsTotal {I} describe = (i : I) → is_some (describe i) ≡ true

and_then-is_some :
    {A B : Type 0} (m : Option A) (f : A → Option B)
    → is_some m ≡ true
    → ((a : A) → is_some (f a) ≡ true)
    → is_some (and_then m f) ≡ true
and_then-is_some none f h next = h
and_then-is_some (some a) f h next = next a

or_walk-is_some :
    (rule walk : Option Entries) → is_some walk ≡ true → is_some (or_walk rule walk) ≡ true
or_walk-is_some none walk h = h
or_walk-is_some (some schema) walk h = refl

mutual
  unfolding field_to_schema

  field_to_schema-total :
      {I : Type 0} (rules : Dict Entries) (describe : I → Option Entries)
      → IsTotal describe
      → (f : Field I) → is_some (field_to_schema rules describe f) ≡ true
  field_to_schema-total rules describe total (field i k) =
      and_then-is_some
        (or_walk (rule_schema i.types rules) (kind_to_schema rules describe i.types k)) _
        (or_walk-is_some (rule_schema i.types rules) _
          (kind_to_schema-total rules describe total i.types k))
        (λ s. refl)

  kind_to_schema-total :
      {I : Type 0} (rules : Dict Entries) (describe : I → Option Entries)
      → IsTotal describe
      → (types : List String) (k : Kind I) → is_some (kind_to_schema rules describe types k) ≡ true
  kind_to_schema-total rules describe total types list_field = refl
  kind_to_schema-total rules describe total types (list_of child) =
      and_then-is_some (field_to_schema rules describe child) _
        (field_to_schema-total rules describe total child) (λ s. refl)
  kind_to_schema-total rules describe total types (list_serializer none) = refl
  kind_to_schema-total rules describe total types (list_serializer (some i)) =
      and_then-is_some (describe i) _ (total i) (λ s. refl)
  kind_to_schema-total rules describe total types (serializer i) = total i
  kind_to_schema-total rules describe total types (multiple_choice allow_empty f) = refl
  kind_to_schema-total rules describe total types (choice f) = refl
  kind_to_schema-total rules describe total types other = refl

-- The appearances that the classes have left on a path.
unfoldable left : List String → List String → ℕ
unfolding count
left [] path = 0
left (c ∷ cs) path = (4 - count c path) + left cs path

left-nil : (classes : List String) → left classes [] ≡ 4 * length classes
unfolding left count
left-nil [] = refl
left-nil (c ∷ cs) = let ih = left-nil cs in ground arith

-- A further appearance of a class is one fewer left.
left-le : (c : String) (classes path : List String) → left classes (c ∷ path) ≤ left classes path
unfolding left count
left-le c [] path = omega arith
left-le c (d ∷ ds) path =
    let ih = left-le c ds path in
    elim (Bool-cases (d == c)) [ inl e ↦ ground arith | inr e ↦ ground arith ]

left-lt :
    (c : String) (classes path : List String)
    → contains c classes ≡ true
    → count c path < 4
    → left classes (c ∷ path) < left classes path
unfolding left contains count
left-lt c [] path h room = cc
left-lt c (d ∷ ds) path h room = elim (Bool-cases (c == d)) [
  | inl e ↦
      let same = (eq_iff c d).0 e in
      let rest = left-le c ds path in
      let here = subst (λ k. count k path < 4) same room in ground (arith, eq_iff d c)
  | inr e ↦
      let rest = left-lt c ds path (ground arith) room in ground (arith, eq_iff d c, eq_iff c d)
]

below-bound :
    (bound : Option ℕ) (depth : ℕ) (path : List String)
    → bound ≡ some depth
    → beyond_bound bound path ≡ false
    → length path < depth
below-bound none depth path e h = cc
below-bound (some m) depth path e h = let same = some-inj e in ground arith

module _ {I : Type 0} (texts : Texts) (options : Options) where
  add_field-is_some :
      (describe : I → Option Entries)
      → IsTotal describe
      → (name : String) (f : Field I) (hidden : Bool) (o : ObjectSchema)
      → is_some (add_field texts options describe name f hidden o) ≡ true
  add_field-is_some describe total name f true o = refl
  add_field-is_some describe total name f false o =
      and_then-is_some (field_to_schema options.rules describe f) _
        (field_to_schema-total options.rules describe total f) (λ s. refl)

  describe_fields-is_some :
      (describe : I → Option Entries)
      → IsTotal describe
      → (fields : Dict (Field I)) → is_some (describe_fields texts options describe fields) ≡ true
  unfolding describe_fields
  describe_fields-is_some describe total [] = refl
  describe_fields-is_some describe total ((name, f) ∷ rest) =
      and_then-is_some (describe_fields texts options describe rest) _
        (describe_fields-is_some describe total rest) (add_field-is_some describe total name f _)

module _ {I : Type 0} (texts : Texts) (options : Options) (serializers : Serializers I) where
  node-is_some :
      (truncated : Bool) (describe : I → Option Entries)
      → (truncated ≡ false → IsTotal describe)
      → (i : I) → is_some (node texts options serializers truncated describe i) ≡ true
  unfolding node describe_object
  node-is_some true describe total i = refl
  node-is_some false describe total i =
      and_then-is_some (describe_object texts options serializers describe i) _
        (and_then-is_some (describe_fields texts options describe (serializers.fields i)) _
          (describe_fields-is_some texts options describe (total refl) (serializers.fields i))
          (λ o. refl))
        (λ o. refl)

  node-agrees :
      (truncated : Bool) (first second : I → Option Entries)
      → (truncated ≡ false → (i : I) → first i ≡ second i)
      → (i : I)
      → node texts options serializers truncated first i
        ≡ node texts options serializers truncated second i
  unfolding node
  node-agrees true first second same i = refl
  node-agrees false first second same i =
      ap (λ describe. node texts options serializers false describe i) (fun_ext (same refl))

  -- Fuel above the appearances that are left is enough.
  returns :
      (classes : List String)
      → ((i : I) → contains (serializers.class_of i) classes ≡ true)
      → (fuel : ℕ) (path : List String) → left classes path < fuel
      → (i : I) → is_some (serializer_to_schema texts options serializers fuel path i) ≡ true
  unfolding serializer_to_schema
  returns classes known zero path h i = ground arith
  returns classes known (suc fuel) path h i =
      node-is_some (is_truncated options.max_depth (serializers.class_of i) path) _
        (λ e. returns classes known fuel (serializers.class_of i ∷ path) (
          let fewer = left-lt (serializers.class_of i) classes path (known i) (ground arith) in
          omega arith))
        i

  -- More fuel than is enough changes nothing.
  agrees :
      (classes : List String)
      → ((i : I) → contains (serializers.class_of i) classes ≡ true)
      → (fuel more : ℕ) (path : List String) → left classes path < fuel
      → left classes path < more
      → (i : I)
      → serializer_to_schema texts options serializers fuel path i
        ≡ serializer_to_schema texts options serializers more path i
  unfolding serializer_to_schema
  agrees classes known zero more path h k i = ground arith
  agrees classes known (suc fuel) zero path h k i = ground arith
  agrees classes known (suc fuel) (suc more) path h k i =
      node-agrees (is_truncated options.max_depth (serializers.class_of i) path) _ _
        (λ e.
          let fewer = left-lt (serializers.class_of i) classes path (known i) (ground arith) in
          agrees classes known fuel more (serializers.class_of i ∷ path) (omega arith)
            (omega arith))
        i

  -- Where the depth is bounded, fuel above the levels that are left is enough.
  returns_by_depth :
      (depth : ℕ)
      → options.max_depth ≡ some depth
      → (fuel : ℕ) (path : List String) → length path ≤ depth
      → depth < length path + fuel
      → (i : I) → is_some (serializer_to_schema texts options serializers fuel path i) ≡ true
  unfolding serializer_to_schema
  returns_by_depth depth bound zero path within h i = ground arith
  returns_by_depth depth bound (suc fuel) path within h i =
      node-is_some (is_truncated options.max_depth (serializers.class_of i) path) _
        (λ e.
          let room : length path < depth = below-bound options.max_depth depth path bound (
            or_false_right (leb 4 (count (serializers.class_of i) path))
              (beyond_bound options.max_depth path) e) in
          returns_by_depth depth bound fuel (serializers.class_of i ∷ path) (omega arith)
            (omega arith))
        i

-- The walk over the serializers of an application comes to an end, whichever instances they nest:
-- where all are instances of finitely many classes, there is one schema of each, and every fuel
-- above four times the number of the classes returns it.
pub serializer_to_schema-returns :
    {I : Type 0} (texts : Texts) (options : Options) (serializers : Serializers I)
    (classes : List String)
    → ((i : I) → contains (serializers.class_of i) classes ≡ true)
    → (i : I)
    → (schema : Entries) × ((fuel : ℕ)
        → 4 * length classes < fuel
        → serializer_to_schema texts options serializers fuel [] i ≡ some schema)
serializer_to_schema-returns texts options serializers classes known i =
    let enough = suc (4 * length classes) in
    let start = left-nil classes in
    elim (Option-cases (serializer_to_schema texts options serializers enough [] i)) [
      | inl e ↦
          let total = returns texts options serializers classes known enough [] (omega arith) i in
          cc
      | inr (schema, e) ↦ (
        schema,
        λ fuel more.
            agrees texts options serializers classes known fuel enough [] (omega arith)
              (omega arith) i
            ∙ e,
      )
    ]

-- A bound on the depth bounds the walk, whatever the classes: with `max_depth` at `depth`, every
-- fuel above `depth` returns a schema.
pub serializer_to_schema-is_some :
    {I : Type 0} (texts : Texts) (options : Options) (serializers : Serializers I) (depth fuel : ℕ)
    → options.max_depth ≡ some depth
    → depth < fuel
    → (i : I) → is_some (serializer_to_schema texts options serializers fuel [] i) ≡ true
serializer_to_schema-is_some texts options serializers depth fuel bound enough i =
    returns_by_depth texts options serializers depth bound fuel [] (omega arith) (omega arith) i
