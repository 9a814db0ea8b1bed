-- ===== src/JsonSchema/Serializers/Published.antt =====
-- The properties and the required names of a described serializer.
use djangorestframework_serv.Prelude.{
  String, ◌≡◌, refl, ap, sym, ◌∙◌, subst, Bool, true, false, ◌&&◌, not, Option, none, some, List,
  [], ◌∷◌, Dict, keys, contains, keep, contains-keep, Distinct, and_then, if◌then◌else◌, ◌==◌,
  eq_iff, eq_sym, arith, inl, inr, Bool-cases, some-inj,
}
use djangorestframework_serv.Values.{Entries}
use djangorestframework_serv.JsonSchema.Fields.{
  SpectacularAnnotation, FieldInfo, Field, info, field_to_schema,
}
use djangorestframework_serv.JsonSchema.Overrides.{
  ObjectSchema, pop, remove, exclude, deprecate_one, deprecate, excluded,
  apply_serializer_overrides, layer_annotation, names_or_none, is_of_field,
}
use djangorestframework_serv.JsonSchema.Serializers.{
  Texts, Options, Serializers, hides_field, demands_field, describe_fields, add_field,
  describe_object,
}

-- The names of the fields that satisfy `p`, in order.
unfoldable pub names_where : {I : Type 0} → (FieldInfo → Bool) → Dict (Field I) → List String
names_where p [] = []
names_where p ((name, f) ∷ rest) =
    let names = names_where p rest in if p (info f) then name ∷ names else names

abbrev pub is_shown : Bool → FieldInfo → Bool
is_shown for_output i = not (hides_field for_output i)

abbrev pub is_demanded : Bool → FieldInfo → Bool
is_demanded for_output i = not (hides_field for_output i) && demands_field for_output i

-- The names that an annotation leaves.
abbrev pub without : List String → List String → List String
without names = keep (λ k. not (contains k names))

and_then-eq-some :
    {A B : Type 0} (m : Option A) (f : A → Option B) {b : B}
    → and_then m f ≡ some b
    → (a : A) × (m ≡ some a) × (f a ≡ some b)
and_then-eq-some none f h = cc
and_then-eq-some (some a) f h = (a, refl, h)

module _ {I : Type 0} (texts : Texts) (options : Options) (describe : I → Option Entries) where
  abbrev Describes : Dict (Field I) → ObjectSchema → Type 0
  Describes fields o =
      (keys o.properties ≡ names_where (is_shown options.for_output) fields)
      × (o.required ≡ names_where (is_demanded options.for_output) fields)

  add_field-Describes :
      (name : String) (f : Field I) (rest : Dict (Field I)) (hidden : Bool)
      (before o : ObjectSchema)
      → hides_field options.for_output (info f) ≡ hidden
      → Describes rest before
      → add_field texts options describe name f hidden before ≡ some o
      → Describes ((name, f) ∷ rest) o
  unfolding names_where
  add_field-Describes name f rest true before o e (ks, rs) h =
      subst (λ x. Describes ((name, f) ∷ rest) x) (some-inj h)
        (let shown = ap not e in (ground arith, ground arith))
  add_field-Describes name f rest false before o e (ks, rs) h =
      let (schema, _, built) = and_then-eq-some (field_to_schema options.rules describe f) _ h in
      subst (λ x. Describes ((name, f) ∷ rest) x) (some-inj built)
        (let shown = ap not e in
          let head = ap (λ ns. name ∷ ns) ks in
          let demanded = ap (λ ns. name ∷ ns) rs in (ground arith, ground arith))

  describe_fields-Describes :
      (fields : Dict (Field I)) (o : ObjectSchema)
      → describe_fields texts options describe fields ≡ some o
      → Describes fields o
  unfolding describe_fields names_where
  describe_fields-Describes [] o h = subst (λ x. Describes [] x) (some-inj h) (refl, refl)
  describe_fields-Describes ((name, f) ∷ rest) o h =
      let (before, first, added) =
        and_then-eq-some (describe_fields texts options describe rest) _ h in
      add_field-Describes name f rest _ before o refl (describe_fields-Describes rest before first)
        added

-- A name that is not there is not removed, and one that stands once is kept out.
keep-none :
    (k : String) (names : List String)
    → contains k names ≡ false
    → keep (λ j. not (k == j)) names ≡ names
unfolding keep contains
keep-none k [] h = refl
keep-none k (j ∷ names) h = let ih = keep-none k names in ground arith

remove_lem :
    (k : String) (names : List String)
    → Distinct names
    → remove k names ≡ keep (λ j. not (k == j)) names
unfolding remove keep
remove_lem k [] d = refl
remove_lem k (j ∷ names) (absent, d) = elim (Bool-cases (k == j)) [
  | inl e ↦
      let same = (eq_iff k j).0 e in
      let none_left = keep-none k names (ap (λ n. contains n names) same ∙ absent) in ground arith
  | inr e ↦ let ih = remove_lem k names d in ground arith
]

keys-pop : (k : String) (d : Dict Entries) → keys (pop k d) ≡ keep (λ j. not (k == j)) (keys d)
unfolding pop keep
keys-pop k [] = refl
keys-pop k ((j, v) ∷ d) = let ih = keys-pop k d in ground arith

if-Distinct :
    (b : Bool) (k : String) (names : List String)
    → contains k names ≡ false
    → Distinct names
    → Distinct (if b then k ∷ names else names)
if-Distinct true k names absent d = (absent, d)
if-Distinct false k names absent d = d

keep-Distinct : (p : String → Bool) (names : List String) → Distinct names → Distinct (keep p names)
unfolding keep
keep-Distinct p [] d = tt
keep-Distinct p (j ∷ names) (absent, d) =
    if-Distinct (p j) j _ (contains-keep p j names ∙ ground arith) (keep-Distinct p names d)

without-nil : (names : List String) → without [] names ≡ names
unfolding keep contains
without-nil [] = refl
without-nil (j ∷ names) = ap (λ ns. j ∷ ns) (without-nil names)

without-cons :
    (k : String) (ks names : List String)
    → without ks (keep (λ j. not (k == j)) names) ≡ without (k ∷ ks) names
unfolding keep contains
without-cons k ks [] = refl
without-cons k ks (j ∷ names) = let ih = without-cons k ks names in ground (arith, eq_sym k j)

exclude_lem :
    (ks : List String) (o : ObjectSchema)
    → Distinct o.required
    → (keys (exclude ks o).properties ≡ without ks (keys o.properties))
      × ((exclude ks o).required ≡ without ks o.required)
unfolding exclude
exclude_lem [] o d = (sym (without-nil (keys o.properties)), sym (without-nil o.required))
exclude_lem (k ∷ ks) o d =
    let removed = remove_lem k o.required d in
    let (shown, demanded) =
      exclude_lem ks
        (record {
          properties = pop k o.properties;
          required = remove k o.required;
          examples = o.examples;
        })
        (subst Distinct (sym removed) (keep-Distinct (λ j. not (k == j)) o.required d)) in
    (
      shown ∙ ap (without ks) (keys-pop k o.properties) ∙ without-cons k ks (keys o.properties),
      demanded ∙ ap (without ks) removed ∙ without-cons k ks o.required,
    )

keys-deprecate_one : (k : String) (d : Dict Entries) → keys (deprecate_one k d) ≡ keys d
unfolding deprecate_one
keys-deprecate_one k [] = refl
keys-deprecate_one k ((j, schema) ∷ d) = ap (λ ks. j ∷ ks) (keys-deprecate_one k d)

keys-deprecate : (ks : List String) (d : Dict Entries) → keys (deprecate ks d) ≡ keys d
unfolding deprecate
keys-deprecate [] d = refl
keys-deprecate (k ∷ ks) d = keys-deprecate ks (deprecate_one k d) ∙ keys-deprecate_one k d

overridden :
    (annotation : Option SpectacularAnnotation) (o : ObjectSchema)
    → Distinct o.required
    → (keys (apply_serializer_overrides annotation o).properties
        ≡ without (excluded annotation) (keys o.properties))
      × ((apply_serializer_overrides annotation o).required
          ≡ without (excluded annotation) o.required)
unfolding apply_serializer_overrides
overridden none o d = (sym (without-nil (keys o.properties)), sym (without-nil o.required))
overridden (some a) o d = go (is_of_field a)
  where
    go :
        (b : Bool)
        → (keys (layer_annotation b a o).properties
            ≡ without (if b then [] else names_or_none a.exclude_fields) (keys o.properties))
          × ((layer_annotation b a o).required
              ≡ without (if b then [] else names_or_none a.exclude_fields) o.required)
    go true = (sym (without-nil (keys o.properties)), sym (without-nil o.required))
    go false =
        let (shown, demanded) = exclude_lem (names_or_none a.exclude_fields) o d in
        (keys-deprecate a.deprecate_fields _ ∙ shown, demanded)

contains-names_where :
    {I : Type 0} (p : FieldInfo → Bool) (k : String) (fields : Dict (Field I))
    → contains k (keys fields) ≡ false
    → contains k (names_where p fields) ≡ false
unfolding contains names_where
contains-names_where p k [] h = refl
contains-names_where p k ((j, f) ∷ fields) h =
    let ih = contains-names_where p k fields in ground arith

names_where-Distinct :
    {I : Type 0} (p : FieldInfo → Bool) (fields : Dict (Field I))
    → Distinct (keys fields)
    → Distinct (names_where p fields)
unfolding names_where
names_where-Distinct p [] d = tt
names_where-Distinct p ((j, f) ∷ fields) (absent, d) =
    if-Distinct (p (info f)) j _ (contains-names_where p j fields absent)
      (names_where-Distinct p fields d)

-- A described serializer has a property for each field that is shown in the direction asked for,
-- in order, less those that its annotation excludes; its required names are those of the shown
-- fields that are required, or always rendered, less the same. So read-only fields are not in an
-- input, write-only ones are not in an output, and each required name is a property. The names of
-- the fields are the keys of a dictionary.
pub describe_object_lem :
    {I : Type 0} (texts : Texts) (options : Options) (serializers : Serializers I)
    (describe : I → Option Entries) (i : I) (o : ObjectSchema)
    → Distinct (keys (serializers.fields i))
    → describe_object texts options serializers describe i ≡ some o
    → (keys o.properties
        ≡ without
            (excluded (serializers.annotation (serializers.class_of i)))
            (names_where (is_shown options.for_output) (serializers.fields i)))
      × (o.required
          ≡ without
              (excluded (serializers.annotation (serializers.class_of i)))
              (names_where (is_demanded options.for_output) (serializers.fields i)))
unfolding describe_object
describe_object_lem texts options serializers describe i o d h =
    let annotation = serializers.annotation (serializers.class_of i) in
    let (before, looped, layered) =
      and_then-eq-some (describe_fields texts options describe (serializers.fields i)) _ h in
    let (ks, rs) =
      describe_fields-Describes texts options describe (serializers.fields i) before looped in
    let (shown, demanded) = overridden annotation before (
      subst Distinct (sym rs)
        (names_where-Distinct (is_demanded options.for_output) (serializers.fields i) d)) in
    (
      ap (λ x. keys x.properties) (sym (some-inj layered))
          ∙ shown
          ∙ ap (without (excluded annotation)) ks,
      ap (λ x. x.required) (sym (some-inj layered))
          ∙ demanded
          ∙ ap (without (excluded annotation)) rs,
    )
