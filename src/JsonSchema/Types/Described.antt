-- ===== src/JsonSchema/Types/Described.antt =====
-- Every Python type is described, or refused for a marker, on fuel above its size.
use djangorestframework_serv.Prelude.{
  ℕ, zero, suc, ◌≤◌, ◌<◌, ◌≡◌, refl, ap, ◌∙◌, Bool, true, false, Option, none, some, Result, ok,
  err, ◌>>=◌, arith, Result-cases, inl, inr,
}
use djangorestframework_serv.Values.{dict, Items, Entries}
use djangorestframework_serv.Annotations.{
  Annotation, union, applied, Annotations, nil, cons, Arguments, end, one, several, Origin,
  list_origin, set_origin, frozenset_origin, dict_origin,
}
use djangorestframework_serv.Annotations.Markers.{read_schema_markers}
use djangorestframework_serv.JsonSchema.Types.{
  TypeError, exhausted, misplaced, Described, item_type, value_type, member_schemas, of_value,
  of_origin, built_in_schema, ruled, type_to_schema,
}
use djangorestframework_serv.JsonSchema.Types.Sizes.{size, total, arguments_size, size-underlying}

-- The fuel was not what ended a description.
abbrev pub is_settled : {A : Type 0} → Result TypeError A → Bool
is_settled (err exhausted) = false
is_settled _ = true

settled-then :
    {A B : Type 0} (r : Result TypeError A) (next : A → Result TypeError B)
    → is_settled r ≡ true
    → ((a : A) → is_settled (next a) ≡ true)
    → is_settled (r >>= next) ≡ true
settled-then (ok a) next h settled = settled a
settled-then (err exhausted) next h settled = h
settled-then (err (misplaced e)) next h settled = refl

-- Two descriptions answer alike, and settle, below a size.
abbrev Alike : ℕ → (Annotation → Described) → (Annotation → Described) → Type 0
Alike n first second =
    (a : Annotation) → size a < n → (first a ≡ second a) × (is_settled (first a) ≡ true)

abbrev Same : {A : Type 0} → Result TypeError A → Result TypeError A → Type 0
Same r s = (r ≡ s) × (is_settled r ≡ true)

then-Same :
    {A B : Type 0} (r s : Result TypeError A) (next : A → Result TypeError B)
    → Same r s
    → ((a : A) → is_settled (next a) ≡ true)
    → Same (r >>= next) (s >>= next)
then-Same r s next (same, settled) after =
    (ap (λ x. x >>= next) same, settled-then r next settled after)

size-item_type : (args : Arguments) → size (item_type args) < suc (arguments_size args)
unfolding size
size-item_type end = omega arith
size-item_type (one a args) = omega arith
size-item_type (several as' args) = omega arith

module _ (first second : Annotation → Described) where
  member_schemas-Same :
      (as' : Annotations) (n : ℕ)
      → Alike n first second
      → total as' < n
      → Same (member_schemas first as') (member_schemas second as')
  unfolding member_schemas size
  member_schemas-Same nil n alike h = (refl, refl)
  member_schemas-Same (cons a as') n alike h =
      let (here, settled) = alike a (omega arith) in
      let (there, rest) = member_schemas-Same as' n alike (omega arith) in
      (
        ap
              (λ r. r >>= λ schema.
                member_schemas first as' >>= λ items. ok (Items.cons (dict schema) items))
              here
            ∙ ap (λ r. second a >>= λ schema. r >>= λ items. ok (Items.cons (dict schema) items))
                there,
        settled-then (first a) _ settled
            (λ schema. settled-then (member_schemas first as') _ rest (λ items. refl)),
      )

  of_value-Same :
      (args : Arguments) (n : ℕ)
      → Alike n first second
      → arguments_size args < n
      → Same (of_value first (value_type args)) (of_value second (value_type args))
  unfolding size
  of_value-Same (one key (one value args)) n alike h =
      then-Same (first value) (second value) _ (alike value (omega arith)) (λ schema. refl)
  of_value-Same args n alike h = (refl, refl)

  of_origin-Same :
      (origin : Origin) (args : Arguments) (n : ℕ)
      → Alike n first second
      → arguments_size args < n
      → Same (of_origin first origin args) (of_origin second origin args)
  of_origin-Same list_origin args n alike h =
      let smaller = size-item_type args in
      then-Same (first (item_type args)) (second (item_type args)) _
        (alike (item_type args) (omega arith)) (λ items. refl)
  of_origin-Same set_origin args n alike h =
      let smaller = size-item_type args in
      then-Same (first (item_type args)) (second (item_type args)) _
        (alike (item_type args) (omega arith)) (λ items. refl)
  of_origin-Same frozenset_origin args n alike h =
      let smaller = size-item_type args in
      then-Same (first (item_type args)) (second (item_type args)) _
        (alike (item_type args) (omega arith)) (λ items. refl)
  of_origin-Same dict_origin args n alike h = of_value-Same args n alike h
  of_origin-Same origin args n alike h = (refl, refl)

  built_in_schema-Same :
      (a : Annotation) (n : ℕ)
      → Alike n first second
      → size a ≤ n
      → Same (built_in_schema first a) (built_in_schema second a)
  unfolding built_in_schema size
  built_in_schema-Same (union as') n alike h =
      then-Same (member_schemas first as') (member_schemas second as') _
        (member_schemas-Same as' n alike (omega arith)) (λ schemas. refl)
  built_in_schema-Same (applied origin args) n alike h =
      of_origin-Same origin args n alike (omega arith)
  built_in_schema-Same a n alike h = (refl, refl)

  ruled-Same :
      (rule : Option Entries) (a : Annotation)
      → Alike (size a) first second
      → Same (ruled first rule a) (ruled second rule a)
  ruled-Same none a alike = built_in_schema-Same a (size a) alike (omega arith)
  ruled-Same (some schema) a alike = (refl, refl)

fuels_agree :
    (rule : Annotation → Option Entries) (fuel more : ℕ) (a : Annotation)
    → size a < fuel
    → size a < more
    → Same (type_to_schema rule fuel a) (type_to_schema rule more a)
unfolding type_to_schema
fuels_agree rule zero more a h k = ground arith
fuels_agree rule (suc fuel) zero a h k = ground arith
fuels_agree rule (suc fuel) (suc more) a h k = elim (Result-cases (read_schema_markers a)) [
  | inl (m, e) ↦
      let within = size-underlying a m e in
      rw e (
        ruled-Same (type_to_schema rule fuel) (type_to_schema rule more) (rule m.underlying)
          m.underlying (λ b smaller. fuels_agree rule fuel more b (omega arith) (omega arith)))
  | inr (raised, e) ↦ rw e (refl, refl)
]

-- Every annotation has one description, a schema or the refusal of a marker out of place, and every
-- fuel above its size returns it.
pub type_to_schema-returns :
    (rule : Annotation → Option Entries) (a : Annotation)
    → (described : Described) × (is_settled described ≡ true)
      × ((fuel : ℕ) → size a < fuel → type_to_schema rule fuel a ≡ described)
type_to_schema-returns rule a = (
  type_to_schema rule (suc (size a)) a,
  (fuels_agree rule (suc (size a)) (suc (size a)) a (omega arith) (omega arith)).1,
  λ fuel enough. (fuels_agree rule fuel (suc (size a)) a enough (omega arith)).0,
)
