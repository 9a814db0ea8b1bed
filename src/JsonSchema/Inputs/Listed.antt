-- ===== src/JsonSchema/Inputs/Listed.antt =====
-- The names that the input schema of a callable lists.
use djangorestframework_serv.Prelude.{
  String, ◌≡◌, refl, ap, ◌∙◌, subst, Bool, true, false, ◌&&◌, ◌||◌, not, Option, none, some, List,
  [], ◌∷◌, ◌++◌, Dict, keys, contains, contains-append, contains-put, or_else, if◌then◌else◌, ◌==◌,
  ok, >>=-eq-ok, ok-injective, arith, eq_iff, or_false_left, Bool-cases, inl, inr,
}
use djangorestframework_serv.Config.{Config}
use djangorestframework_serv.Values.{Entries, end}
use djangorestframework_serv.Annotations.{Annotation}
use djangorestframework_serv.Annotations.Markers.{
  TypedDict, unpack_typed_dict, field_types, required_fields, read_schema_markers,
  read_input_description,
}
use djangorestframework_serv.Callables.{Callable, Parameter, is_var_keyword, is_var_positional}
use djangorestframework_serv.JsonSchema.Inputs.{
  InputSchema, no_inputs, describe_input, add_input, add_marked, add_annotated, unless_dropped,
  add_keys, add_extras, add_ordinary, is_inferred, add_parameter, add_parameters,
  callable_input_schema,
}

-- The name is required only as a property, and is not both dropped and a property.
abbrev pub IsListed : List String → InputSchema → String → Type 0
IsListed dropped s k =
    ((contains k s.required && not (contains k (keys s.properties))) ≡ false)
    × ((contains k dropped && contains k (keys s.properties)) ≡ false)

contains-required :
    (b : Bool) (k name : String) (required : List String)
    → contains k (if b then required ++ (name ∷ []) else required)
      ≡ (contains k required || (b && (k == name)))
unfolding contains
contains-required true k name required = contains-append k required (name ∷ []) ∙ ground arith
contains-required false k name required = ground arith

module _ (type_schema : Annotation → Config Entries) (dropped : List String) (k : String) where
  add_input-IsListed :
      (name : String) (schema : Entries) (required : Bool) (s : InputSchema)
      → contains name dropped ≡ false
      → IsListed dropped s k
      → IsListed dropped (add_input name schema required s) k
  unfolding add_input
  add_input-IsListed name schema required s kept (known, absent) =
      let there = contains-put k name schema s.properties in
      let demanded = contains-required required k name s.required in
      elim (Bool-cases (k == name)) [
        | inl e ↦
            let same = ap (λ j. contains j dropped) ((eq_iff k name).0 e) in
            (ground arith, ground arith)
        | inr e ↦ (ground arith, ground arith)
      ]

  -- An input that is not dropped keeps what is listed.
  add_annotated-IsListed :
      (name : String) (a : Annotation) (required : Bool) (s added : InputSchema)
      → contains name dropped ≡ false
      → IsListed dropped s k
      → add_annotated type_schema name a required s ≡ ok added
      → IsListed dropped added k
  add_annotated-IsListed name a required s added kept listed h =
      let (m, _, read) = >>=-eq-ok (read_schema_markers a) _ h in
      let (description, _, made) = >>=-eq-ok (read_input_description a) _ read in
      go m.hidden description (m.required || required) made
    where
      go :
          (hidden : Bool) (description : Option String) (required : Bool)
          → add_marked type_schema hidden name a description required s ≡ ok added
          → IsListed dropped added k
      go true description required made =
          subst (λ x. IsListed dropped x k) (ok-injective made) listed
      go false description required made =
          let (schema, _, last) = >>=-eq-ok (type_schema a) _ made in
          subst (λ x. IsListed dropped x k) (ok-injective last)
            (add_input-IsListed name (describe_input description schema) required s kept listed)

  unless_dropped-IsListed :
      (b : Bool) (s added : InputSchema) (work : Config InputSchema)
      → IsListed dropped s k
      → (b ≡ false → work ≡ ok added → IsListed dropped added k)
      → unless_dropped type_schema b s work ≡ ok added
      → IsListed dropped added k
  unless_dropped-IsListed true s added work listed next h =
      subst (λ x. IsListed dropped x k) (ok-injective h) listed
  unless_dropped-IsListed false s added work listed next h = next refl h

  add_keys-IsListed :
      (required_keys : List String) (hs : Dict Annotation) (s added : InputSchema)
      → IsListed dropped s k
      → add_keys type_schema dropped required_keys hs s ≡ ok added
      → IsListed dropped added k
  unfolding add_keys
  add_keys-IsListed required_keys [] s added listed h =
      subst (λ x. IsListed dropped x k) (ok-injective h) listed
  add_keys-IsListed required_keys ((name, a) ∷ hs) s added listed h =
      let (one, first, rest) =
        >>=-eq-ok
          (unless_dropped type_schema (contains name dropped) s
            (add_annotated type_schema name a (contains name required_keys) s))
          _ h in
      add_keys-IsListed required_keys hs one added
        (unless_dropped-IsListed (contains name dropped) s one _ listed
          (λ kept. add_annotated-IsListed name a (contains name required_keys) s one kept listed)
          first)
        rest

  add_extras-IsListed :
      (td : Option TypedDict) (s added : InputSchema)
      → IsListed dropped s k
      → add_extras type_schema dropped td s ≡ ok added
      → IsListed dropped added k
  add_extras-IsListed none s added listed h =
      subst (λ x. IsListed dropped x k) (ok-injective h) listed
  add_extras-IsListed (some td) s added listed h =
      add_keys-IsListed (required_fields td.required_keys td.hints) (field_types td.hints) s added
        listed h

  add_ordinary-IsListed :
      (inferred : Bool) (p : Parameter) (hint : Option Annotation) (s added : InputSchema)
      → contains p.name dropped ≡ false
      → IsListed dropped s k
      → add_ordinary type_schema inferred p hint s ≡ ok added
      → IsListed dropped added k
  add_ordinary-IsListed inferred p none s added kept listed h =
      subst (λ x. IsListed dropped x k) (ok-injective h)
        (add_input-IsListed p.name end inferred s kept listed)
  add_ordinary-IsListed inferred p (some a) s added kept listed h =
      add_annotated-IsListed p.name a inferred s added kept listed h

  add_parameter-IsListed :
      (supplied : Option (List String)) (p : Parameter) (s added : InputSchema)
      → IsListed dropped s k
      → add_parameter type_schema dropped supplied p s ≡ ok added
      → IsListed dropped added k
  add_parameter-IsListed supplied p s added listed h = go (is_var_keyword p.kind) h
    where
      go :
          (extras : Bool)
          → (if extras
              then add_extras type_schema dropped (unpack_typed_dict p.hint) s
              else unless_dropped type_schema
                  (contains p.name dropped || is_var_positional p.kind)
                  s
                  (add_ordinary type_schema (is_inferred type_schema supplied p) p p.hint s))
            ≡ ok added
          → IsListed dropped added k
      go true h = add_extras-IsListed (unpack_typed_dict p.hint) s added listed h
      go false h =
          unless_dropped-IsListed (contains p.name dropped || is_var_positional p.kind) s added _
            listed
            (λ kept.
              add_ordinary-IsListed (is_inferred type_schema supplied p) p p.hint s added
                (or_false_left (contains p.name dropped) (is_var_positional p.kind) kept) listed)
            h

  add_parameters-IsListed :
      (supplied : Option (List String)) (ps : List Parameter) (s added : InputSchema)
      → IsListed dropped s k
      → add_parameters type_schema dropped supplied ps s ≡ ok added
      → IsListed dropped added k
  unfolding add_parameters
  add_parameters-IsListed supplied [] s added listed h =
      subst (λ x. IsListed dropped x k) (ok-injective h) listed
  add_parameters-IsListed supplied (p ∷ ps) s added listed h =
      let (one, first, rest) = >>=-eq-ok (add_parameter type_schema dropped supplied p s) _ h in
      add_parameters-IsListed supplied ps one added
        (add_parameter-IsListed supplied p s one listed first) rest

-- Every required name of the input schema of a callable is one of its properties, and no name that
-- the caller of the walk skips or the transport supplies is a property or required, however the
-- callable marks it.
pub callable_input_schema-IsListed :
    (type_schema : Annotation → Config Entries) (skip : List String)
    (supplied : Option (List String)) (fn : Callable) (s : InputSchema) (k : String)
    → callable_input_schema type_schema skip supplied fn ≡ ok s
    → IsListed (skip ++ or_else supplied []) s k
unfolding callable_input_schema contains
callable_input_schema-IsListed type_schema skip supplied fn s k h =
    add_parameters-IsListed type_schema (skip ++ or_else supplied []) k supplied fn.parameters
      no_inputs s (refl, ground arith) h
