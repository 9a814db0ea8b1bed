-- ===== src/Audience/Projection.antt =====
-- The projection of a serializer for an agent (audience/build_audience_projection.py). A serializer
-- is the tree of its bound fields; `FieldMarking` and `AudienceProjection` are the kernel's records.
pub mod NamedOnce
use djangorestframework_serv.Prelude.{
  ℕ, suc, String, Bool, true, false, ◌||◌, not, Option, none, some, List, [], ◌∷◌, Dict, update,
  if◌then◌else◌, is_some, is_empty, Result, ok, err, ◌>>=◌, ◌>>◌, refuse_if, ◌==◌, ltb, length,
}
use djangorestframework_serv.Config.{Config, several_labels, not_a_field_marking}

pub data FieldAudience : Type 0 where
  handle hidden label : FieldAudience

pub record FieldMarking : Type 0 where
  pub audience : FieldAudience

-- A value of a field's `style` bag, and whether it stands under the key `drf_marking`.
pub data StyleValue : Type 0 where
  marking : FieldMarking → StyleValue
  misplaced : String → StyleValue
  plain_style : String → StyleValue

-- A choice: the text of its value and of its label.
abbrev pub Choices : Type 0
Choices = List (String × String)

mutual
  pub data Field : Type 0 where
    plain : List StyleValue → Field
    choice : List StyleValue → Choices → Field
    nested : List StyleValue → Fields → Field
    list_of : List StyleValue → Fields → Field

  -- The bound fields of a serializer, in order.
  pub data Fields : Type 0 where
    done : Fields
    bound : String → Field → Fields → Fields

abbrev pub style : Field → List StyleValue
style (plain s) = s
style (choice s cs) = s
style (nested s fs) = s
style (list_of s fs) = s

mutual
  pub data Projection : Type 0 where
    projection : Dict FieldMarking → Option String → Dict Choices → NestedProjections → Projection

  pub data NestedProjections : Type 0 where
    none_nested : NestedProjections
    child : String → Projection → NestedProjections → NestedProjections

abbrev pub fields_of : Projection → Dict FieldMarking
fields_of (projection fields label' choice_labels children) = fields

abbrev pub label_of : Projection → Option String
label_of (projection fields label' choice_labels children) = label'

abbrev pub choice_labels_of : Projection → Dict Choices
choice_labels_of (projection fields label' choice_labels children) = choice_labels

abbrev pub nested_of : Projection → NestedProjections
nested_of (projection fields label' choice_labels children) = children

abbrev pub empty_projection : Projection
empty_projection = projection [] none [] none_nested

abbrev no_children : NestedProjections → Bool
no_children none_nested = true
no_children (child name p rest) = false

-- `AudienceProjection.is_empty`
unfoldable pub is_empty_projection : Projection → Bool
is_empty_projection (projection [] none [] none_nested) = true
is_empty_projection p = false

abbrev misplaced_in : List StyleValue → Bool
misplaced_in [] = false
misplaced_in (misplaced t ∷ s) = true
misplaced_in (_ ∷ s) = misplaced_in s

abbrev first_marking : List StyleValue → Option FieldMarking
first_marking [] = none
first_marking (marking m ∷ s) = some m
first_marking (_ ∷ s) = first_marking s

-- `_marking`
unfoldable pub marking_of : String → Field → Config (Option FieldMarking)
marking_of name f =
    if misplaced_in (style f) then err (not_a_field_marking name) else ok (first_marking (style f))

abbrev pub is_label : FieldMarking → Bool
is_label m = elim m.audience [ label ↦ true | _ ↦ false ]

-- `{v: str(d) for v, d in choices.items() if str(d) != str(v)}`
unfoldable pub renamed_choices : Choices → Choices
renamed_choices [] = []
renamed_choices ((value, text) ∷ cs) =
    let rest = renamed_choices cs in if text == value then rest else (value, text) ∷ rest

abbrev pub mark : String → Option FieldMarking → Dict FieldMarking → Dict FieldMarking
mark name none marked = marked
mark name (some m) marked = (name, m) ∷ marked

-- The label after a field: a second one is refused.
abbrev pub next_label : String → Option FieldMarking → Option String → Config (Option String)
next_label name none found = ok found
next_label name (some m) none = ok (if is_label m then some name else none)
next_label name (some m) (some other) =
    if is_label m then err (several_labels (other ∷ name ∷ [])) else ok (some other)

abbrev pub choice_entry : String → Choices → Dict Choices → Dict Choices
choice_entry name cs rest = if is_empty cs then rest else (name, cs) ∷ rest

abbrev pub field_choices : String → Field → Dict Choices → Dict Choices
field_choices name (choice s cs) rest = choice_entry name (renamed_choices cs) rest
field_choices name _ rest = rest

abbrev pub child_entry : String → Projection → NestedProjections → NestedProjections
child_entry name p rest = if is_empty_projection p then rest else child name p rest

-- `marked`, `label`, `choice_labels` and `nested` of the fields from here on, of a serializer whose
-- field names are distinct. `seen` is the label found before.
unfoldable mutual
  unfolding marking_of renamed_choices is_empty_projection

  pub project_fields : Option String → Fields → Config Projection
  project_fields seen done = ok (projection [] seen [] none_nested)
  project_fields seen (bound name f rest) = do
    m ← marking_of name f
    seen' ← next_label name m seen
    inner ← project_child f
    later ← project_fields seen' rest
    ok (
        projection (mark name m (fields_of later)) (label_of later)
          (field_choices name f (choice_labels_of later))
          (child_entry name inner (nested_of later)))

  -- The projection of the serializer that a field holds, alone or in a list.
  pub project_child : Field → Config Projection
  project_child (nested s fs) = project_fields none fs
  project_child (list_of s fs) = project_fields none fs
  project_child (plain s) = ok empty_projection
  project_child (choice s cs) = ok empty_projection

-- `_project`
unfoldable pub project : Fields → Config Projection
unfolding project_fields
project fs = project_fields none fs

abbrev pub labels : Dict FieldMarking → List String
labels [] = []
labels ((name, m) ∷ d) = if is_label m then name ∷ labels d else labels d

abbrev pub first : List String → Option String
first [] = none
first (k ∷ ks) = some k

-- `_with_overrides`
unfoldable pub with_overrides : Projection → Dict FieldMarking → Config Projection
unfolding update
with_overrides p overrides =
    let fields = update (fields_of p) overrides in
    do
      refuse_if (ltb 1 (length (labels fields))) (several_labels (labels fields))
      ok (projection fields (first (labels fields)) (choice_labels_of p) (nested_of p))

-- `if not overrides: return projection`
abbrev pub overridden : Projection → Option (Dict FieldMarking) → Config Projection
overridden p none = ok p
overridden p (some marks) = if is_empty marks then ok p else with_overrides p marks

-- `build_audience_projection`: of a serializer class, `none` where the declaration is not one.
unfoldable pub build_audience_projection :
    Option Fields → Option (Dict FieldMarking) → Config Projection
unfolding project with_overrides
build_audience_projection rendered overrides = do
  p ← elim rendered [ none ↦ ok empty_projection | some fs ↦ project fs ]
  overridden p overrides
