-- ===== src/JsonSchema/Choices/Admitted.antt =====
-- The values that the schema of a choice field lists.
use djangorestframework_serv.Prelude.{
  String, ◌≡◌, refl, ap, ◌∙◌, Bool, true, false, ◌&&◌, ◌||◌, not, Option, none, some, List, [], ◌∷◌,
  ◌++◌, any, all, if◌then◌else◌, ◌==◌, get, arith, ℕ, suc, ◌+◌, nat_eq,
}
use djangorestframework_serv.Values.{
  Value, seq, dict, Entries, end, entry, of_items, items, is_null, named_entries,
}
use djangorestframework_serv.JsonSchema.Choices.{
  Choice, ChoiceField, is_blank, choice_values, extra_values, shared_type, with_type, titled,
  untitled, choice_schema,
}

abbrev const_of : Value → Option Value
const_of (dict es) = get "const" (named_entries es)
const_of _ = none

-- The constants of the alternatives.
unfoldable pub consts : List Value → List Value
unfolding get
consts [] = []
consts (v ∷ vs) = elim (const_of v) [ none ↦ consts vs | some c ↦ c ∷ consts vs ]

abbrev listed : Option Value → List Value
listed (some (seq vs)) = items vs
listed _ = []

-- The alternatives that a schema of enumerated values lists, as often as it lists them: the values of
-- `enum`, or the constants of `oneOf`, where a value that stands twice is refused by validators.
unfoldable pub alternatives : Entries → List Value
unfolding get consts
alternatives es =
    listed (get "enum" (named_entries es)) ++ consts (listed (get "oneOf" (named_entries es)))

items-of_items : (vs : List Value) → items (of_items vs) ≡ vs
items-of_items [] = refl
items-of_items (v ∷ vs) = ap (λ ws. v ∷ ws) (items-of_items vs)

consts-untitled : (vs : List Value) → consts (untitled vs) ≡ vs
unfolding consts
consts-untitled [] = refl
consts-untitled (v ∷ vs) = ap (λ ws. v ∷ ws) (consts-untitled vs)

consts-titled :
    (cs : List Choice) (vs : List Value)
    → consts (titled cs ++ untitled vs) ≡ (choice_values cs ++ vs)
unfolding consts
consts-titled [] vs = consts-untitled vs
consts-titled (c ∷ cs) vs = ap (λ ws. c.value ∷ ws) (consts-titled cs vs)

append-nil : (vs : List Value) → (vs ++ []) ≡ vs
append-nil [] = refl
append-nil (v ∷ vs) = ap (λ ws. v ∷ ws) (append-nil vs)

alternatives-enum :
    (t : Option String) (vs : List Value)
    → alternatives (with_type t (entry "enum" (seq (of_items vs)) end)) ≡ vs
unfolding alternatives consts
alternatives-enum none vs = append-nil (items (of_items vs)) ∙ items-of_items vs
alternatives-enum (some t) vs = append-nil (items (of_items vs)) ∙ items-of_items vs

alternatives-one_of :
    (t : Option String) (vs : List Value)
    → alternatives (with_type t (entry "oneOf" (seq (of_items vs)) end)) ≡ consts vs
unfolding alternatives
alternatives-one_of none vs = ap consts (items-of_items vs)
alternatives-one_of (some t) vs = ap consts (items-of_items vs)

alternatives-choice_schema :
    (widen : Bool) (f : ChoiceField)
    → alternatives (choice_schema widen f) ≡ (choice_values f.choices ++ extra_values widen f)
unfolding choice_schema
alternatives-choice_schema widen f = go (all (λ c. c.label == c.text) f.choices)
  where
    go :
        (b : Bool)
        → alternatives (
            with_type (shared_type (choice_values f.choices ++ extra_values widen f)) (
              if b
              then entry "enum"
                  (seq (of_items (choice_values f.choices ++ extra_values widen f)))
                  end
              else entry "oneOf"
                  (seq (of_items (titled f.choices ++ untitled (extra_values widen f))))
                  end))
          ≡ (choice_values f.choices ++ extra_values widen f)
    go true = alternatives-enum _ _
    go false = alternatives-one_of _ _ ∙ consts-titled f.choices (extra_values widen f)

-- How many of the values pass the test.
unfoldable pub tally : (Value → Bool) → List Value → ℕ
tally p [] = 0
tally p (v ∷ vs) = let rest = tally p vs in if p v then suc rest else rest

tally-append :
    (p : Value → Bool) (vs ws : List Value) → tally p (vs ++ ws) ≡ tally p vs + tally p ws
unfolding tally
tally-append p [] ws = omega arith
tally-append p (v ∷ vs) ws = ground (arith, tally-append p vs ws)

any-tally : (p : Value → Bool) (vs : List Value) → any p vs ≡ not (nat_eq (tally p vs) 0)
unfolding any tally
any-tally p [] = refl
any-tally p (v ∷ vs) = ground (arith, any-tally p vs)

-- At least one where it is allowed, and as often as before otherwise.
abbrev pub at_least_one : Bool → ℕ → ℕ
at_least_one allowed n = if allowed && nat_eq n 0 then 1 else n

extra_tally :
    (f : ChoiceField)
    → (tally is_blank (extra_values true f)
        ≡ (if f.allow_blank && not (any is_blank (choice_values f.choices)) then 1 else 0))
      × (tally is_null (extra_values true f)
          ≡ (if f.allow_null && not (any is_null (choice_values f.choices)) then 1 else 0))
      × (all (λ v. is_blank v || is_null v) (extra_values true f) ≡ true)
unfolding extra_values tally all
extra_tally f = ground arith

raised_to_one :
    (allowed : Bool) (p : Value → Bool) (vs ws : List Value)
    → tally p ws ≡ (if allowed && not (any p vs) then 1 else 0)
    → tally p (vs ++ ws) ≡ at_least_one allowed (tally p vs)
raised_to_one allowed p vs ws h = tally-append p vs ws ∙ ground (arith, any-tally p vs)

-- The schema of a choice field that is widened lists the field's choices in order and after them
-- only empty texts and nulls. The empty text stands there as often as among the choices, but once
-- where it is no choice and the field allows it; and null likewise. So neither is listed twice
-- where the choices name it once or not at all. A schema that is not widened lists the choices alone.
pub choice_schema_lem :
    (f : ChoiceField)
    → ((extra : List Value) × (alternatives (choice_schema true f)
          ≡ (choice_values f.choices ++ extra))
        × (all (λ v. is_blank v || is_null v) extra ≡ true))
      × (tally is_blank (alternatives (choice_schema true f))
          ≡ at_least_one f.allow_blank (tally is_blank (choice_values f.choices)))
      × (tally is_null (alternatives (choice_schema true f))
          ≡ at_least_one f.allow_null (tally is_null (choice_values f.choices)))
      × (alternatives (choice_schema false f) ≡ choice_values f.choices)
choice_schema_lem f =
    let listed_all = alternatives-choice_schema true f in
    let (blank, nulls, only_these) = extra_tally f in
    (
      (extra_values true f, listed_all, only_these),
      ap (tally is_blank) listed_all
          ∙ raised_to_one f.allow_blank is_blank (choice_values f.choices) _ blank,
      ap (tally is_null) listed_all
          ∙ raised_to_one f.allow_null is_null (choice_values f.choices) _ nulls,
      alternatives-choice_schema false f
          ∙ (unfold extra_values in append-nil (choice_values f.choices)),
    )
