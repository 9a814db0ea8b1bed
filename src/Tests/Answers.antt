-- ===== src/Tests/Answers.antt =====
-- Affordances and audiences at a row and a serializer of the examples.
use djangorestframework_serv.Prelude.{
  ◌≡◌, refl, ◌↔◌, true, false, if◌then◌else◌, none, some, List, [], ◌∷◌, get, has, ok, ◌==◌,
}
use djangorestframework_serv.Values.{Value, bool, str, dict, Entries, end, entry, named_entries}
use djangorestframework_serv.Audience.Answers.{
  Row, Declared, answer, available, refused, with_answers, affordances_key,
}
use djangorestframework_serv.Audience.Answers.Availability.{
  AreMet, FirstUnmet, IsAnswered, answer_available_iff, answer_refused_iff, with_answers_keeps,
}
use djangorestframework_serv.Audience.Projection.{
  FieldMarking, FieldAudience, Fields, Projection, plain, marking, bound, done, projection,
  none_nested, build_audience_projection,
}
use djangorestframework_serv.Audience.Projection.NamedOnce.{
  IsNamedOnce, build_audience_projection-IsNamedOnce,
}
use djangorestframework_serv.Specs.{Affordance}
use djangorestframework_serv.Tests.Examples.{cancellable, unpaid}

abbrev paid_row : Row
paid_row = ("affordance__cancel__open", bool true) ∷ ("affordance__cancel__unpaid", bool false) ∷ []

abbrev to_cancel : List Affordance
to_cancel = cancellable ∷ unpaid ∷ []

answer_available_iff_example :
    (answer paid_row "cancel" to_cancel ≡ ok available) ↔ AreMet paid_row "cancel" to_cancel
answer_available_iff_example = answer_available_iff paid_row "cancel" to_cancel

answer_refused_iff_example :
    (answer paid_row "cancel" to_cancel ≡ ok (refused "unpaid" "The order is paid."))
    ↔ FirstUnmet paid_row "cancel" to_cancel "unpaid" "The order is paid."
answer_refused_iff_example =
    answer_refused_iff paid_row "cancel" to_cancel "unpaid" "The order is paid."

abbrev rendered : Entries
rendered = entry "id" (str "7") end

abbrev declared_cancel : Declared
declared_cancel = ("cancel", to_cancel) ∷ []

abbrev refusal : Value
refusal = dict (
    entry "available" (bool false)
      (entry "code" (str "unpaid") (entry "reason" (str "The order is paid.") end)))

abbrev answered : Entries
answered = entry "id" (str "7") (entry "affordances" (dict (entry "cancel" refusal end)) end)

answered_lem : with_answers (dict rendered) paid_row declared_cancel ≡ ok (dict answered)
unfolding with_answers
answered_lem = refl

with_answers_keeps_example :
    (has affordances_key (named_entries rendered) ≡ false)
    × ((found : Entries) × (get "affordances" (named_entries answered) ≡ (
          if affordances_key == "affordances"
          then some (dict found)
          else get "affordances" (named_entries rendered)))
        × IsAnswered paid_row "cancel"
            (get "cancel" declared_cancel)
            (get "cancel" (named_entries found)))
with_answers_keeps_example =
    with_answers_keeps rendered answered paid_row declared_cancel "affordances" "cancel"
      answered_lem

abbrev as_label : FieldMarking
as_label = record { audience = FieldAudience.label }

abbrev order_fields : Fields
order_fields = bound "id" (plain []) (bound "number" (plain (marking as_label ∷ [])) done)

abbrev order_projection : Projection
order_projection = projection (("number", as_label) ∷ []) (some "number") [] none_nested

projected : build_audience_projection (some order_fields) none ≡ ok order_projection
unfolding build_audience_projection
projected = refl

build_audience_projection-IsNamedOnce_example : IsNamedOnce order_projection
build_audience_projection-IsNamedOnce_example =
    build_audience_projection-IsNamedOnce (some order_fields) none order_projection projected
