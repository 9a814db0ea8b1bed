-- ===== src/Dispatch/Declared/Owned.antt =====
-- Which names the server owns.
use djangorestframework_serv.Prelude.{
  String, ◌≡◌, sym, ap, ◌∙◌, refl, Bool, Option, none, some, is_some, if◌then◌else◌, false, ◌||◌,
  List, [], ◌∷◌, ◌++◌, any, contains, ok, err, ◌>>=◌, >>=-eq-ok, ok-injective, arith, ◌==◌,
  contains-append,
}
use djangorestframework_serv.Config.{Config}
use djangorestframework_serv.Annotations.Markers.{MarkedKeys, marked_input_keys}
use djangorestframework_serv.Callables.{Callable}
use djangorestframework_serv.Specs.{
  ServiceSpec, SelectorSpec, Preconditions, preconditions, PreconditionEntry, precondition,
  not_callable,
}
use djangorestframework_serv.Dispatch.Declared.{
  reading, hidden_input_keys, hidden_by, DispatchSpec, fed_callables, server_owned_keys,
  service_spec, selector_spec, gates, target_lookup, listed, gate_callables, lookup_callable,
  transport_only_names,
}

abbrev lists_hidden : String → Config MarkedKeys → Bool
lists_hidden k (ok marked) = contains k marked.hidden
lists_hidden k (err e) = false

-- A callable marks the name `NotClientInput`.
abbrev pub hides : String → Callable → Bool
hides k fn = lists_hidden k (marked_input_keys fn)

contains-hidden_input_keys :
    (fn : Callable) (hidden : List String) (k : String)
    → hidden_input_keys fn ≡ ok hidden
    → contains k hidden ≡ (hides k fn || (k == "view"))
unfolding hidden_input_keys contains
contains-hidden_input_keys fn hidden k h = go (marked_input_keys fn) h
  where
    go :
        (marked : Config MarkedKeys)
        → (reading marked >>= λ m. ok (m.hidden ++ transport_only_names)) ≡ ok hidden
        → contains k hidden ≡ (lists_hidden k marked || (k == "view"))
    go (ok m) made =
        ap (contains k) (sym (ok-injective made))
        ∙ contains-append k m.hidden transport_only_names
        ∙ ground arith
    go (err e) made = cc

contains-hidden_by :
    (fns : List Callable) (owned : List String) (k : String)
    → hidden_by fns ≡ ok owned
    → contains k owned ≡ ((k == "view") || any (hides k) fns)
unfolding hidden_by any contains
contains-hidden_by [] owned k h = ap (contains k) (sym (ok-injective h))
contains-hidden_by (fn ∷ fns) owned k h =
    let (hidden, read, rest) = >>=-eq-ok (hidden_input_keys fn) _ h in
    let (others, more, made) = >>=-eq-ok (hidden_by fns) _ rest in
    let here = contains-hidden_input_keys fn hidden k read in
    let ih = contains-hidden_by fns others k more in
    ap (contains k) (sym (ok-injective made)) ∙ contains-append k hidden others ∙ ground arith

abbrev optional_hides : String → Option Callable → Bool
optional_hides k none = false
optional_hides k (some fn) = hides k fn

abbrev entries_hide : String → List PreconditionEntry → Bool
entries_hide k [] = false
entries_hide k (precondition fn ∷ es) = hides k fn || entries_hide k es
entries_hide k (not_callable t ∷ es) = entries_hide k es

abbrev preconditions_hide : String → Option Preconditions → Bool
preconditions_hide k none = false
preconditions_hide k (some (preconditions es)) = entries_hide k es
preconditions_hide k (some p) = false

-- A collection lookup stands before an instance lookup.
abbrev lookup_hides : String → (collection instance_ : Option SelectorSpec) → Bool
lookup_hides k (some lookup) instance_ = optional_hides k lookup.selector
lookup_hides k none (some lookup) = optional_hides k lookup.selector
lookup_hides k none none = false

-- A callable of the spec marks the name, by the spec's own fields.
abbrev pub spec_hides : String → DispatchSpec → Bool
spec_hides k (selector_spec spec) =
    optional_hides k spec.selector || preconditions_hide k spec.preconditions
spec_hides k (service_spec spec) =
    hides k spec.service
    || (preconditions_hide k spec.preconditions
        || lookup_hides k spec.collection_selector_spec spec.instance_selector_spec)

any-append :
    (p : Callable → Bool) (fs gs : List Callable) → any p (fs ++ gs) ≡ (any p fs || any p gs)
unfolding any
any-append p [] gs = refl
any-append p (f ∷ fs) gs = ground (arith, any-append p fs gs)

any-listed : (k : String) (o : Option Callable) → any (hides k) (listed o) ≡ optional_hides k o
unfolding any
any-listed k none = refl
any-listed k (some fn) = go (hides k fn)
  where
    go : (b : Bool) → (b || false) ≡ b
    go b = ground arith

any-gate_callables :
    (k : String) (es : List PreconditionEntry)
    → any (hides k) (gate_callables es) ≡ entries_hide k es
unfolding any
any-gate_callables k [] = refl
any-gate_callables k (precondition fn ∷ es) = ap (λ b. hides k fn || b) (any-gate_callables k es)
any-gate_callables k (not_callable t ∷ es) = any-gate_callables k es

any-gates :
    (k : String) (o : Option Preconditions) → any (hides k) (gates o) ≡ preconditions_hide k o
unfolding any
any-gates k none = refl
any-gates k (some (preconditions es)) = any-gate_callables k es
any-gates k (some p) = refl

any-target_lookup :
    (k : String) (spec : ServiceSpec)
    → any (hides k) (lookup_callable (target_lookup spec))
      ≡ lookup_hides k spec.collection_selector_spec spec.instance_selector_spec
unfolding any
any-target_lookup k spec = go spec.collection_selector_spec spec.instance_selector_spec
  where
    go :
        (collection instance_ : Option SelectorSpec)
        → any (hides k) (lookup_callable (if is_some collection then collection else instance_))
          ≡ lookup_hides k collection instance_
    go (some lookup) instance_ = any-listed k lookup.selector
    go none (some lookup) = any-listed k lookup.selector
    go none none = refl

any-fed_callables :
    (k : String) (spec : DispatchSpec) → any (hides k) (fed_callables spec) ≡ spec_hides k spec
unfolding any
any-fed_callables k (selector_spec spec) =
    any-append (hides k) (listed spec.selector) (gates spec.preconditions)
    ∙ rw (any-listed k spec.selector, any-gates k spec.preconditions)
any-fed_callables k (service_spec spec) =
    ap (λ b. hides k spec.service || b)
      (any-append (hides k) (gates spec.preconditions) (lookup_callable (target_lookup spec))
        ∙ rw (any-gates k spec.preconditions, any-target_lookup k spec))

-- The names that the server owns are `view` and those that a callable of the spec marks
-- `NotClientInput`: the service or the selector, one of the preconditions, or the selector of the
-- target lookup, which is the collection lookup where there is one and else the instance lookup.
pub server_owned_keys_lem :
    (spec : DispatchSpec) (owned : List String) (k : String)
    → server_owned_keys spec ≡ ok owned
    → contains k owned ≡ ((k == "view") || spec_hides k spec)
unfolding server_owned_keys
server_owned_keys_lem spec owned k h =
    contains-hidden_by (fed_callables spec) owned k h
    ∙ ap (λ b. (k == "view") || b) (any-fed_callables k spec)
