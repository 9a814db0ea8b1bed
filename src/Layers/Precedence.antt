-- ===== src/Layers/Precedence.antt =====
-- Which layer has the say on a name.
use djangorestframework_serv.Prelude.{
  first_some, get-update, String, ◌≡◌, refl, ap, sym, ◌∙◌, Bool, true, false, Option, none, some,
  [], ◌∷◌, Dict, get, update, keys, contains, Distinct, arith, ok, if◌then◌else◌, >>=-eq-ok,
  ok-injective, ◌==◌, or_false_left, or_false_right,
}
use djangorestframework_serv.Callables.{Callable}
use djangorestframework_serv.Values.{Value, is_unset}
use djangorestframework_serv.Layers.{
  Providers, layer, without_unset, invoke_provider, resolve_extra_kwargs,
}

contains-without_unset :
    (k : String) (d : Dict Value)
    → contains k (keys d) ≡ false
    → contains k (keys (without_unset d)) ≡ false
unfolding without_unset contains
contains-without_unset k [] h = refl
contains-without_unset k ((j, v) ∷ d) h =
    let rest = contains-without_unset k d (or_false_right _ _ h) in
    let here = or_false_left (k == j) _ h in ground arith

without_unset-Distinct : (d : Dict Value) → Distinct (keys d) → Distinct (keys (without_unset d))
unfolding without_unset
without_unset-Distinct [] h = tt
without_unset-Distinct ((j, v) ∷ d) (new, distinct) =
    go (is_unset v) (contains-without_unset j d new) (without_unset-Distinct d distinct)
  where
    go :
        (b : Bool)
        → contains j (keys (without_unset d)) ≡ false
        → Distinct (keys (without_unset d))
        → Distinct (keys (if b then without_unset d else (j, v) ∷ without_unset d))
    go true absent rest = rest
    go false absent rest = (absent, rest)

-- What one layer answered, without its UNSET entries: nothing where it is absent.
abbrev pub Answered : {E : Type 0} → Providers E → Option Callable → Dict Value → Type 0
Answered answers none d = d ≡ []
Answered answers (some fn) d = (raw : Dict Value) × (answers fn ≡ ok raw) × (d ≡ without_unset raw)

layer_lem :
    {E : Type 0} (answers : Providers E) (o : Option Callable) (extras found : Dict Value)
    → ((fn : Callable) (d : Dict Value) → answers fn ≡ ok d → Distinct (keys d))
    → layer answers o extras ≡ ok found
    → (d : Dict Value) × Answered answers o d
      × ((k : String) → get k found ≡ first_some (get k d) (get k extras))
unfolding get invoke_provider
layer_lem answers none extras found dicts h = ([], refl, λ k. ap (get k) (sym (ok-injective h)))
layer_lem answers (some fn) extras found dicts h =
    let (d, invoked, made) = >>=-eq-ok (invoke_provider answers fn) _ h in
    let (raw, answered, dropped) = >>=-eq-ok (answers fn) (λ r. ok (without_unset r)) invoked in
    let same = ok-injective dropped in
    (
      without_unset raw,
      (raw, answered, refl),
      λ k.
          ap (get k) (sym (ok-injective made))
          ∙ ap (λ e. get k (update extras e)) (sym same)
          ∙ get-update k extras (without_unset raw)
              (without_unset-Distinct raw (dicts fn raw answered)),
    )

-- Where the providers answer dictionaries, that is, with distinct keys, and none of them raises,
-- the value under a name is the spec provider's, else the action hook's, else the view-wide hook's;
-- an UNSET value counts as none.
pub resolve_extra_kwargs_lem :
    {E : Type 0} (answers : Providers E) (catch_all action_hook spec_kwargs : Option Callable)
    (found : Dict Value)
    → ((fn : Callable) (d : Dict Value) → answers fn ≡ ok d → Distinct (keys d))
    → resolve_extra_kwargs answers catch_all action_hook spec_kwargs ≡ ok found
    → (c : Dict Value) × (a : Dict Value) × (s : Dict Value) × Answered answers catch_all c
      × Answered answers action_hook a
      × Answered answers spec_kwargs s
      × ((k : String) → get k found ≡ first_some (get k s) (first_some (get k a) (get k c)))
unfolding resolve_extra_kwargs get
resolve_extra_kwargs_lem answers catch_all action_hook spec_kwargs found dicts h =
    let (first, one, more) = >>=-eq-ok (layer answers catch_all []) _ h in
    let (second, two, three) = >>=-eq-ok (layer answers action_hook first) _ more in
    let (c, answered, by_c) = layer_lem answers catch_all [] first dicts one in
    let (a, answered', by_a) = layer_lem answers action_hook first second dicts two in
    let (s, answered'', by_s) = layer_lem answers spec_kwargs second found dicts three in
    (
      c,
      a,
      s,
      answered,
      answered',
      answered'',
      λ k.
          by_s k
          ∙ ap (first_some (get k s))
              (by_a k ∙ ap (first_some (get k a)) (by_c k ∙ nothing (get k c))),
    )
  where
    nothing : (o : Option Value) → first_some o none ≡ o
    nothing none = refl
    nothing (some v) = refl
