-- ===== src/Annotations/Keys.antt =====
-- `marked_input_keys`: what is recorded of a signature's inputs.
use djangorestframework_serv.Prelude.{
  String, ◌≡◌, refl, sym, ap, inl, inr, Bool, true, false, ◌&&◌, ◌||◌, List, [], ◌∷◌, Dict, keys,
  contains, ok, >>=-eq-ok, Distinct, arith, eq_iff, ◌==◌, or_false_left, or_false_right,
  ok-injective, Bool-cases,
}
use djangorestframework_serv.Annotations.{Annotation}
use djangorestframework_serv.Annotations.Markers.{
  marker_layer, Markers, markers_of, read_schema_markers, MarkedKeys, recorded, add_if,
  record_hints, marked_input_keys, input_hints,
}
use djangorestframework_serv.Callables.{Callable}
use djangorestframework_serv.Annotations.Layer.{markers_of-hidden}

contains-add_if :
    (k name : String) (b : Bool) (ns : List String)
    → contains k (add_if b name ns) ≡ ((b && (k == name)) || contains k ns)
unfolding contains
contains-add_if k name true ns = refl
contains-add_if k name false ns = refl

-- One step of the loop: the hint is read, and the rest of the record is extended by its answer.
record_hints-cons :
    (name : String) (a : Annotation) (hs : Dict Annotation) (found : MarkedKeys)
    → record_hints ((name, a) ∷ hs) ≡ ok found
    → (m : Markers) × (f : MarkedKeys) × (read_schema_markers a ≡ ok m)
      × (record_hints hs ≡ ok f)
      × (recorded name m f ≡ found)
unfolding record_hints
record_hints-cons name a hs found h =
    let (m, read, rest) = >>=-eq-ok (read_schema_markers a) _ h in
    let (f, recs, made) = >>=-eq-ok (record_hints hs) _ rest in
    (m, f, read, recs, ok-injective made)

abbrev nothing : MarkedKeys
nothing = record { required = []; hidden = [] }

record_hints-nil : (found : MarkedKeys) → record_hints [] ≡ ok found → nothing ≡ found
unfolding record_hints
record_hints-nil found h = ok-injective h

-- What is recorded under a name is the answer of a hint of that name.
record_hints_absent :
    (hs : Dict Annotation) (found : MarkedKeys) (k : String)
    → record_hints hs ≡ ok found
    → contains k (keys hs) ≡ false
    → (contains k found.required ≡ false) × (contains k found.hidden ≡ false)
unfolding contains
record_hints_absent [] found k h absent =
    let e = record_hints-nil found h in
    (
      rw (ap (λ f. contains k f.required) (sym e)) refl,
      rw (ap (λ f. contains k f.hidden) (sym e)) refl,
    )
record_hints_absent ((name, a) ∷ hs) found k h absent =
    let (m, f, read, recs, made) = record_hints-cons name a hs found h in
    let rest = record_hints_absent hs f k recs (or_false_right _ _ absent) in
    let other = or_false_left (k == name) _ absent in
    (
      rw (ap (λ g. contains k g.required) (sym made))
          (ground (arith, contains-add_if k name m.required f.required)),
      rw (ap (λ g. contains k g.hidden) (sym made))
          (ground (arith, contains-add_if k name m.hidden f.hidden)),
    )

read_schema_markers_consistent :
    (a : Annotation) (m : Markers) → read_schema_markers a ≡ ok m → (m.required && m.hidden) ≡ false
unfolding read_schema_markers
read_schema_markers_consistent a m h =
    let (layer, found, made) = >>=-eq-ok (marker_layer a) (λ l. markers_of l.0 l.1) h in
    (markers_of-hidden layer.0 layer.1 m made).2

record_hints_disjoint :
    (hs : Dict Annotation) (found : MarkedKeys) (k : String)
    → Distinct (keys hs)
    → record_hints hs ≡ ok found
    → (contains k found.required && contains k found.hidden) ≡ false
record_hints_disjoint [] found k distinct h =
    let e = record_hints-nil found h in
    rw (ap (λ f. contains k f.required && contains k f.hidden) (sym e)) (unfold contains in refl)
record_hints_disjoint ((name, a) ∷ hs) found k (fresh, distinct) h =
    let (m, f, read, recs, made) = record_hints-cons name a hs found h in
    let ih = record_hints_disjoint hs f k distinct recs in
    let one = read_schema_markers_consistent a m read in
    let req = contains-add_if k name m.required f.required in
    let hid = contains-add_if k name m.hidden f.hidden in
    rw (ap (λ g. contains k g.required && contains k g.hidden) (sym made))
      (elim (Bool-cases (k == name)) [
        | inl e ↦
            let absent = record_hints_absent hs f name recs fresh in
            rw (req, hid, e, (eq_iff k name).0 e, absent.0, absent.1) (ground arith)
        | inr e ↦ rw (req, hid, e) (ground arith)
      ])

-- Of a signature whose inputs have distinct names, no input is recorded both as required and as
-- hidden from the caller.
pub marked_input_keys_disjoint :
    (fn : Callable) (found : MarkedKeys) (k : String)
    → Distinct (keys (input_hints fn.parameters))
    → marked_input_keys fn ≡ ok found
    → contains k found.required ≡ true
    → contains k found.hidden ≡ false
unfolding marked_input_keys
marked_input_keys_disjoint fn found k distinct h marked =
    ground (arith, record_hints_disjoint (input_hints fn.parameters) found k distinct h)
