-- ===== src/Values.antt =====
-- The values of Python that the modelled code looks into: JSON-native ones, sequences and
-- dictionaries, the sentinel `UNSET`, and every other object, which is known by its type's name.
use djangorestframework_serv.Prelude.{
  ◌≡◌, refl, ◌==◌, arith, eq_iff, if◌then◌else◌, get, some, ℕ, String, Bool, List, [], ◌∷◌, Dict,
}

mutual
  pub data Value : Type 0 where
    null : Value
    unset : Value
    bool : Bool → Value
    int : ℕ → Value
    float : String → Value
    str : String → Value
    seq : Items → Value
    dict : Entries → Value
    object : String → Value

  pub data Items : Type 0 where
    nil : Items
    cons : Value → Items → Items

  -- The entries of a dictionary; a key is a string, or some other value.
  pub data Entries : Type 0 where
    end : Entries
    entry : String → Value → Entries → Entries
    odd_entry : Value → Value → Entries → Entries

abbrev pub items : Items → List Value
items nil = []
items (cons v vs) = v ∷ items vs

abbrev pub of_items : List Value → Items
of_items [] = nil
of_items (v ∷ vs) = cons v (of_items vs)

-- The entries under string keys.
abbrev pub named_entries : Entries → Dict Value
named_entries end = []
named_entries (entry k v es) = (k, v) ∷ named_entries es
named_entries (odd_entry k v es) = named_entries es

abbrev pub of_entries : Dict Value → Entries
of_entries [] = end
of_entries ((k, v) ∷ d) = entry k v (of_entries d)

-- `value is UNSET`
abbrev pub is_unset : Value → Bool
is_unset unset = Bool.true
is_unset _ = Bool.false

-- `value is None`
abbrev pub is_null : Value → Bool
is_null null = Bool.true
is_null _ = Bool.false

-- `d[k] = v` of a dictionary value
unfoldable pub put_entry : String → Value → Entries → Entries
put_entry k v end = entry k v end
put_entry k v (entry j w es) = if j == k then entry j v es else entry j w (put_entry k v es)
put_entry k v (odd_entry j w es) = odd_entry j w (put_entry k v es)

-- `{**d, **e}` for the string keys of `e`
unfoldable pub put_entries : Entries → Dict Value → Entries
unfolding put_entry
put_entries es [] = es
put_entries es ((k, v) ∷ d) = put_entries (put_entry k v es) d

pub get-put_entry :
    (k j : String) (v : Value) (es : Entries)
    → get j (named_entries (put_entry k v es))
      ≡ (if k == j then some v else get j (named_entries es))
unfolding put_entry get
get-put_entry k j v end = refl
get-put_entry k j v (entry i w es) =
    ground (arith, eq_iff k j, eq_iff i k, eq_iff i j, get-put_entry k j v es)
get-put_entry k j v (odd_entry i w es) = get-put_entry k j v es
