-- ===== src/Domain/Value.antt =====
-- The values of `dict[str, Any]`: JSON-like data, with dictionaries in insertion order.
use vertical_ai_research_act.Prelude.{
  ℕ, zero, ◌≡◌, refl, String, Bool, true, false, not, Option, none, some, List, [], ◌∷◌, arith,
  string_eq, ◌==◌, or_else, if◌then◌else◌,
}
use vertical_ai_research_act.Prelude.Int.{ℤ, pos}
use text.Mathlib.TextEquality.{eq_iff}

-- A finite Python float: `mantissa / 2 ^ scale`.
pub record Float : Type 0 where
  pub mantissa : ℤ
  pub scale : ℕ

mutual
  pub data Value : Type 0 where
    null : Value
    bool : Bool → Value
    int : ℤ → Value
    float : Float → Value
    str : String → Value
    list : Items → Value
    dict : Dict → Value

  pub data Items : Type 0 where
    nil : Items
    item : Value → Items → Items

  pub data Dict : Type 0 where
    empty : Dict
    entry : String → Value → Dict → Dict

abbrev is_zero : ℤ → Bool
is_zero (pos zero) = true
is_zero _ = false

-- `bool(value)`
abbrev pub truthy : Value → Bool
truthy null = false
truthy (bool b) = b
truthy (int n) = not (is_zero n)
truthy (float x) = not (is_zero x.mantissa)
truthy (str s) = not (s == "")
truthy (list nil) = false
truthy (list (item v r)) = true
truthy (dict empty) = false
truthy (dict (entry k v r)) = true

-- `value or other`
abbrev pub value_or : Value → Value → Value
value_or v w = if truthy v then v else w

abbrev pub is_null : Value → Bool
is_null null = true
is_null _ = false

-- `isinstance(value, (int, float))`: a `bool` is an `int`.
abbrev pub is_number : Value → Bool
is_number (bool b) = true
is_number (int n) = true
is_number (float x) = true
is_number _ = false

-- `d[k]` if it is there.
unfoldable pub lookup : Dict → String → Option Value
lookup empty k = none
lookup (entry j v d) k = if j == k then some v else lookup d k

-- `d.get(k)`
unfoldable pub get : Dict → String → Value
unfolding lookup
get d k = elim (lookup d k) [ none ↦ null | some v ↦ v ]

-- `d[k] = v`: a key that is there keeps its place.
unfoldable pub put : Dict → String → Value → Dict
put empty k v = entry k v empty
put (entry j w d) k v = if j == k then entry j v d else entry j w (put d k v)

-- `d.update(other)`
unfoldable pub update : Dict → Dict → Dict
unfolding put
update d empty = d
update d (entry k v other) = update (put d k v) other

pub lookup-put :
    (d : Dict) (k j : String) (v : Value)
    → lookup (put d k v) j ≡ (if k == j then some v else lookup d j)
unfolding lookup put
lookup-put empty k j v = refl
lookup-put (entry i w d) k j v =
    ground (arith, eq_iff i k, eq_iff i j, eq_iff k j, lookup-put d k j v)

-- The last value that a list of assignments gives to a key.
unfoldable pub lookup_last : Dict → String → Option Value
lookup_last empty k = none
lookup_last (entry j v d) k = or_else (lookup_last d k) (if j == k then some v else none)

-- After `update` a key has the value that the other dictionary gives it, or its old one.
pub lookup-update :
    (d other : Dict) (j : String)
    → lookup (update d other) j ≡ or_else (lookup_last other j) (lookup d j)
unfolding update lookup_last
lookup-update d empty j = refl
lookup-update d (entry k v other) j =
    ground (arith, lookup-update (put d k v) other j, lookup-put d k j v)

-- `Optional` fields as values.
abbrev pub str_value : Option String → Value
str_value none = null
str_value (some s) = str s

abbrev pub nat_value : ℕ → Value
nat_value n = int (pos n)

abbrev pub nat_value_or_null : Option ℕ → Value
nat_value_or_null none = null
nat_value_or_null (some n) = int (pos n)

-- A key that is there gives its value to `f`; a missing one gives the default.
abbrev pub present_or {ℓ} : {A : Type ℓ} → Dict → String → A → (Value → A) → A
present_or d k missing f = elim (lookup d k) [ none ↦ missing | some v ↦ f v ]

-- The pairs whose key satisfies the test are put into the dictionary, in order.
unfoldable pub collect : (String → Value → Bool) → Dict → Dict → Dict
unfolding put
collect p out empty = out
collect p out (entry k v d) = collect p (if p k v then put out k v else out) d

abbrev pub str_items : List String → Items
str_items [] = nil
str_items (s ∷ r) = item (str s) (str_items r)

abbrev pub dict_items : List Dict → Items
dict_items [] = nil
dict_items (d ∷ r) = item (dict d) (dict_items r)
