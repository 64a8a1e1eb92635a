-- ===== src/Json.antt =====
-- Values of a decoded JSON body, and of the `dict[str, Any]` that providers hand over. A number is
-- an integer: fractions are not modelled.
use lead_generation_api_zyla.Prelude.{
  String, Bool, true, false, not, Option, none, some, List, [], ◌∷◌, ◌==◌, eqb, if◌then◌else◌,
}
use lead_generation_api_zyla.Prelude.Int.{ℤ, pos, negsuc}
use lead_generation_api_zyla.Errors.{Result, ok, err, unexpected}

mutual
  pub data Json : Type 0 where
    null : Json
    bool : Bool → Json
    num : ℤ → Json
    str : String → Json
    arr : Items → Json
    obj : Fields → Json

  pub data Items : Type 0 where
    nil : Items
    cons : Json → Items → Items

  pub data Fields : Type 0 where
    end : Fields
    field : String → Json → Fields → Fields

abbrev pub items : Items → List Json
items nil = []
items (cons v vs) = v ∷ items vs

-- `d.get(key)` on a dict, with nothing where the key is missing
abbrev pub lookup : String → Fields → Option Json
lookup k end = none
lookup k (field j v rest) = if j == k then some v else lookup k rest

abbrev pub or_null : Option Json → Json
or_null none = null
or_null (some v) = v

-- `d.get(key)`
abbrev pub get : Fields → String → Json
get d k = or_null (lookup k d)

-- `d[key]`
abbrev pub item : Fields → String → Result Json
item d k = elim (lookup k d) [ none ↦ err (unexpected "KeyError") | some v ↦ ok v ]

-- `{**d, key: v}`
abbrev pub insert : String → Json → Fields → Fields
insert k v end = field k v end
insert k v (field j w rest) = if j == k then field k v rest else field j w (insert k v rest)

-- `bool(v)`
abbrev pub truthy : Json → Bool
truthy null = false
truthy (bool b) = b
truthy (num (pos n)) = not (eqb n 0)
truthy (num (negsuc n)) = true
truthy (str s) = not (s == "")
truthy (arr nil) = false
truthy (arr (cons v vs)) = true
truthy (obj end) = false
truthy (obj (field k v rest)) = true

-- `v` as a nullable text column takes it. Any other value is refused before the commit.
abbrev pub text_column : Json → Result (Option String)
text_column null = ok none
text_column (str s) = ok (some s)
text_column _ = err (unexpected "StatementError")

-- `v` as a text column that is not nullable takes it
abbrev pub text_required : Json → Result String
text_required (str s) = ok s
text_required _ = err (unexpected "StatementError")

-- `v` as a nullable integer column takes it
abbrev pub int_column : Json → Result (Option ℤ)
int_column null = ok none
int_column (num z) = ok (some z)
int_column _ = err (unexpected "StatementError")

-- a text method called on `v`
abbrev pub as_text : Json → Result String
as_text (str s) = ok s
as_text _ = err (unexpected "AttributeError")

-- what a `for` goes through, a list only
abbrev pub as_list : Json → Result (List Json)
as_list (arr vs) = ok (items vs)
as_list _ = err (unexpected "TypeError")
