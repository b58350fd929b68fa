-- ===== src/Examples/Values.antt =====
-- A small implementation of the JSON interface for the concrete runs: texts, negative numbers and
-- objects. Its reader knows a quoted text, and one object with an id for a text in a brace.
use rust_mcp.Prelude.{
  ℕ, ◌≡◌, refl, Bool, true, false, List, [], ◌∷◌, Option, none, some, arith, ◌==◌, if◌then◌else◌,
}
use rust_mcp.Text.{Text, codes, text_eq}
use rust_mcp.Json.{Json, IsJson, entry}

mutual
  pub data Value : Type 0 where
    null : Value
    str : Text → Value
    minus : ℕ → Value
    obj : Fields → Value

  pub data Fields : Type 0 where
    end : Fields
    field : Text → Value → Fields → Fields

unfoldable pub find : Text → Fields → Option Value
unfolding text_eq
find k end = none
find k (field j v rest) = if text_eq j k then some v else find k rest

unfoldable pub get : Text → Value → Option Value
unfolding find
get k (obj fields) = find k fields
get k v = none

unfoldable pub as_str : Value → Option Text
as_str (str s) = some s
as_str v = none

unfoldable pub is_object : Value → Bool
is_object (obj fields) = true
is_object v = false

unfoldable pub set : Text → Value → Value → Value
set k v (obj fields) = obj (field k v fields)
set k v m = m

unfoldable pub fields_of : List (Text × Value) → Fields
fields_of [] = end
fields_of ((k, v) ∷ rest) = field k v (fields_of rest)

unfoldable pub call : Text → Value
call id = obj (field (codes "id") (str id) (field (codes "method") (str (codes "tools/list")) end))

unfoldable pub from_str : Text → Option Value
unfolding call
from_str [] = none
from_str (c ∷ s) = if c == 34 then some (str s) else if c == b'{' then some (call s) else none

unfoldable pub to_string : Value → Text
to_string (str s) = 34 ∷ s
to_string v = codes "null"

unfoldable pub values : Json Value
unfolding get as_str is_object set fields_of from_str to_string find call
values = record {
  get = get;
  as_str = as_str;
  is_object = is_object;
  set = set;
  from_str = from_str;
  to_string = to_string;
  null = null;
  string = str;
  minus = minus;
  object = λ fields. obj (fields_of fields);
}

find-fields_of :
    (k : Text) (fields : List (Text × Value)) → find k (fields_of fields) ≡ entry k fields
unfolding find fields_of
find-fields_of k [] = refl
find-fields_of k ((j, v) ∷ rest) = ground (arith, find-fields_of k rest)

set-is_object : (k : Text) (v m : Value) → is_object (set k v m) ≡ is_object m
unfolding is_object set
set-is_object k v null = refl
set-is_object k v (str s) = refl
set-is_object k v (minus n) = refl
set-is_object k v (obj fields) = refl

get-set :
    (j k : Text) (v m : Value)
    → is_object m ≡ true
    → get j (set k v m) ≡ (if text_eq k j then some v else get j m)
unfolding is_object set get find
get-set j k v null h = cc
get-set j k v (str s) h = cc
get-set j k v (minus n) h = cc
get-set j k v (obj fields) h = refl

get-not_object : (k : Text) (m : Value) → is_object m ≡ false → get k m ≡ none
unfolding is_object get
get-not_object k null h = refl
get-not_object k (str s) h = refl
get-not_object k (minus n) h = refl
get-not_object k (obj fields) h = cc

pub values-IsJson : IsJson values
unfolding values
values-IsJson = record {
  get-object = find-fields_of;
  object-is_object = λ fields. refl;
  set-is_object = set-is_object;
  get-set = get-set;
  get-not_object = get-not_object;
  as_str-string = λ s. refl;
}
