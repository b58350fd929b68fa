-- ===== src/Json.antt =====
-- JSON values as the program sees them: what it calls of `serde_json::Value`, a package that is not
-- in the repository, with the documented behaviour that proofs rely on.
use rust_mcp.Prelude.{ℕ, ◌≡◌, Bool, true, false, List, [], ◌∷◌, Option, none, some, if◌then◌else◌}
use rust_mcp.Text.{Text, text_eq}

-- `get`, `as_str`, `is_object`, `Map::insert` on the value of an object, `from_str`, `to_string`, and
-- what `json!` builds: null, a string, a negative number, an object.
pub record Json (V : Type 0) : Type 0 where
  pub get : Text → V → Option V
  pub as_str : V → Option Text
  pub is_object : V → Bool
  pub set : Text → V → V → V
  pub from_str : Text → Option V
  pub to_string : V → Text
  pub null : V
  pub string : Text → V
  pub minus : ℕ → V
  pub object : List (Text × V) → V

-- The value that a list of entries has at a key.
abbrev pub entry : {V : Type 0} → Text → List (Text × V) → Option V
unfolding text_eq
entry k [] = none
entry k ((j, v) ∷ fields) = if text_eq j k then some v else entry k fields

pub record IsJson {V : Type 0} (json : Json V) : Type 0 where
  pub get-object :
      (k : Text) (fields : List (Text × V)) → json.get k (json.object fields) ≡ entry k fields
  pub object-is_object : (fields : List (Text × V)) → json.is_object (json.object fields) ≡ true
  pub set-is_object : (k : Text) (v m : V) → json.is_object (json.set k v m) ≡ json.is_object m
  pub get-set :
      (j k : Text) (v m : V)
      → json.is_object m ≡ true
      → json.get j (json.set k v m) ≡ (if text_eq k j then some v else json.get j m)
  pub get-not_object : (k : Text) (m : V) → json.is_object m ≡ false → json.get k m ≡ none
  pub as_str-string : (s : Text) → json.as_str (json.string s) ≡ some s
