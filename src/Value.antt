-- ===== src/Value.antt =====
-- The dynamic values that the program passes on (`interface{}`), Go maps, and `error`.
-- A map is an association list in some order of its keys; a nil map is an empty one.
pub mod Laws
pub mod Cases
use Prim.Native.String
use servone.Prelude.{
  ℕ, String, Bool, true, false, Option, none, some, List, [], ◌∷◌, str_eq, if◌then◌else◌,
}
use servone.Prelude.Int.{ℤ}
use servone.Prelude.Text.{◌<>◌, before_char}

-- An `error`: its text, or `fmt.Errorf("…: %w", err)`.
pub data Error : Type 0 where
  message : String → Error
  wrap : String → Error → Error

-- `err.Error()`; every format of the program with the verb `%w` ends with it.
unfoldable pub error_string : Error → String
unfolding before_char
error_string (message s) = s
error_string (wrap format e) = before_char "%" format <> error_string e

-- `(T, error)`.
pub data Result {ℓ} (A : Type ℓ) : Type ℓ where
  ok : A → Result A
  err : Error → Result A

-- A float64 is its bit pattern; `items` are `[]interface{}`, `[]string` and slices of maps.
mutual
  pub data Value : Type 0 where
    null : Value
    boolean : Bool → Value
    int : ℤ → Value
    float : ℕ → Value
    text : String → Value
    items : Items → Value
    object : Fields → Value

  pub data Items : Type 0 where
    nil : Items
    cons : Value → Items → Items

  pub data Fields : Type 0 where
    end : Fields
    field : String → Value → Fields → Fields

-- `map[string]string`.
abbrev pub StringMap : Type 0
StringMap = List (String × String)

-- `m[k]`, with its `ok`.
unfoldable pub get : String → Fields → Option Value
get k end = none
get k (field j v m) = if str_eq j k then some v else get k m

-- `m[k] = v`.
unfoldable pub put : String → Value → Fields → Fields
put k v end = field k v end
put k v (field j w m) = if str_eq j k then field k v m else field j w (put k v m)

unfoldable pub get_string : String → StringMap → Option String
get_string k [] = none
get_string k ((j, v) ∷ m) = if str_eq j k then some v else get_string k m

-- A `map[string]string` as a dynamic value.
unfoldable pub of_strings : StringMap → Fields
of_strings [] = end
of_strings ((k, v) ∷ m) = field k (text v) (of_strings m)
