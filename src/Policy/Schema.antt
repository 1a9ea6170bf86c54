-- ===== src/Policy/Schema.antt =====
-- internal/policy/schema.go: the check of arguments against a JSON schema. Parsing the schema is
-- encoding/json's, and the numbers are float64, so both are parameters.
use cruvero_mcp_gateway.Prelude.{
  Bool, true, false, ◌||◌, List, [], ◌∷◌, ◌++◌, Option, none, some, ◌==◌, if◌then◌else◌, is_empty,
  Result, ok, err,
}
use cruvero_mcp_gateway.Prelude.Texts.{Text, text_eq, codes, trim_space}
use cruvero_mcp_gateway.Policy.Values.{
  Value, Items, Fields, bool, num, str, arr, obj, nil, cons, end, field, Violation,
  schema_violation, medium,
}

-- What the check uses of float64, of reflect.DeepEqual and of encoding/json.
pub record Json (N : Type 0) : Type 0 where
  pub is_whole : N → Bool
  pub equal : N → N → Bool
  pub deep_equal : Value N → Value N → Bool
  pub unmarshal : Text → Result Text (Fields N)

unfoldable pub get_field : {N : Type 0} → Text → Fields N → Option (Value N)
get_field name end = none
get_field name (field k v fs) = if k == name then some v else get_field name fs

unfoldable pub missing : Text → Violation
missing name = record {
  kind = schema_violation;
  detail = codes "missing required argument: " ++ name;
  severity = medium;
}

-- One name of the `required` list.
unfoldable pub require : {N : Type 0} → Fields N → Value N → List Violation
require args (str raw) =
    let name = trim_space raw in
    if is_empty name
    then []
    else elim (get_field name args) [ some v ↦ [] | none ↦ missing name ∷ [] ]
require args _ = []

unfoldable pub require_all : {N : Type 0} → Fields N → Items N → List Violation
require_all args nil = []
require_all args (cons x xs) = require args x ++ require_all args xs

unfoldable pub validate_required : {N : Type 0} → Fields N → Option (Value N) → List Violation
validate_required args (some (arr xs)) = require_all args xs
validate_required args _ = []

module _ {N : Type 0} (j : Json N) where
  unfoldable pub is_integer : Value N → Bool
  is_integer (num n) = j.is_whole n
  is_integer _ = false

  unfoldable pub same_number : Value N → Value N → Bool
  same_number (num m) (num n) = j.equal m n
  same_number _ _ = false

unfoldable pub is_blank_schema : Text → Bool
unfolding trim_space
is_blank_schema schema =
    let trimmed = trim_space schema in
    is_empty trimmed || trimmed == codes "null" || trimmed == codes "{}"

unfoldable pub is_string : {N : Type 0} → Value N → Bool
is_string (str s) = true
is_string _ = false

unfoldable pub is_number : {N : Type 0} → Value N → Bool
is_number (num n) = true
is_number _ = false

unfoldable pub is_boolean : {N : Type 0} → Value N → Bool
is_boolean (bool b) = true
is_boolean _ = false

unfoldable pub is_object : {N : Type 0} → Value N → Bool
is_object (obj fs) = true
is_object _ = false

unfoldable pub is_array : {N : Type 0} → Value N → Bool
is_array (arr xs) = true
is_array _ = false

unfoldable pub same_string : {N : Type 0} → Value N → Value N → Bool
same_string (str s) (str t) = s == t
same_string _ _ = false

module _ {N : Type 0} (j : Json N) where
  unfoldable pub matches_json_type : Value N → Text → Bool
  unfolding is_number is_integer is_string is_boolean is_object is_array
  matches_json_type value raw =
      let expected = trim_space raw in
      if expected == codes "string"
      then is_string value
      else if expected == codes "boolean"
      then is_boolean value
      else if expected == codes "number"
      then is_number value
      else if expected == codes "integer"
      then is_integer j value
      else if expected == codes "object"
      then is_object value
      else if expected == codes "array"
      then is_array value
      else true

  unfoldable pub value_in_enum : Value N → Items N → Bool
  unfolding same_number same_string
  value_in_enum value nil = false
  value_in_enum value (cons c cs) =
      j.deep_equal value c || same_number j value c || same_string value c || value_in_enum value cs

  unfoldable pub check_type : Text → Value N → Option (Value N) → List Violation
  unfolding matches_json_type
  check_type name value (some (str expected)) =
      if matches_json_type value expected
      then []
      else record {
        kind = schema_violation;
        detail = codes "argument " ++ name ++ codes " has wrong type, expected " ++ expected;
        severity = medium;
      }
        ∷ []
  check_type name value _ = []

  -- An empty enumeration allows every value.
  unfoldable pub check_enum : Text → Value N → Option (Value N) → List Violation
  unfolding value_in_enum
  check_enum name value (some (arr (cons c cs))) =
      if value_in_enum value (cons c cs)
      then []
      else record {
        kind = schema_violation;
        detail = codes "argument " ++ name ++ codes " is not in enum";
        severity = medium;
      }
        ∷ []
  check_enum name value _ = []

  unfoldable pub check_property : Text → Value N → Option (Value N) → List Violation
  unfolding check_type check_enum get_field
  check_property name value (some (obj prop)) =
      check_type name value (get_field (codes "type") prop)
      ++ check_enum name value (get_field (codes "enum") prop)
  check_property name value _ = []

  unfoldable pub check_properties : Fields N → Fields N → List Violation
  unfolding check_property
  check_properties properties end = []
  check_properties properties (field name value args) =
      check_property name value (get_field name properties) ++ check_properties properties args

  unfoldable pub validate_properties : Fields N → Option (Value N) → List Violation
  unfolding check_properties
  validate_properties args (some (obj properties)) = check_properties properties args
  validate_properties args _ = []

  unfoldable pub validate_arguments : Fields N → Text → List Violation
  unfolding validate_required validate_properties is_blank_schema get_field
  validate_arguments args schema =
      if is_blank_schema schema then [] else elim (j.unmarshal schema) [
        | err message ↦
            record {
              kind = schema_violation;
              detail = codes "invalid schema: " ++ message;
              severity = medium;
            }
            ∷ []
        | ok raw ↦
            validate_required args (get_field (codes "required") raw)
            ++ validate_properties args (get_field (codes "properties") raw)
      ]
