-- ===== src/Security.antt =====
-- src/rescs/security.py: owners and devices. `hmac.compare_digest` is equality of texts.
pub mod Owners
pub mod Devices
use Prim.Native.Char.{code}
use Prim.Native.String
use Prim.Native.String.{◌++◌}
use text.Mathlib.Text.{starts_with, find?}
use rescs.Prelude.{
  String, ◌==◌, string_eq, nat_eq, ℕ, Bool, true, false, not, ◌&&◌, ◌||◌, Option, none, some, List,
  [], ◌∷◌, if◌then◌else◌, is_empty, truthy,
}
use rescs.Errors.{Error, Result, ok, err, unauthorized, forbidden}

abbrev pub system_owner : String
system_owner = "system"

abbrev pub device_namespace_prefix : String
device_namespace_prefix = "personal.device."

abbrev pub reserved_namespace_prefixes : List String
reserved_namespace_prefixes = "core." ∷ "rescs." ∷ "asis." ∷ "tiviss." ∷ []

-- `a or b`, for a text `a`
abbrev pub or_text : String → String → String
or_text a b = if is_empty a then b else a

-- `authenticate_api_key`, with the two settings that it reads.
unfoldable pub authenticate_api_key : String → String → Option String → Result String
authenticate_api_key api_key api_key_owner header = elim (truthy header) [
  | none ↦ err unauthorized
  | some key ↦ if key == api_key then ok (or_text api_key_owner system_owner) else err unauthorized
]

-- `enforce_owner`: the owner that a write is made for.
unfoldable pub enforce_owner : Option String → String → String → Result String
enforce_owner requested principal lock =
    if is_empty lock
    then ok (elim (truthy requested) [ none ↦ principal | some owner ↦ owner ])
    else elim (truthy requested) [
      | none ↦ ok lock
      | some owner ↦ if owner == lock then ok lock else err unauthorized
    ]

-- `scoped_query_owner`: the owner that a listing is filtered by.
unfoldable pub scoped_query_owner : Option String → String → String → Result String
scoped_query_owner owner principal lock =
    if is_empty lock
    then ok (elim (truthy owner) [ none ↦ principal | some o ↦ o ])
    else elim (truthy owner) [
      | none ↦ ok lock
      | some o ↦ if o == lock then ok lock else err unauthorized
    ]

-- `assert_principal_is_owner`
unfoldable pub assert_principal_is_owner : String → String → Result (Unit {0})
assert_principal_is_owner record_owner lock =
    if not (is_empty lock) && not (record_owner == lock) then err forbidden else ok tt

-- The loop over the reserved prefixes.
unfoldable pub is_reserved : String → List String → Bool
is_reserved namespace [] = false
is_reserved namespace (p ∷ ps) = starts_with namespace p || is_reserved namespace ps

-- `f"{DEVICE_NAMESPACE_PREFIX}{device_id}"`
abbrev pub device_scope : String → String
device_scope device = device_namespace_prefix ++ device

-- `validate_device_namespace`
unfoldable pub validate_device_namespace : String → String → Result String
unfolding is_reserved
validate_device_namespace namespace device =
    if is_reserved namespace reserved_namespace_prefixes
    then err unauthorized
    else if starts_with namespace device_namespace_prefix
    then (if starts_with namespace (device_scope device ++ ".")
        then ok namespace
        else err unauthorized)
    else ok ((device_scope device ++ ".") ++ namespace)

-- `validate_device_owner`
unfoldable pub validate_device_owner : Option String → String → Result (Option String)
validate_device_owner none device = ok none
validate_device_owner (some owner) device =
    if starts_with owner device_namespace_prefix
    then (if starts_with owner (device_scope device) then ok (some owner) else err unauthorized)
    else ok (some ((device_scope device ++ ".") ++ owner))

-- `text.split(".", 1)[0]`
unfoldable pub before_dot : String → String
before_dot String.[] = String.[]
before_dot (String.◌∷◌ c s) =
    let rest = before_dot s in if code c == 46 then String.[] else String.◌∷◌ c rest

-- `text[len(prefix):]` of a text that starts with the prefix.
unfoldable pub drop_prefix : String → String → String
drop_prefix String.[] s = s
drop_prefix (String.◌∷◌ c p) String.[] = String.[]
drop_prefix (String.◌∷◌ c p) (String.◌∷◌ d s) = drop_prefix p s

-- `extract_device_id_from_namespace`
unfoldable pub extract_device_id : String → Option String
unfolding before_dot drop_prefix
extract_device_id namespace =
    if starts_with namespace device_namespace_prefix
    then truthy (some (before_dot (drop_prefix device_namespace_prefix namespace)))
    else none

-- `assert_device_ownership`
unfoldable pub assert_device_ownership : String → String → String → Result (Unit {0})
unfolding extract_device_id
assert_device_ownership owner namespace device = elim (extract_device_id namespace) [
  | none ↦ err unauthorized
  | some own ↦
      if own == device
      then (if starts_with owner (device_scope device) then ok tt else err unauthorized)
      else err unauthorized
]
