-- ===== src/Api/Requests.antt =====
-- What the routes share: `parse_etag` of src/rescs/api/deps.py, the scope of a device, and the
-- validators of src/rescs/schemas/record.py.
use Prim.Native.Char.{code}
use Prim.Native.String
use text.Mathlib.Text.{starts_with}
use rescs.Prelude.{
  String, ◌==◌, string_eq, nat_eq, ℕ, Bool, true, not, ◌&&◌, ◌||◌, Option, none, some, List, map,
  all, length, ltb, leb, if◌then◌else◌, is_empty, is_some, truthy, strip, is_word_char,
}
use rescs.Prelude.Int.{ℤ, lt_ℕ}
use rescs.Errors.{Result, ok, err, value_error}
use rescs.Domain.Tags.{max_tags, is_valid_tag}
use rescs.Security.{
  drop_prefix, validate_device_namespace, validate_device_owner, assert_device_ownership,
}
use rescs.Services.Records.Payload.{RecordCreate}

-- The caller of a route: the owner that `require_api_key` returned, and the device of the request.
pub record Caller : Type 0 where
  pub principal : String
  pub device : Option String

-- A text without the quote that ends it, if one does.
unfoldable pub before_quote : String → Option String
before_quote String.[] = none
before_quote (String.◌∷◌ c String.[]) = if code c == 34 then some String.[] else none
before_quote (String.◌∷◌ c (String.◌∷◌ d s)) = elim (before_quote (String.◌∷◌ d s)) [
  | none ↦ none
  | some t ↦ some (String.◌∷◌ c t)
]

-- `value[1:-1]` of a text in quotes, and any other text as it is.
unfoldable pub unquote : String → String
unfolding before_quote
unquote String.[] = String.[]
unquote (String.◌∷◌ c s) = elim (before_quote s) [
  | none ↦ String.◌∷◌ c s
  | some t ↦ if code c == 34 then t else String.◌∷◌ c s
]

-- `value[2:].strip()` of a weak tag.
unfoldable pub strip_weak : String → String
strip_weak value = if starts_with value "W/" then strip (drop_prefix "W/" value) else value

-- `parse_etag` of a header that is not empty.
unfoldable pub parse_value : String → Option String
unfolding strip_weak unquote
parse_value value = if value == "*" then none else some (unquote (strip_weak value))

-- `parse_etag`
unfoldable pub parse_etag : Option String → Option String
unfolding parse_value
parse_etag header = elim (truthy header) [ none ↦ none | some text ↦ parse_value (strip text) ]

-- `_apply_device_scope`, for the namespace and for the owner.
unfoldable pub scope_namespace : Option String → Option String → Result (Option String)
scope_namespace none namespace = ok namespace
scope_namespace (some device) none = ok none
scope_namespace (some device) (some namespace) = elim (validate_device_namespace namespace device) [
  | ok scoped ↦ ok (some scoped)
  | err e ↦ err e
]

unfoldable pub scope_owner : Option String → Option String → Result (Option String)
scope_owner none owner = ok owner
scope_owner (some device) owner = validate_device_owner owner device

-- `if device_id is not None: assert_device_ownership(…)`
abbrev pub check_device : Option String → String → String → Result (Unit {0})
check_device none owner namespace = ok tt
check_device (some device) owner namespace = assert_device_ownership owner namespace device

-- `_validate_tag_list`
unfoldable pub validate_tag_list : List String → Result (List String)
validate_tag_list tags =
    if ltb max_tags (length (map strip tags)) || not (all is_valid_tag (map strip tags))
    then err value_error
    else ok (map strip tags)

-- The pattern of a namespace, which pydantic matches up to the end of the text.
unfoldable pub all_word : String → Bool
all_word String.[] = true
all_word (String.◌∷◌ c s) = is_word_char c && all_word s

abbrev pub is_within : ℕ → ℕ → String → Bool
is_within least most s = leb least (String.count s) && leb (String.count s) most

abbrev pub fits : ℕ → Option String → Bool
fits most none = true
fits most (some s) = leb (String.count s) most

abbrev pub is_positive : Option ℤ → Bool
is_positive none = true
is_positive (some ttl) = not (lt_ℕ ttl 1)

-- The fields and the validators of `RecordCreate`, but for the tags.
unfoldable pub is_valid_create : RecordCreate → Bool
unfolding all_word
is_valid_create p =
    not (is_empty p.namespace)
    && all_word p.namespace
    && is_within 0 128 p.namespace
    && is_within 1 512 p.key
    && is_within 1 256 p.owner
    && fits 128 p.idempotency_key
    && is_positive p.ttl_seconds
    && not (is_some p.expires_at && is_some p.ttl_seconds)

-- `RecordCreate(**fields)`, where the value and the metadata are JSON.
unfoldable pub validate_create : RecordCreate → Result RecordCreate
unfolding is_valid_create validate_tag_list
validate_create p =
    if not (is_valid_create p)
    then err value_error
    else elim (validate_tag_list p.tags) [ ok tags ↦ ok (record p { tags = tags }) | err e ↦ err e ]
