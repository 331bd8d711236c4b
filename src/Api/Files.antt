-- ===== src/Api/Files.antt =====
-- The routes of src/rescs/api/routers/files.py.
use Prim.Native.Char.{Char, code}
use Prim.Native.String
use rescs.Prelude.{
  String, ◌==◌, string_eq, nat_eq, ℕ, zero, suc, ◌+◌, ◌*◌, Bool, true, not, ◌&&◌, ◌||◌, Option,
  none, some, List, [], ◌∷◌, ◌++◌, leb, if◌then◌else◌, is_empty, strip, length, take, drop,
}
use rescs.Prelude.Int.{ℤ}
use rescs.Errors.{Result, ok, err, invalid_request, payload_too_large, value_error}
use rescs.Action.{Action, pure, lift, gets, ◌>>=◌, ◌>>◌}
use rescs.Domain.{FileObjectData, Page, Datetime, object, end_fields}
use rescs.Domain.Tags.{normalize_tags}
use rescs.Memory.Files as Repo
use rescs.Memory.Files.{FileFilter}
use rescs.Security.{enforce_owner, scoped_query_owner, assert_principal_is_owner}
use rescs.World.{Runtime, World}
use rescs.Services.Common.{Settings, Service, exceeds}
use rescs.Services.Files.Create.{create_stream}
use rescs.Services.Files.Download.{download, download_stream, consume}
use rescs.Services.Files.Lifecycle as Lifecycle
use rescs.Services.Files.Listing as Listing
use rescs.Api.Requests.{Caller, parse_etag, scope_owner, check_device, is_within}

-- The parts of a multipart upload that the route reads.
pub record Upload : Type 0 where
  pub filename : Option String
  pub content_type : Option String
  pub pieces : List (List ℕ)
  pub owner : String
  pub tags : List String
  pub expires_at : Option String
  pub ttl_seconds : Option ℤ

-- `CHUNK_SIZE` of src/rescs/interfaces/object_store.py.
abbrev pub chunk_size : ℕ
chunk_size = 1024 * 1024

-- The loop that spools the pieces, up to the first empty one.
unfoldable pub intake : ℕ → ℕ → List (List ℕ) → Result (List ℕ)
intake most received [] = ok []
intake most received (piece ∷ pieces) =
    let rest = intake most (received + length piece) pieces in
    if length piece == 0
    then ok []
    else if exceeds (received + length piece) most
    then err payload_too_large
    else elim rest [ ok more ↦ ok (piece ++ more) | err e ↦ err e ]

-- `_chunks`, on the bytes that are left in the spool; a round takes at least one.
unfoldable pub chunks : ℕ → List ℕ → List (List ℕ)
chunks zero bytes = []
chunks (suc fuel) bytes =
    let rest = chunks fuel (drop chunk_size bytes) in
    if length bytes == 0 then [] else take chunk_size bytes ∷ rest

abbrev pub octet_stream : String
octet_stream = "application/octet-stream"

-- `text.split(";")[0]`
unfoldable pub before_semicolon : String → String
before_semicolon String.[] = String.[]
before_semicolon (String.◌∷◌ c s) =
    let rest = before_semicolon s in if code c == 59 then String.[] else String.◌∷◌ c rest

-- `_sniff_mime`
unfoldable pub sniff_mime : Option String → String
unfolding before_semicolon
sniff_mime none = octet_stream
sniff_mime (some content_type) =
    if is_empty content_type then octet_stream else strip (before_semicolon content_type)

-- `upload.filename or "unnamed"`
abbrev pub name_of : Option String → String → String
name_of none other = other
name_of (some name) other = if is_empty name then other else name

-- A character that `_content_disposition` keeps: no control character, no quote, no backslash.
unfoldable pub is_safe_char : Char → Bool
is_safe_char c =
    not (code c == 13 || code c == 10 || code c == 34 || code c == 92) && leb 32 (code c)

unfoldable pub keep_safe : String → String
unfolding is_safe_char
keep_safe String.[] = String.[]
keep_safe (String.◌∷◌ c s) =
    let rest = keep_safe s in if is_safe_char c then String.◌∷◌ c rest else rest

-- `text[:n]`
unfoldable pub take_text : ℕ → String → String
take_text zero s = String.[]
take_text (suc n) String.[] = String.[]
take_text (suc n) (String.◌∷◌ c s) = String.◌∷◌ c (take_text n s)

-- `raw` and `safe` of `_content_disposition`.
unfoldable pub raw_name : Option String → String
raw_name none = "download"
raw_name (some name) = name_of (some (strip name)) "download"

unfoldable pub safe_name : String → String
unfolding keep_safe take_text
safe_name raw = take_text 180 (name_of (some (strip (keep_safe raw))) "download")

-- `f'{before}"{text}"'`
abbrev pub quoted : String → String → String
quoted before text = String.◌++◌ before (String.◌++◌ "\"" (String.◌++◌ text "\""))

-- `_content_disposition`, with `urllib.parse.quote(…, safe="")` as a parameter that does not raise.
unfoldable pub content_disposition : (String → String) → Option String → String
unfolding raw_name safe_name
content_disposition quote filename =
    let safe = safe_name (raw_name filename) in
    let encoded = quote (raw_name filename) in
    let plain = quoted "attachment; filename=" safe in
    if encoded == safe then plain else String.◌++◌ plain (String.◌++◌ "; filename*=UTF-8''" encoded)

-- The response of a download: its headers and its body, which ends well or with an error.
pub record Download : Type 0 where
  pub disposition : String
  pub sha256 : String
  pub size : ℕ
  pub etag : String
  pub media_type : String
  pub body : List ℕ
  pub ending : Result (Unit {0})

-- `settings.streaming_threshold_bytes or 8 * 1024 * 1024`
abbrev pub threshold_of : ℕ → ℕ
threshold_of configured = if configured == 0 then 8 * 1024 * 1024 else configured

-- `datetime.fromisoformat`, which may raise a `ValueError`, is a parameter.
unfoldable pub read_expiry : (String → Option Datetime) → Option String → Result (Option Datetime)
read_expiry fromisoformat none = ok none
read_expiry fromisoformat (some text) = elim (fromisoformat text) [
  | none ↦ err invalid_request
  | some t ↦ ok (some t)
]

module _ (rt : Runtime) (svc : Service) (settings : Settings) (caller : Caller) where
  -- The owner that an upload is made for.
  unfoldable pub assign_owner : String → Result (Option String)
  unfolding enforce_owner scope_owner
  assign_owner requested =
      elim (enforce_owner (some requested) caller.principal settings.api_key_owner) [
        | err e ↦ err e
        | ok owner ↦ scope_owner caller.device (some owner)
      ]

  unfoldable pub upload_file : (String → Option Datetime) → Upload → Action World FileObjectData
  unfolding intake chunks assign_owner read_expiry sniff_mime create_stream
  upload_file fromisoformat u = do
    bytes ← lift (intake settings.max_file_size 0 u.pieces)
    filename ← lift (
        if is_within 1 512 (name_of u.filename "unnamed")
        then ok (name_of u.filename "unnamed")
        else err value_error)
    owner ← lift (assign_owner u.owner)
    expires_at ← lift (read_expiry fromisoformat u.expires_at)
    create_stream rt svc
        (record {
          filename = filename;
          mime_type = sniff_mime u.content_type;
          metadata = object end_fields;
          owner = name_of owner u.owner;
          idempotency_key = none;
          tags = normalize_tags u.tags;
          expires_at = expires_at;
          ttl_seconds = u.ttl_seconds;
        })
        (chunks (length bytes) bytes)

  unfoldable pub list_files : FileFilter → ℤ → ℤ → Action World (Page FileObjectData)
  unfolding scoped_query_owner scope_owner Listing.list
  list_files f limit offset = do
    own ← lift (scoped_query_owner f.owner caller.principal settings.api_key_owner)
    owner ← lift (scope_owner caller.device (some own))
    Listing.list rt svc (record f { owner = owner }) limit offset

  -- The two checks of `_authorized_file` and of `_authorized_file_including_deleted`. A file has no
  -- namespace, and `"files"` stands for it.
  unfoldable pub authorize : FileObjectData → Action World FileObjectData
  unfolding assert_principal_is_owner
  authorize f = do
    lift (assert_principal_is_owner f.owner settings.api_key_owner)
    lift (check_device caller.device f.owner "files")
    pure f

  unfoldable pub authorized_file : String → Action World FileObjectData
  unfolding Repo.get authorize
  authorized_file id = Repo.get rt id >>= authorize

  unfoldable pub authorized_file_including_deleted : String → Action World FileObjectData
  unfolding Repo.get_including_deleted authorize
  authorized_file_including_deleted id = Repo.get_including_deleted id >>= authorize

  unfoldable pub get_file_metadata : String → Action World FileObjectData
  unfolding authorized_file
  get_file_metadata id = authorized_file id

  abbrev pub response : (String → String) → FileObjectData → List ℕ → Result (Unit {0}) → Download
  response quote f bytes ending = record {
    disposition = content_disposition quote (some f.filename);
    sha256 = f.sha256;
    size = f.size;
    etag = quoted "" f.etag;
    media_type = f.mime_type;
    body = bytes;
    ending = ending;
  }

  -- The body of a response is read to its end.
  unfoldable pub send : (String → String) → ℕ → String → FileObjectData → Action World Download
  unfolding download download_stream consume
  send quote threshold id meta =
      if leb (threshold_of threshold) meta.size
      then (do
        f ← download_stream rt svc id
        read ← gets (consume rt svc f)
        pure (response quote meta read.0 read.1))
      else (do found ← download rt svc id true; pure (response quote meta found.1 (ok tt)))

  unfoldable pub download_file : (String → String) → ℕ → String → Action World Download
  unfolding authorized_file send
  download_file quote threshold id = authorized_file id >>= send quote threshold id

  unfoldable pub delete_file : String → Option String → Action World (Unit {0})
  unfolding authorized_file Lifecycle.delete parse_etag
  delete_file id if_match =
      authorized_file id >> Lifecycle.delete rt svc id "system" (parse_etag if_match)

  unfoldable pub restore_file : String → Option String → Action World FileObjectData
  unfolding authorized_file_including_deleted Lifecycle.restore parse_etag
  restore_file id if_match =
      authorized_file_including_deleted id >> Lifecycle.restore rt svc id (parse_etag if_match)

  unfoldable pub purge_file : String → Option String → Action World (Unit {0})
  unfolding authorized_file_including_deleted Lifecycle.purge parse_etag
  purge_file id if_match =
      authorized_file_including_deleted id >> Lifecycle.purge rt svc id (parse_etag if_match)
