-- ===== src/Api/Uploads.antt =====
-- The routes of src/rescs/api/routers/uploads.py.
use Prim.Native.Char.{code}
use Prim.Native.Nat.{min}
use rescs.Prelude.{
  String, ◌==◌, string_eq, nat_eq, ℕ, ◌+◌, Bool, Option, none, some, List, [], ◌∷◌, ◌++◌, ltb,
  false, not, ◌&&◌, if◌then◌else◌, strip, length, truthy, or_else,
}
use rescs.Prelude.Int.{ℤ, clip}
use rescs.Errors.{Result, ok, err, invalid_request, payload_too_large}
use rescs.Action.{Action, pure, lift, raise_if, ◌>>=◌, ◌>>◌}
use rescs.Domain.{FileObjectData, UploadSessionData}
use rescs.Security.{enforce_owner, assert_principal_is_owner}
use rescs.World.{Runtime, World}
use rescs.Services.Common.{Settings, Service}
use rescs.Services.Uploads.Shared as Uploads
use rescs.Services.Uploads.Chunks as Chunks
use rescs.Services.Uploads.Finalize as Finalize
use rescs.Services.Uploads.Cleanup as Cleanup
use rescs.Services.Uploads.Shared.{UploadCreate}
use rescs.Api.Requests.{Caller, scope_owner, check_device}

-- `text.partition(separator)[0]` and `[2]`, for a separator of one character.
unfoldable pub part_before : ℕ → String → String
part_before separator String.[] = String.[]
part_before separator (String.◌∷◌ c s) =
    let rest = part_before separator s in
    if code c == separator then String.[] else String.◌∷◌ c rest

unfoldable pub part_after : ℕ → String → String
part_after separator String.[] = String.[]
part_after separator (String.◌∷◌ c s) =
    let rest = part_after separator s in if code c == separator then s else rest

-- The start of `bytes <start>-<end>/<total>`; the unit may be left out.
unfoldable pub range_start : String → String
unfolding part_before part_after
range_start header =
    let range = or_else (truthy (some (part_after 32 header))) header in
    strip (part_before 45 (part_before 47 range))

-- What a request for a chunk holds.
pub record ChunkRequest : Type 0 where
  pub offset : Option ℤ
  pub content_range : Option String
  pub content_length : Option String
  pub pieces : List (List ℕ)

-- The two ways to say the offset. `int`, which may raise a `ValueError`, is a parameter. The third one,
-- the query parameter read again, finds nothing that FastAPI has not found.
unfoldable pub range_offset : (String → Option ℤ) → Option String → Option ℤ
unfolding range_start
range_offset int none = none
range_offset int (some header) = int (range_start header)

unfoldable pub offset_of : (String → Option ℤ) → ChunkRequest → Option ℤ
unfolding range_offset
offset_of int q = elim q.offset [
  | some offset ↦ some offset
  | none ↦ range_offset int (truthy q.content_range)
]

-- `allowed`
abbrev pub allowed : ℕ → ℕ → ℕ
allowed most size = if most == 0 then size else min size most

-- The test of the `Content-Length`, which is dropped if it is no number.
unfoldable pub claims_too_much : (String → Option ℤ) → ℕ → Option String → Bool
claims_too_much int most none = false
claims_too_much int most (some text) = elim (int text) [
  | none ↦ false
  | some size ↦ ltb most (clip size)
]

-- The loop over the body, with the pieces joined.
unfoldable pub read_body : ℕ → ℕ → List (List ℕ) → Result (List ℕ)
read_body most received [] = ok []
read_body most received (piece ∷ pieces) =
    let rest = read_body most (received + length piece) pieces in
    if ltb most (received + length piece) && not (length piece == 0)
    then err payload_too_large
    else elim rest [ ok more ↦ ok (piece ++ more) | err e ↦ err e ]

module _ (rt : Runtime) (svc : Service) (settings : Settings) (caller : Caller) where
  unfoldable pub create_upload : UploadCreate → Action World UploadSessionData
  unfolding enforce_owner scope_owner Uploads.create
  create_upload p = do
    own ← lift (enforce_owner (some p.owner) caller.principal settings.api_key_owner)
    owner ← lift (scope_owner caller.device (some own))
    Uploads.create rt svc (record p { owner = or_else owner own })

  -- The session of a route, once the caller may use it. A session has no namespace, and `"uploads"`
  -- stands for it.
  unfoldable pub authorized_session : String → Action World UploadSessionData
  unfolding Uploads.get assert_principal_is_owner
  authorized_session id = do
    session ← Uploads.get rt svc id
    lift (assert_principal_is_owner session.owner settings.api_key_owner)
    lift (check_device caller.device session.owner "uploads")
    pure session

  unfoldable pub get_upload : String → Action World UploadSessionData
  unfolding authorized_session
  get_upload id = authorized_session id

  -- `put_chunk` from the offset on.
  unfoldable pub receive :
      (String → Option ℤ)
      → String
      → ChunkRequest
      → UploadSessionData
      → Action World UploadSessionData
  unfolding offset_of claims_too_much read_body Chunks.put_chunk
  receive int id q session = do
    offset ← lift (elim (offset_of int q) [ none ↦ err invalid_request | some n ↦ ok n ])
    raise_if
        (claims_too_much int (allowed settings.max_file_size session.chunk_size) q.content_length)
        payload_too_large
    bytes ← lift (read_body (allowed settings.max_file_size session.chunk_size) 0 q.pieces)
    Chunks.put_chunk rt svc id offset bytes caller.principal

  unfoldable pub put_chunk :
      (String → Option ℤ) → String → ChunkRequest → Action World UploadSessionData
  unfolding authorized_session receive
  put_chunk int id q = authorized_session id >>= receive int id q

  unfoldable pub finalize_upload : String → Action World FileObjectData
  unfolding authorized_session Finalize.finalize
  finalize_upload id = authorized_session id >> Finalize.finalize rt svc id caller.principal

  unfoldable pub cancel_upload : String → Action World (Unit {0})
  unfolding authorized_session Cleanup.cancel
  cancel_upload id = authorized_session id >> Cleanup.cancel rt svc id caller.principal
