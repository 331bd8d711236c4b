-- ===== src/Services/Uploads/Cleanup.antt =====
-- `_cleanup_chunks`, `cancel` and `cleanup_expired` of `UploadService`.
use Prim.Native.Nat.{min, max}
use rescs.Prelude.{
  String, ◌==◌, string_eq, ℕ, zero, suc, ◌+◌, ◌&&◌, Option, none, some, List, [], ◌∷◌, leb, ltb,
  if◌then◌else◌, length,
}
use rescs.Errors.{Error, ok, code, not_found}
use rescs.Action.{Action, pure, raise, lift, handle, ◌>>=◌, ◌>>◌}
use rescs.Dict
use rescs.Dict.{Dict, pop}
use rescs.Domain.{UploadSessionData}
use rescs.Memory.Sessions as Sessions
use rescs.World.{Runtime, World, BlobKey, object, chunk, blob_key_eq, utcnow}
use rescs.Services.Common.{Service, audited, check_owner, on_error, outcome_of}
use rescs.Services.Uploads.Shared.{upload_ok, upload_entry, unless_missing}

-- The smaller of a new offset and the least found so far.
abbrev pub least : ℕ → Option ℕ → ℕ
least n none = n
least n (some m) = min n m

abbrev pub probe_key : String → ℕ → BlobKey → Option ℕ → Option ℕ
probe_key id offset (object _) found = found
probe_key id offset (chunk session n) found =
    if session == id && ltb offset n then some (least n found) else found

-- `_advance_probe` over the keys of a memory store: the least offset of the session's chunks beyond
-- an offset.
unfoldable pub advance_probe : String → ℕ → Dict BlobKey (List ℕ) → Option ℕ
advance_probe id offset [] = none
advance_probe id offset ((key, bytes) ∷ blobs) =
    probe_key id offset key (advance_probe id offset blobs)

-- The loop of `_cleanup_chunks`. A round that goes on moves the offset up.
unfoldable pub clean_from : ℕ → String → ℕ → ℕ → ℕ → Dict BlobKey (List ℕ) → Dict BlobKey (List ℕ)
clean_from zero id total offset seen_empty blobs = blobs
clean_from (suc fuel) id total offset seen_empty blobs =
    if leb offset total && ltb seen_empty 3
    then elim (Dict.get (chunk id offset) blobs) [
      | some bytes ↦
          clean_from fuel id total (offset + max (length bytes) 1) 0 (pop (chunk id offset) blobs)
      | none ↦ elim (advance_probe id offset blobs) [
        | none ↦ blobs
        | some next ↦ clean_from fuel id total next (seen_empty + 1) blobs
      ]
    ]
    else blobs

-- `_cleanup_chunks`: the offset begins at 0, rises in each round and ends above the total, so there
-- is fuel for every round.
unfoldable pub cleanup_chunks : String → ℕ → Action World (Unit {0})
unfolding clean_from advance_probe
cleanup_chunks id total w =
    (ok tt, record w { blobs = clean_from (suc (suc total)) id total 0 0 w.blobs })

-- `except NotFoundError: continue`
abbrev pub skip_missing : Error → Action World ℕ
skip_missing not_found = pure 0
skip_missing e = raise e

module _ (rt : Runtime) (svc : Service) where
  unfoldable pub cancel : String → String → Action World (Unit {0})
  unfolding Sessions.get Sessions.delete cleanup_chunks
  cancel id actor =
      on_error
        (λ e.
          audited rt svc
            (upload_entry "upload.cancel" (some id) actor (outcome_of e) (some (code e))))
        (do
          session ← Sessions.get id
          lift (check_owner svc.settings session.owner)
          cleanup_chunks session.id session.total_size
          unless_missing (Sessions.delete session.id)
          upload_ok rt svc "upload.cancel" id session.owner)

  -- One round of the loop of `cleanup_expired`: what is added to the count.
  unfoldable pub remove_stale : UploadSessionData → Action World ℕ
  unfolding Sessions.delete cleanup_chunks
  remove_stale session = do
    cleanup_chunks session.id session.total_size
    λ w. handle (Sessions.delete session.id w) (λ _. pure 1) skip_missing

  unfoldable pub remove_all : List UploadSessionData → Action World ℕ
  remove_all [] = pure 0
  remove_all (session ∷ sessions) = do
    one ← remove_stale session
    more ← remove_all sessions
    pure (one + more)

  unfoldable pub cleanup_expired : String → ℕ → Action World ℕ
  unfolding utcnow Sessions.list_expired remove_all
  cleanup_expired actor limit = do
    now ← utcnow rt
    stale ← Sessions.list_expired now limit
    count ← remove_all stale
    audited rt svc (upload_entry "upload.cleanup" none actor "ok" none)
    pure count
