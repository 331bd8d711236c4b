-- ===== src/Memory/Sessions.antt =====
-- `InMemoryUploadSessionRepository` of src/rescs/repositories/memory.py. A session that is handed
-- out is the stored object: the service writes each change of it back by `update`.
use rescs.Prelude.{
  String, ◌==◌, string_eq, nat_eq, ℕ, Bool, true, false, ◌&&◌, ◌||◌, none, some, List, take, filter,
  ltb, leb, if◌then◌else◌, text_leb,
}
use rescs.Errors.{ok, err, conflict, not_found}
use rescs.Action.{Action, pure, gets, ◌>>=◌}
use rescs.Dict
use rescs.Dict.{values, contains, set, pop}
use rescs.Domain.{UploadSessionData, Status, active, finalizing, finalized, cancelled, expired}
use rescs.Memory.Store.{sort}
use rescs.World.{Runtime, World, utcnow}

abbrev pub status_beq : Status → Status → Bool
status_beq active active = true
status_beq finalizing finalizing = true
status_beq finalized finalized = true
status_beq cancelled cancelled = true
status_beq expired expired = true
status_beq _ _ = false

unfoldable pub create : UploadSessionData → Action World UploadSessionData
create session w =
    if contains session.id w.sessions
    then (err conflict, w)
    else (ok session, record w { sessions = set session.id session w.sessions })

unfoldable pub get : String → Action World UploadSessionData
get id w = elim (Dict.get id w.sessions) [ none ↦ (err not_found, w) | some s ↦ (ok s, w) ]

unfoldable pub update : UploadSessionData → Action World UploadSessionData
update session w =
    if contains session.id w.sessions
    then (ok session, record w { sessions = set session.id session w.sessions })
    else (err not_found, w)

unfoldable pub delete : String → Action World (Unit {0})
delete id w =
    if contains id w.sessions
    then (ok tt, record w { sessions = pop id w.sessions })
    else (err not_found, w)

-- The sessions that `cleanup_expired` takes: the active ones whose time is over.
unfoldable pub is_stale : ℕ → UploadSessionData → Bool
is_stale moment s = leb s.expires_at moment && status_beq s.status active

abbrev pub by_expiry : UploadSessionData → UploadSessionData → Bool
by_expiry a b =
    ltb a.expires_at b.expires_at || (a.expires_at == b.expires_at && text_leb a.id b.id)

unfoldable pub list_expired : ℕ → ℕ → Action World (List UploadSessionData)
unfolding is_stale
list_expired before limit =
    gets λ w. take limit (sort by_expiry (filter (is_stale before) (values w.sessions)))

module _ (rt : Runtime) where
  -- The write of `compare_and_set_status`.
  unfoldable pub set_status : UploadSessionData → Status → Action World Bool
  unfolding utcnow
  set_status current new = do
    now ← utcnow rt
    λ w. (
      ok true,
      record w {
        sessions = set current.id (record current { status = new; updated_at = now }) w.sessions;
      },
    )

  unfoldable pub compare_and_set_status : String → Status → Status → Action World Bool
  unfolding get set_status
  compare_and_set_status id expect new = do
    current ← get id
    if status_beq current.status expect then set_status current new else pure false
