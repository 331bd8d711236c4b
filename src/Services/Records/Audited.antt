-- ===== src/Services/Records/Audited.antt =====
-- What the operations of `RecordService` share: the etag test, and the audit event that each leaves.
use rescs.Prelude.{String, ◌==◌, string_eq, nat_eq, ℕ, not, Option, none, some}
use rescs.Errors.{Error, code, precondition_failed}
use rescs.Action.{Action, pure, raise, handle, raise_if}
use rescs.Domain.{RecordData}
use rescs.World.{Runtime, World}
use rescs.Services.Common.{Settings, Service, LogEntry, audited, outcome_of, on_error}

abbrev pub max_records : Option Settings → ℕ
max_records none = 0
max_records (some s) = s.max_records_per_owner

-- `_check_etag`
abbrev pub check_etag : RecordData → Option String → Action World (Unit {0})
check_etag existing none = pure tt
check_etag existing (some expected) = raise_if (not (existing.etag == expected)) precondition_failed

abbrev pub id_of : Option RecordData → Option String
id_of none = none
id_of (some r) = some r.id

abbrev pub owner_of : Option RecordData → String → String
owner_of none owner = owner
owner_of (some r) owner = r.owner

-- The entry of `_audited` for a success and for an error.
abbrev pub success_entry : String → RecordData → LogEntry
success_entry operation r = record {
  operation = operation;
  resource_type = "record";
  resource_id = some r.id;
  owner = r.owner;
  outcome = "ok";
  error_code = none;
}

abbrev pub error_entry : String → Option RecordData → String → Error → LogEntry
error_entry operation target owner e = record {
  operation = operation;
  resource_type = "record";
  resource_id = id_of target;
  owner = owner_of target owner;
  outcome = outcome_of e;
  error_code = some (code e);
}

module _ (rt : Runtime) (svc : Service) where
  abbrev pub audited_ok : String → RecordData → Action World (Unit {0})
  audited_ok operation r = audited rt svc (success_entry operation r)

  abbrev pub audited_error : String → Option RecordData → String → Error → Action World (Unit {0})
  audited_error operation target owner e = audited rt svc (error_entry operation target owner e)

  -- `target = …` inside the `try`: from there on an error is logged with the record.
  abbrev pub with_target :
      {A : Type 0}
      → String
      → Action World RecordData
      → (RecordData → Action World A)
      → Action World A
  with_target operation m rest w =
      handle (m w)
        (λ target. on_error (audited_error operation (some target) "system") (rest target))
        (λ e. on_error (audited_error operation none "system") (raise e))
