-- ===== src/Services/Records/Payload.antt =====
-- The payloads of src/rescs/schemas/record.py that the service takes.
use rescs.Prelude.{String, Option, List}
use rescs.Prelude.Int.{ℤ}
use rescs.Domain.{Json, Datetime}

pub record RecordCreate : Type 0 where
  pub namespace : String
  pub key : String
  pub value : Json
  pub metadata : Json
  pub owner : String
  pub idempotency_key : Option String
  pub tags : List String
  pub expires_at : Option Datetime
  pub ttl_seconds : Option ℤ

pub record RecordUpdate : Type 0 where
  pub value : Option Json
  pub metadata : Option Json
  pub namespace : Option String
  pub key : Option String
  pub tags : Option (List String)
  pub expires_at : Option Datetime
  pub ttl_seconds : Option ℤ
