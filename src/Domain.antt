-- ===== src/Domain.antt =====
-- src/rescs/domain.py: the records that the storage layers exchange, and their expiry tests. A
-- stored time is a UTC instant in microseconds: every stored time comes from `utcnow` or through
-- `ensure_utc`. The keys of a JSON object are kept in the order in which they were written.
pub mod Tags
use rescs.Prelude.{String, ℕ, ◌+◌, Bool, false, not, ◌&&◌, Option, none, some, List, leb, is_some}

-- A JSON value: a record's `value` and `metadata`. A number is its literal.
mutual
  pub data Json : Type 0 where
    null : Json
    boolean : Bool → Json
    number : String → Json
    text : String → Json
    array : Items → Json
    object : Fields → Json

  pub data Items : Type 0 where
    end_items : Items
    item : Json → Items → Items

  pub data Fields : Type 0 where
    end_fields : Fields
    field : String → Json → Fields → Fields

-- A Python `datetime`: with no time zone, the wall clock that it shows; with one, its UTC instant.
pub data Datetime : Type 0 where
  naive : ℕ → Datetime
  aware : ℕ → Datetime

-- The UTC instant of a time; a naive one is taken for UTC.
unfoldable pub ensure_utc : Datetime → ℕ
ensure_utc (naive wall) = wall
ensure_utc (aware instant) = instant

pub record RecordData : Type 0 where
  pub id : String
  pub namespace : String
  pub key : String
  pub value : Json
  pub metadata : Json
  pub owner : String
  pub version : ℕ
  pub idempotency_key : Option String
  pub etag : String
  pub created_at : ℕ
  pub updated_at : ℕ
  pub tags : List String
  pub expires_at : Option ℕ
  pub deleted_at : Option ℕ
  pub deleted_by : Option String

pub record FileObjectData : Type 0 where
  pub id : String
  pub filename : String
  pub mime_type : String
  pub size : ℕ
  pub storage_path : String
  pub sha256 : String
  pub metadata : Json
  pub owner : String
  pub version : ℕ
  pub idempotency_key : Option String
  pub etag : String
  pub created_at : ℕ
  pub updated_at : ℕ
  pub tags : List String
  pub expires_at : Option ℕ
  pub deleted_at : Option ℕ
  pub deleted_by : Option String

-- `expires_at is not None and expires_at <= at`
abbrev pub expired_at : Option ℕ → ℕ → Bool
expired_at none now = false
expired_at (some moment) now = leb moment now

-- `is_expired` of both classes, at a given instant.
unfoldable pub is_expired : RecordData → ℕ → Bool
is_expired r now = expired_at r.expires_at now

unfoldable pub file_is_expired : FileObjectData → ℕ → Bool
file_is_expired f now = expired_at f.expires_at now

unfoldable pub is_deleted : RecordData → Bool
is_deleted r = is_some r.deleted_at

pub record Page {ℓ} (A : Type ℓ) : Type ℓ where
  pub items : List A
  pub total : ℕ
  pub limit : ℕ
  pub offset : ℕ

pub record AuditData : Type 0 where
  pub id : String
  pub timestamp : ℕ
  pub operation : String
  pub resource_type : String
  pub resource_id : Option String
  pub owner : String
  pub request_id : Option String
  pub outcome : String
  pub error_code : Option String

-- The status of an upload session; the comment of the class does not list `finalizing`.
pub data Status : Type 0 where
  active finalizing finalized cancelled expired : Status

pub record UploadSessionData : Type 0 where
  pub id : String
  pub owner : String
  pub filename : String
  pub content_type : String
  pub total_size : ℕ
  pub received_bytes : ℕ
  pub chunk_size : ℕ
  pub status : Status
  pub checksum : Option String
  pub created_at : ℕ
  pub updated_at : ℕ
  pub expires_at : ℕ
  pub metadata : Json
  pub tags : List String

unfoldable pub session_is_expired : UploadSessionData → ℕ → Bool
session_is_expired s now = leb s.expires_at now
