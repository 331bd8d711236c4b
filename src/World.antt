-- ===== src/World.antt =====
-- The objects that the services share, and what the program takes from its surroundings.
use rescs.Prelude.{
  Equality, Bool, true, false, ◌==◌, ◌&&◌, ◌≡◌, ◌↔◌, string_eq, nat_eq, arith, String, ℕ, ◌+◌,
  Option, List,
}
use rescs.Errors.{ok}
use rescs.Action.{Action}
use rescs.Dict.{Dict}
use rescs.Domain.{Json, RecordData, FileObjectData, AuditData, UploadSessionData}
use rescs.Memory.Store.{Store}

-- The clock, `uuid`, `json` and `hashlib`, which are not part of the program.
pub record Runtime : Type 0 where
  -- the n-th reading of `datetime.now(UTC)`, in microseconds
  pub clock : ℕ → ℕ
  -- the n-th `str(uuid.uuid4())`
  pub uuid : ℕ → String
  -- `len(json.dumps(metadata, default=str))`
  pub dumped_size : Json → ℕ
  -- `json.dumps([value, metadata], sort_keys=True, default=str)`
  pub dumps : Json → Json → String
  -- the canonical form of `content_etag`: `json.dumps([value, metadata, tags], …)`
  pub canonical : Json → Json → List String → String
  -- `hashlib.sha256(text.encode("utf-8")).hexdigest()`
  pub sha256_text : String → String
  -- `hashlib.sha256(data).hexdigest()`
  pub sha256 : List ℕ → String
  -- `str` of an integer
  pub decimal : ℕ → String
  -- `str.lower`
  pub lower : String → String
  -- `request_id_var.get()`
  pub request_id : Option String

-- The id of a blob. A chunk's, `f"{session_id}__chunk__{offset:020d}"` in `_chunk_key`, is kept as
-- the session and the offset that it spells.
pub data BlobKey : Type 0 where
  object : String → BlobKey
  chunk : String → ℕ → BlobKey

abbrev pub key_beq : BlobKey → BlobKey → Bool
key_beq (object a) (object b) = a == b
key_beq (chunk a m) (chunk b n) = a == b && m == n
key_beq _ _ = false

pub key_beq_iff : (a b : BlobKey) → (key_beq a b ≡ true) ↔ (a ≡ b)
key_beq_iff (object a) (object b) =
    (λ h. ground (arith, string_eq.beq_iff a b), λ h. ground (arith, string_eq.beq_iff a b))
key_beq_iff (object a) (chunk b n) = (λ h. ground arith, λ h. ground arith)
key_beq_iff (chunk a m) (object b) = (λ h. ground arith, λ h. ground arith)
key_beq_iff (chunk a m) (chunk b n) =
    (λ h. ground (arith, string_eq.beq_iff a b), λ h. ground (arith, string_eq.beq_iff a b))

instance abbrev pub blob_key_eq : Equality BlobKey
blob_key_eq = record { beq = key_beq; beq_iff = key_beq_iff }

-- The state of the process: the repositories, the object store, and how often the clock has been
-- read and an id made.
pub record World : Type 0 where
  pub records : Store RecordData
  pub files : Store FileObjectData
  pub events : Dict String AuditData
  pub sessions : Dict String UploadSessionData
  pub blobs : Dict BlobKey (List ℕ)
  pub ticks : ℕ
  pub uuids : ℕ

module _ (rt : Runtime) where
  -- `utcnow()`
  unfoldable pub utcnow : Action World ℕ
  utcnow w = (ok (rt.clock w.ticks), record w { ticks = w.ticks + 1 })

  -- `str(uuid.uuid4())`
  unfoldable pub uuid4 : Action World String
  uuid4 w = (ok (rt.uuid w.uuids), record w { uuids = w.uuids + 1 })

-- A method of the store of records.
unfoldable pub on_records : {A : Type 0} → Action (Store RecordData) A → Action World A
on_records m w = let (r, s) = m w.records in (r, record w { records = s })

unfoldable pub on_files : {A : Type 0} → Action (Store FileObjectData) A → Action World A
on_files m w = let (r, s) = m w.files in (r, record w { files = s })
