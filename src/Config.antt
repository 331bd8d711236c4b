-- ===== src/Config.antt =====
-- The validators of `Settings` in src/rescs/config.py, on the values that were read. A value that one
-- of them refuses is a `ValueError`, and the program does not start.
use Prim.Native.String
use rescs.Prelude.{String, ◌==◌, string_eq, ℕ, Bool, ◌&&◌, ◌||◌, if◌then◌else◌, leb, ltb, is_empty}
use rescs.Prelude.Int.{ℤ, pos, negsuc}
use rescs.Errors.{Result, ok, err, value_error}
use rescs.Services.Common.{Settings}
use rescs.RateLimit.{Limits}

-- `_validate_api_key`
unfoldable pub validate_api_key : String → Result String
validate_api_key value =
    if is_empty value || ltb (String.count value) 16 then err value_error else ok value

-- `_validate_environment`
unfoldable pub validate_environment : String → Result String
validate_environment value =
    if value == "development" || value == "test" || value == "production"
    then ok value
    else err value_error

-- `_validate_non_negative` and `_validate_rate`, with the number that is left.
unfoldable pub validate_non_negative : ℤ → Result ℕ
validate_non_negative (pos n) = ok n
validate_non_negative (negsuc _) = err value_error

-- `_validate_backend`
unfoldable pub validate_backend : String → Result String
validate_backend value =
    if value == "local" || value == "s3" || value == "memory" then ok value else err value_error

-- `_validate_bulk_batch`
unfoldable pub validate_bulk_batch : ℤ → Result ℕ
validate_bulk_batch (negsuc _) = err value_error
validate_bulk_batch (pos n) = if leb 1 n && leb n 1000 then ok n else err value_error

-- The values that were read and have a validator, and those that the model reads.
pub record Values : Type 0 where
  pub environment : String
  pub api_key : String
  pub api_key_owner : String
  pub storage_backend : String
  pub max_records_per_owner : ℤ
  pub max_files_per_owner : ℤ
  pub max_bytes_per_owner : ℤ
  pub max_file_size : ℤ
  pub max_metadata_bytes : ℤ
  pub max_bulk_batch : ℤ
  pub audit_retention_days : ℤ
  pub max_ttl_seconds : ℤ
  pub streaming_threshold_bytes : ℤ
  pub rate_limit_enabled : Bool
  pub rate_limit_general_per_minute : ℤ
  pub rate_limit_writes_per_minute : ℤ
  pub rate_limit_uploads_per_minute : ℤ

-- What the program reads of them.
pub record Config : Type 0 where
  pub settings : Settings
  pub limits : Limits
  pub audit_retention_days : ℕ
  pub streaming_threshold_bytes : ℕ

-- `if r: …`: the value, or the error.
abbrev then_with : {A B : Type 0} → Result A → (A → Result B) → Result B
then_with (ok a) k = k a
then_with (err e) k = err e

unfoldable pub read_settings : Values → Result Settings
unfolding validate_non_negative validate_bulk_batch
read_settings v = then_with (validate_non_negative v.max_records_per_owner) λ records.
    then_with (validate_non_negative v.max_files_per_owner) λ files.
      then_with (validate_non_negative v.max_bytes_per_owner) λ bytes.
        then_with (validate_non_negative v.max_file_size) λ file_size.
          then_with (validate_non_negative v.max_metadata_bytes) λ metadata.
            then_with (validate_non_negative v.max_ttl_seconds) λ ttl.
              then_with (validate_bulk_batch v.max_bulk_batch) λ batch. ok (record {
                api_key_owner = v.api_key_owner;
                max_records_per_owner = records;
                max_files_per_owner = files;
                max_bytes_per_owner = bytes;
                max_file_size = file_size;
                max_metadata_bytes = metadata;
                max_bulk_batch = batch;
                max_ttl_seconds = ttl;
              })

unfoldable pub read_limits : Values → Result Limits
unfolding validate_non_negative
read_limits v = then_with (validate_non_negative v.rate_limit_general_per_minute) λ general.
    then_with (validate_non_negative v.rate_limit_writes_per_minute) λ writes.
      then_with (validate_non_negative v.rate_limit_uploads_per_minute) λ uploads. ok (record {
        enabled = v.rate_limit_enabled;
        general_per_minute = general;
        writes_per_minute = writes;
        uploads_per_minute = uploads;
      })

-- `Settings(…)`
unfoldable pub read_config : Values → Result Config
unfolding read_settings read_limits validate_api_key validate_environment validate_backend
read_config v = then_with (validate_environment v.environment) λ _.
    then_with (validate_api_key v.api_key) λ _. then_with (validate_backend v.storage_backend) λ _.
      then_with (read_settings v) λ settings. then_with (read_limits v) λ limits.
        then_with (validate_non_negative v.audit_retention_days) λ retention.
          then_with (validate_non_negative v.streaming_threshold_bytes) λ threshold. ok (record {
            settings = settings;
            limits = limits;
            audit_retention_days = retention;
            streaming_threshold_bytes = threshold;
          })
