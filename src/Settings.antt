-- ===== src/Settings.antt =====
-- app/core/settings.py: the settings that the modelled services read, and their validation.
use fastapi_shipment_import.Base.{
  ℕ, Bool, true, not, ◌&&◌, List, [], ◌∷◌, ltb, leb, ◌==◌, length, any,
}

pub record Settings : Type 0 where
  pub upload_read_chunk_size_bytes : ℕ
  pub max_upload_size_bytes : ℕ
  pub processing_row_chunk_size : ℕ
  pub outbox_batch_size : ℕ
  pub outbox_max_attempts : ℕ
  pub outbox_stale_timeout_seconds : ℕ
  pub outbox_poll_interval_seconds : ℕ
  pub outbox_retry_delays_seconds : List ℕ
  pub import_max_attempts : ℕ
  pub processing_stale_timeout_seconds : ℕ
  pub watchdog_interval_seconds : ℕ
  pub startup_recovery_batch_size : ℕ
  pub watchdog_batch_size : ℕ
  pub default_page_size : ℕ
  pub max_page_size : ℕ

-- `validate_positive_integers`; a negative setting is refused alike, and is not represented.
abbrev pub positive : ℕ → Bool
positive n = ltb 0 n

unfoldable pub strictly_increasing : List ℕ → Bool
strictly_increasing [] = true
strictly_increasing (a ∷ []) = true
strictly_increasing (a ∷ b ∷ rest) = ltb a b && strictly_increasing (b ∷ rest)

-- A sorted tuple with no value twice is one that rises strictly.
unfoldable pub validate_retry_delays : List ℕ → Bool
unfolding strictly_increasing
validate_retry_delays delays =
    (length delays == 4) && not (any (λ d. d == 0) delays) && strictly_increasing delays

unfoldable pub validate_runtime_relationships : Settings → Bool
validate_runtime_relationships s =
    leb s.upload_read_chunk_size_bytes s.max_upload_size_bytes
    && leb s.default_page_size s.max_page_size

-- What the validators together accept.
unfoldable pub validated : Settings → Bool
unfolding validate_retry_delays validate_runtime_relationships
validated s =
    positive s.upload_read_chunk_size_bytes
    && positive s.max_upload_size_bytes
    && positive s.processing_row_chunk_size
    && positive s.outbox_batch_size
    && positive s.outbox_max_attempts
    && positive s.outbox_stale_timeout_seconds
    && positive s.outbox_poll_interval_seconds
    && positive s.import_max_attempts
    && positive s.processing_stale_timeout_seconds
    && positive s.watchdog_interval_seconds
    && positive s.startup_recovery_batch_size
    && positive s.watchdog_batch_size
    && positive s.default_page_size
    && positive s.max_page_size
    && validate_retry_delays s.outbox_retry_delays_seconds
    && validate_runtime_relationships s
