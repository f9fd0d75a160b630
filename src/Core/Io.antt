-- ===== src/Core/Io.antt =====
-- What src/core takes from asio and from the DLMS/COSEM library: error codes and results.
use dlms_access_point.Prelude.{ℕ, Bool, true, false}

-- `asio::error_code`, by the values that src/core compares it with; `none` is no error.
pub data ErrorCode : Type 0 where
  no_error eof connection_reset operation_aborted bad_descriptor : ErrorCode
  other_error : ℕ → ErrorCode

-- `ERROR_TYPE`: SUCCESSFUL, `!SUCCESSFUL` and ERR_TIMEOUT.
pub data Status : Type 0 where
  successful failed timeout : Status

-- The conversion of an error code to bool.
unfoldable pub is_error : ErrorCode → Bool
is_error no_error = false
is_error eof = true
is_error connection_reset = true
is_error operation_aborted = true
is_error bad_descriptor = true
is_error (other_error n) = true

unfoldable pub is_eof : ErrorCode → Bool
is_eof no_error = false
is_eof eof = true
is_eof connection_reset = false
is_eof operation_aborted = false
is_eof bad_descriptor = false
is_eof (other_error n) = false

unfoldable pub is_connection_reset : ErrorCode → Bool
is_connection_reset no_error = false
is_connection_reset eof = false
is_connection_reset connection_reset = true
is_connection_reset operation_aborted = false
is_connection_reset bad_descriptor = false
is_connection_reset (other_error n) = false

unfoldable pub is_operation_aborted : ErrorCode → Bool
is_operation_aborted no_error = false
is_operation_aborted eof = false
is_operation_aborted connection_reset = false
is_operation_aborted operation_aborted = true
is_operation_aborted bad_descriptor = false
is_operation_aborted (other_error n) = false

unfoldable pub is_bad_descriptor : ErrorCode → Bool
is_bad_descriptor no_error = false
is_bad_descriptor eof = false
is_bad_descriptor connection_reset = false
is_bad_descriptor operation_aborted = false
is_bad_descriptor bad_descriptor = true
is_bad_descriptor (other_error n) = false
