-- ===== src/Efi.antt =====
-- EFI_STATUS, as MdePkg defines it: a success, a warning or an error code. `error` is the class of
-- values for which `EFI_ERROR` holds.
use uefi_tools_pkg.Base.{ℕ, Bool, true, false}

-- The codes that the package's tools name; `other` is any further error code.
pub data ErrorCode : Type 0 where
  invalid_parameter unsupported device_error out_of_resources not_found : ErrorCode
  aborted crc_error compromised_data : ErrorCode
  buffer_too_small bad_buffer_size volume_full security_violation : ErrorCode
  other : ℕ → ErrorCode

pub data Status : Type 0 where
  success : Status
  warning : ℕ → Status
  error : ErrorCode → Status

abbrev pub efi_error : Status → Bool
efi_error (error e) = true
efi_error _ = false

abbrev pub is_success : Status → Bool
is_success success = true
is_success _ = false

abbrev pub is_not_found : Status → Bool
is_not_found (error not_found) = true
is_not_found _ = false

abbrev pub is_aborted : Status → Bool
is_aborted (error aborted) = true
is_aborted _ = false

abbrev pub is_too_small : Status → Bool
is_too_small (error buffer_too_small) = true
is_too_small _ = false
