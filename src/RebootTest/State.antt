-- ===== src/RebootTest/State.antt =====
-- Applications/RebootTest/RebootTest.c: `REBOOT_TEST_STATE`, its constants, and its bytes. The
-- struct is packed and UEFI is little-endian, so the file holds 24 bytes in the order of the fields.
pub mod Codec
use uefi_tools_pkg.Base.{
  ℕ, ◌+◌, ◌*◌, ◌/◌, ◌%◌, Bool, ◌&&◌, ◌||◌, not, List, [], ◌∷◌, ltb, leb, ◌==◌, get_or,
}

abbrev pub state_signature : ℕ
state_signature = 0x31544252

abbrev pub state_version : ℕ
state_version = 1

abbrev pub default_delay : ℕ
default_delay = 3

abbrev pub max_delay : ℕ
max_delay = 60

abbrev pub max_count : ℕ
max_count = 1000000

abbrev pub state_size : ℕ
state_size = 24

-- `EfiResetCold` and `EfiResetWarm`, as UefiMultiPhase.h numbers them
abbrev pub reset_cold : ℕ
reset_cold = 0

abbrev pub reset_warm : ℕ
reset_warm = 1

-- `active` is a BOOLEAN, a byte: a loaded file may hold any value.
pub record RebootState : Type 0 where
  pub signature : ℕ
  pub version : ℕ
  pub active : ℕ
  pub reset_type : ℕ
  pub target_resets : ℕ
  pub completed_resets : ℕ
  pub delay_seconds : ℕ
  pub crc32 : ℕ

-- the state after `ZeroMem`; it also stands for a local that was not written yet
abbrev pub zero_state : RebootState
zero_state = record {
  signature = 0;
  version = 0;
  active = 0;
  reset_type = 0;
  target_resets = 0;
  completed_resets = 0;
  delay_seconds = 0;
  crc32 = 0;
}

abbrev pub Bytes : Type 0
Bytes = List ℕ

abbrev pub byte_at : Bytes → ℕ → ℕ
byte_at bs i = get_or bs i 0

abbrev pub le16_at : Bytes → ℕ → ℕ
le16_at bs i = byte_at bs i + 256 * byte_at bs (i + 1)

abbrev pub le32_at : Bytes → ℕ → ℕ
le32_at bs i =
    byte_at bs i
    + 256 * byte_at bs (i + 1)
    + 65536 * byte_at bs (i + 2)
    + 16777216 * byte_at bs (i + 3)

abbrev pub le16_onto : ℕ → Bytes → Bytes
le16_onto x rest = (x % 256) ∷ (x / 256 % 256) ∷ rest

abbrev pub le32_onto : ℕ → Bytes → Bytes
le32_onto x rest = (x % 256) ∷ (x / 256 % 256) ∷ (x / 65536 % 256) ∷ (x / 16777216 % 256) ∷ rest

-- the bytes of the struct, and the struct that a buffer of bytes holds
unfoldable pub encode : RebootState → Bytes
encode s = le32_onto s.signature (
    le16_onto s.version (
      (s.active % 256)
      ∷ (s.reset_type % 256)
      ∷ le32_onto s.target_resets
          (le32_onto s.completed_resets (le32_onto s.delay_seconds (le32_onto s.crc32 [])))))

unfoldable pub decode : Bytes → RebootState
decode bs = record {
  signature = le32_at bs 0;
  version = le16_at bs 4;
  active = byte_at bs 6;
  reset_type = byte_at bs 7;
  target_resets = le32_at bs 8;
  completed_resets = le32_at bs 12;
  delay_seconds = le32_at bs 16;
  crc32 = le32_at bs 20;
}

-- the header and range tests of `LoadState`
unfoldable pub is_other_format : RebootState → Bool
is_other_format s = not (s.signature == state_signature) || not (s.version == state_version)

-- `s.active` stands as a truth value: any byte but zero
unfoldable pub is_out_of_range : RebootState → Bool
is_out_of_range s =
    s.target_resets == 0
    || ltb max_count s.target_resets
    || ltb s.target_resets s.completed_resets
    || not (s.active == 0) && leb s.target_resets s.completed_resets
    || s.delay_seconds == 0
    || ltb max_delay s.delay_seconds
    || not (s.active == 0) && not (s.active == 1)
    || not (s.reset_type == reset_warm) && not (s.reset_type == reset_cold)
