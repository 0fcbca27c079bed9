-- ===== src/RebootTest/State/Codec.antt =====
-- Applications/RebootTest/RebootTest.c: the 24 bytes of a state, and the range tests of `LoadState`.
use uefi_tools_pkg.Base.{◌<◌, ◌≤◌, ◌^◌, ◌≡◌, ◌⊎◌, refl, false, arith, length}
use uefi_tools_pkg.RebootTest.State.{
  RebootState, encode, decode, is_out_of_range, max_count, max_delay,
}

-- every field fits its C type
pub record FitsFields (s : RebootState) : Type 0 where
  pub signature_fits : s.signature < 2 ^ 32
  pub version_fits : s.version < 2 ^ 16
  pub active_fits : s.active < 2 ^ 8
  pub type_fits : s.reset_type < 2 ^ 8
  pub target_fits : s.target_resets < 2 ^ 32
  pub completed_fits : s.completed_resets < 2 ^ 32
  pub delay_fits : s.delay_seconds < 2 ^ 32
  pub crc_fits : s.crc32 < 2 ^ 32

-- A state whose fields fit their C types is read back from its bytes unchanged.
pub decode-encode : (s : RebootState) → FitsFields s → decode (encode s) ≡ s
unfolding encode decode
decode-encode s f = ground arith

pub length-encode : (s : RebootState) → length (encode s) ≡ 24
unfolding encode
length-encode s = refl

-- the ranges that the program accepts
pub record InRange (s : RebootState) : Type 0 where
  pub some_target : 1 ≤ s.target_resets
  pub few_targets : s.target_resets ≤ max_count
  pub not_beyond : s.completed_resets ≤ s.target_resets
  pub unfinished : s.active ≡ 1 → s.completed_resets < s.target_resets
  pub some_delay : 1 ≤ s.delay_seconds
  pub short_delay : s.delay_seconds ≤ max_delay
  pub truth_value : (s.active ≡ 0) ⊎ (s.active ≡ 1)
  pub known_type : (s.reset_type ≡ 0) ⊎ (s.reset_type ≡ 1)

pub is_out_of_range-InRange : (s : RebootState) → is_out_of_range s ≡ false → InRange s
unfolding is_out_of_range
is_out_of_range-InRange s h = ground arith

pub InRange-is_out_of_range : (s : RebootState) → InRange s → is_out_of_range s ≡ false
unfolding is_out_of_range
InRange-is_out_of_range s r = ground arith
