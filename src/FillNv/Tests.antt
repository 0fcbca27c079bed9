-- ===== src/FillNv/Tests.antt =====
-- Runs of Applications/FillNvVars/FillNvVars.c on a small variable store, and its theorem there.
use uefi_tools_pkg.Base.{
  ℕ, ◌+◌, ◌-◌, ◌<◌, ◌≡◌, refl, ◌⊎◌, Bool, true, false, ◌&&◌, ◌==◌, by_test, ltb, if◌then◌else◌,
  arith,
}
use uefi_tools_pkg.Efi.{Status, success, error, out_of_resources}
use uefi_tools_pkg.FillNv.Fill.{Result, reset_cold, fill_size, fill_sizes, uefi_main}
use uefi_tools_pkg.FillNv.Full.{StoreLaws, TellsOther, uefi_main-full}

-- a store of the variables that are there and the number of free bytes, with headers of 60 bytes
abbrev Store : Type 0
Store = (ℕ → ℕ → Bool) × ℕ

abbrev with_variable : ℕ → ℕ → (ℕ → ℕ → Bool) → ℕ → ℕ → Bool
with_variable size index there s i = if size == s && index == i then true else there s i

-- a variable that is there is written again in its place
abbrev store : ℕ → ℕ → Store → Status × Store
store size index (there, free) =
    if there size index
    then (success, (there, free))
    else if ltb free (size + 60)
    then (error out_of_resources, (there, free))
    else (success, (with_variable size index there, free - (size + 60)))

abbrev is_there : ℕ → ℕ → Store → Bool
is_there size index (there, free) = there size index

abbrev room : Store → ℕ
room (there, free) = free

store-others :
    (size index s i : ℕ) (w : Store)
    → (size == s && index == i) ≡ false
    → is_there s i (store size index w).1 ≡ is_there s i w
store-others size index s i (there, free) h =
    by_test (λ (r : Status × Store). is_there s i r.1 ≡ there s i) (there size index) (λ _. refl)
      (λ _.
        by_test (λ (r : Status × Store). is_there s i r.1 ≡ there s i) (ltb free (size + 60))
          (λ _. refl) (λ _. rw h refl))

store-StoreLaws : StoreLaws store is_there room 60
store-StoreLaws = record {
  takes = λ size index (there, free) fresh h. ground (arith, fresh, h);
  gives_nothing = λ size index (there, free) h. ground (arith, h);
  no_room = λ size index (there, free) h. ground (arith, h);
  others = store-others;
}

abbrev empty : ℕ → Store
empty free = (λ s i. false, free)

result_of : ℕ → Result × ℕ
unfolding uefi_main fill_sizes fill_size
result_of free = let r = uefi_main store true (empty free) in (r.0, room r.1)

result_of-small : result_of 3000 ≡ (reset_cold, 72)
unfolding result_of
result_of-small = refl

uefi_main-full_example :
    ((uefi_main store true (empty 3000)).0 ≡ reset_cold)
    × (TellsOther (uefi_main store true (empty 3000)).2
        ⊎ (room (uefi_main store true (empty 3000)).1 < 32 + 60))
uefi_main-full_example = uefi_main-full store-StoreLaws (empty 3000) (λ s i. refl) (omega arith)
