-- ===== src/FillNv/Full.antt =====
-- Applications/FillNvVars/FillNvVars.c: the store at the reset.
use uefi_tools_pkg.Base.{
  ℕ, zero, suc, ◌+◌, ◌*◌, ◌≤◌, ◌<◌, ◌≡◌, refl, ◌∙◌, Bool, true, false, ◌&&◌, List, [], ◌∷◌, ◌++◌,
  ◌==◌, Bool-cases, ◌⊎◌, inl, inr, arith,
}
use uefi_tools_pkg.Efi.{Status, error, out_of_resources, efi_error}
use uefi_tools_pkg.FillNv.Fill.{
  Message, stopped, filling, resetting, allocation_failed, max_count, fill_size, fill_sizes,
  reset_cold, uefi_main,
}

abbrev pub is_out_of_resources : Status → Bool
is_out_of_resources (error out_of_resources) = true
is_out_of_resources _ = false

-- What SetVariable does to the variables of the tool and to the room in the store. A new variable takes
-- its size and the header of the store; a write that fails gives nothing back; OUT_OF_RESOURCES is
-- returned where the storage does not hold the variable; and a write leaves other variables alone.
-- Nothing is said of the other errors, and nothing of a write to a variable that is there.
pub record StoreLaws {W : Type 0} (set_variable : ℕ → ℕ → W → Status × W)
    (exists : ℕ → ℕ → W → Bool) (free : W → ℕ) (header : ℕ) : Type 0 where
  pub takes :
      (size index : ℕ) (w : W)
      → exists size index w ≡ false
      → efi_error (set_variable size index w).0 ≡ false
      → free (set_variable size index w).1 + (size + header) ≤ free w
  pub gives_nothing :
      (size index : ℕ) (w : W)
      → efi_error (set_variable size index w).0 ≡ true
      → free (set_variable size index w).1 ≤ free w
  pub no_room :
      (size index : ℕ) (w : W)
      → is_out_of_resources (set_variable size index w).0 ≡ true
      → free w < size + header
  pub others :
      (size index s i : ℕ) (w : W)
      → (size == s && index == i) ≡ false
      → exists s i (set_variable size index w).1 ≡ exists s i w

-- the output tells of a write that failed with another error than OUT_OF_RESOURCES
abbrev pub TellsOther : List Message → Type 0
TellsOther [] = ⊥
TellsOther (stopped size index status ∷ rest) =
    (is_out_of_resources status ≡ false) ⊎ TellsOther rest
TellsOther (allocation_failed ∷ rest) = TellsOther rest
TellsOther (filling ∷ rest) = TellsOther rest
TellsOther (resetting ∷ rest) = TellsOther rest

TellsOther-left : (l k : List Message) → TellsOther l → TellsOther (l ++ k)
TellsOther-left [] k h = absurd h
TellsOther-left (stopped size index status ∷ l) k (inl h) = inl h
TellsOther-left (stopped size index status ∷ l) k (inr h) = inr (TellsOther-left l k h)
TellsOther-left (allocation_failed ∷ l) k h = TellsOther-left l k h
TellsOther-left (filling ∷ l) k h = TellsOther-left l k h
TellsOther-left (resetting ∷ l) k h = TellsOther-left l k h

TellsOther-right : (l k : List Message) → TellsOther k → TellsOther (l ++ k)
TellsOther-right [] k h = h
TellsOther-right (stopped size index status ∷ l) k h = inr (TellsOther-right l k h)
TellsOther-right (allocation_failed ∷ l) k h = TellsOther-right l k h
TellsOther-right (filling ∷ l) k h = TellsOther-right l k h
TellsOther-right (resetting ∷ l) k h = TellsOther-right l k h

-- each size is less than the one before it and at least half of it
abbrev Halves : ℕ → List ℕ → Type 0
Halves size [] = Unit {0}
Halves size (next ∷ rest) = (size ≤ 2 * next) × (next < size) × Halves next rest

abbrev smallest : ℕ → List ℕ → ℕ
smallest size [] = size
smallest size (next ∷ rest) = smallest next rest

module _ {W : Type 0} {set_variable : ℕ → ℕ → W → Status × W} {exists : ℕ → ℕ → W → Bool}
    {free : W → ℕ} {header : ℕ} (laws : StoreLaws set_variable exists free header) where
  -- no variable of a size from an index on
  abbrev Fresh : ℕ → ℕ → W → Type 0
  Fresh size index w = (i : ℕ) → index ≤ i → exists size i w ≡ false

  fill_size-others :
      (left size index s i : ℕ) (w : W)
      → s < size
      → exists s i (fill_size set_variable left size index w).0 ≡ exists s i w
  unfolding fill_size
  fill_size-others zero size index s i w h = refl
  fill_size-others (suc left) size index s i w h =
      let same = laws.others size index s i w (ground (arith, h)) in
      elim (Bool-cases (efi_error (set_variable size index w).0)) [
        | inl e ↦ rw (e, fill_size) same
        | inr e ↦
            rw (e, fill_size)
              (fill_size-others left size (index + 1) s i (set_variable size index w).1 h ∙ same)
      ]

  -- a size ends with another error, where there is no room for one more, or with all of its variables
  -- written
  fill_size-fills :
      (left size index : ℕ) (w : W)
      → Fresh size index w
      → (free (fill_size set_variable left size index w).0 ≤ free w)
        × (TellsOther (fill_size set_variable left size index w).1
            ⊎ (free (fill_size set_variable left size index w).0 < size + header)
            ⊎ (free (fill_size set_variable left size index w).0 + left * (size + header) ≤ free w))
  unfolding fill_size
  fill_size-fills zero size index w fresh = (omega arith, inr (inr (omega arith)))
  fill_size-fills (suc left) size index w fresh =
      elim (Bool-cases (efi_error (set_variable size index w).0)) [
        | inl e ↦
            let f = laws.gives_nothing size index w e in
            rw (e, fill_size)
              (
                f,
                elim (Bool-cases (is_out_of_resources (set_variable size index w).0)) [
                  | inl full ↦
                      let g = laws.no_room size index w full in inr (inl (omega (arith, f, g)))
                  | inr other ↦ inl (inl other)
                ],
              )
        | inr e ↦
            let t = laws.takes size index w (fresh index (omega arith)) e in
            let k = fill_size-fills left size (index + 1) (set_variable size index w).1 (λ i h.
              laws.others size index size i w (ground (arith, h)) ∙ fresh i (omega (arith, h))) in
            rw (e, fill_size)
              (
                omega (arith, t, k.0),
                elim k.1 [
                  | inl other ↦ inl other
                  | inr (inl full) ↦ inr (inl full)
                  | inr (inr written) ↦ inr (inr (omega (arith, t, written)))
                ],
              )
      ]

  fill_size-full :
      (size : ℕ) (w : W)
      → Fresh size 0 w
      → free w < max_count * (size + header)
      → TellsOther (fill_size set_variable max_count size 0 w).1
        ⊎ (free (fill_size set_variable max_count size 0 w).0 < size + header)
  fill_size-full size w fresh room = elim (fill_size-fills max_count size 0 w fresh).1 [
    | inl other ↦ inl other
    | inr (inl full) ↦ inr full
    | inr (inr written) ↦ absurd (omega (arith, room, written))
  ]

  fill_sizes-full :
      (size : ℕ) (sizes : List ℕ) (w : W)
      → Halves size sizes
      → ((s i : ℕ) → s ≤ size → exists s i w ≡ false)
      → free w < max_count * (size + header)
      → TellsOther (fill_sizes set_variable (size ∷ sizes) w).1
        ⊎ (free (fill_sizes set_variable (size ∷ sizes) w).0 < smallest size sizes + header)
  unfolding fill_sizes
  fill_sizes-full size [] w halves fresh room =
      elim (fill_size-full size w (λ i _. fresh size i (omega arith)) room) [
        | inl other ↦ inl (TellsOther-left (fill_size set_variable max_count size 0 w).1 [] other)
        | inr full ↦ inr full
      ]
  fill_sizes-full size (next ∷ rest) w halves fresh room =
      let r = fill_size set_variable max_count size 0 w in
      let later = fill_sizes set_variable (next ∷ rest) r.0 in
      elim (fill_size-full size w (λ i _. fresh size i (omega arith)) room) [
        | inl other ↦ inl (TellsOther-left r.1 later.1 other)
        | inr full ↦
            elim (fill_sizes-full next rest r.0 halves.2
              (λ s i h.
                fill_size-others max_count size 0 s i w (omega (arith, h, halves.1))
                ∙ fresh s i (omega (arith, h, halves.1)))
              (omega (arith, full, halves.0))) [
                | inl other ↦ inl (TellsOther-right r.1 later.1 other)
                | inr small ↦ inr small
              ]
      ]

  -- With a store that keeps the laws, has none of the tool's variables and has less room than for 4096 of
  -- the largest: once the buffer was allocated, the program does not return. The machine is reset when the
  -- store has no room left even for the smallest variable, of 32 bytes, or the output tells of a write
  -- that failed with another error than OUT_OF_RESOURCES.
  pub uefi_main-full :
      (w : W)
      → ((s i : ℕ) → exists s i w ≡ false)
      → free w < 4096 * (1024 + header)
      → ((uefi_main set_variable true w).0 ≡ reset_cold)
        × (TellsOther (uefi_main set_variable true w).2
            ⊎ (free (uefi_main set_variable true w).1 < 32 + header))
  unfolding uefi_main
  uefi_main-full w fresh room = (
    refl,
    elim (fill_sizes-full 1024 (512 ∷ 256 ∷ 128 ∷ 64 ∷ 32 ∷ []) w
        (
          omega arith,
          omega arith,
          (
            omega arith,
            omega arith,
            (omega arith, omega arith, (omega arith, omega arith, (omega arith, omega arith, tt))),
          ),
        )
        (λ s i _. fresh s i) room) [
          | inl other ↦ inl (
              TellsOther-left (fill_sizes set_variable (1024 ∷ 512 ∷ 256 ∷ 128 ∷ 64 ∷ 32 ∷ []) w).1
                (resetting ∷ []) other)
          | inr small ↦ inr small
        ],
  )
