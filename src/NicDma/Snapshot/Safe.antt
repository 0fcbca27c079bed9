-- ===== src/NicDma/Snapshot/Safe.antt =====
-- Applications/NicDmaScan/NicDmaScan.c: what `Snapshot` reads, and the ranges that it reports.
use Prim.Native.Nat.{bit_and}
use uefi_tools_pkg.Base.{
  equal, ℕ, ◌+◌, ◌-◌, ◌*◌, ◌≤◌, ◌<◌, ◌^◌, ◌≡◌, sym, subst, Bool, not, List, [], ◌∷◌, ◌++◌, ◌==◌,
  Bool-cases, Option-cases, inl, inr, arith,
}
use uefi_tools_pkg.NicDma.Decode.{Bytes, dma_end, le32, le64, rtl_length}
use uefi_tools_pkg.NicDma.Bounds.{dma_end-some}
use uefi_tools_pkg.NicDma.Ram.{
  MemoryDescriptor, readable_ram, InSafeRam, InSafeRam-part, readable_ram-InSafeRam,
}
use uefi_tools_pkg.NicDma.Snapshot.{
  Event, read_at, descriptor, identity_range, ring_end, Round, stopped, last, more, buffer_events,
  decode_round, round,
}

-- Each pass over a descriptor is within the safe RAM that a pointer reaches; so is the ring at its
-- reported end, and a range that is reported as one of the CPU.
abbrev pub IsSafeEvent : ℕ → List MemoryDescriptor → Event → Type 0
IsSafeEvent max_uintn map (read_at a) = InSafeRam map a 16 × (a + 16 ≤ max_uintn + 1)
IsSafeEvent max_uintn map (ring_end base end len) = InSafeRam map base len × (end ≡ base + len)
IsSafeEvent max_uintn map (identity_range start end) =
    (len : ℕ) × InSafeRam map start len × (end ≡ start + len)
IsSafeEvent max_uintn map _ = Unit {0}

abbrev pub AreSafe : ℕ → List MemoryDescriptor → List Event → Type 0
AreSafe max_uintn map [] = Unit {0}
AreSafe max_uintn map (e ∷ rest) = IsSafeEvent max_uintn map e × AreSafe max_uintn map rest

pub AreSafe-append :
    (max_uintn : ℕ) (map : List MemoryDescriptor) (l k : List Event)
    → AreSafe max_uintn map l
    → AreSafe max_uintn map k
    → AreSafe max_uintn map (l ++ k)
AreSafe-append max_uintn map [] events h k = k
AreSafe-append max_uintn map (e ∷ rest) events (s, h) k =
    (s, AreSafe-append max_uintn map rest events h k)

-- the events of a round, and the ring up to it where the round is its last
abbrev pub IsSafeRound : ℕ → List MemoryDescriptor → ℕ → ℕ → Round → Type 0
IsSafeRound max_uintn map base i (stopped events) = AreSafe max_uintn map events
IsSafeRound max_uintn map base i (last events) =
    AreSafe max_uintn map events × InSafeRam map base ((i + 1) * 16)
IsSafeRound max_uintn map base i (more events) = AreSafe max_uintn map events

-- a descriptor of the observed prefix
read_at-IsSafe :
    (max_uintn : ℕ) (map : List MemoryDescriptor) (base i : ℕ)
    → InSafeRam map base ((i + 1) * 16)
    → base + (i + 1) * 16 ≤ max_uintn + 1
    → IsSafeEvent max_uintn map (read_at (base + (i + 1) * 16 - 16))
read_at-IsSafe max_uintn map base i safe low = (
  InSafeRam-part map base ((i + 1) * 16) (base + (i + 1) * 16 - 16) 16 safe (omega arith)
      (omega arith) (omega arith),
  omega (arith, low),
)

module _ (max_uintn : ℕ) (map : List MemoryDescriptor) (rx : Bool) where
  rtl_length-lt : (opts1 : ℕ) → rtl_length opts1 rx < 2 ^ 64
  unfolding rtl_length
  rtl_length-lt opts1 = omega arith

  buffer_events-AreSafe :
      (opts1 buffer : ℕ) → AreSafe max_uintn map (buffer_events max_uintn map rx opts1 buffer)
  unfolding buffer_events
  buffer_events-AreSafe opts1 buffer = elim (Bool-cases (buffer == 0)) [
    | inl e ↦ rw e (tt, tt)
    | inr k ↦ elim (Option-cases (dma_end buffer (rtl_length opts1 rx))) [
      | inl e ↦ rw (k, e) (tt, tt)
      | inr (end, e) ↦ elim (Bool-cases (readable_ram max_uintn map buffer (rtl_length opts1 rx))) [
        | inl r ↦
            let small = rtl_length-lt opts1 in
            rw (k, e, r)
              (
                tt,
                (
                  (
                    rtl_length opts1 rx,
                    (readable_ram-InSafeRam max_uintn map buffer (rtl_length opts1 rx) small r).0,
                    (dma_end-some buffer (rtl_length opts1 rx) end small e).1,
                  ),
                  tt,
                ),
              )
        | inr r ↦ rw (k, e, r) (tt, (tt, tt))
      ]
    ]
  ]

  decode_round-IsSafeRound :
      (base i address : ℕ) (first : Bytes)
      → InSafeRam map base ((i + 1) * 16)
      → IsSafeEvent max_uintn map (read_at address)
      → IsSafeRound max_uintn map base i (decode_round max_uintn map rx i address first)
  unfolding decode_round
  decode_round-IsSafeRound base i address first prefix at =
      let opts1 = le32 first 0 in
      let buffer = le64 first 8 in
      let safe : AreSafe max_uintn map (
          read_at address
          ∷ read_at address
          ∷ descriptor i opts1 (le32 first 4) buffer
          ∷ buffer_events max_uintn map rx opts1 buffer) =
        (at, (at, (tt, buffer_events-AreSafe opts1 buffer))) in
      elim (Bool-cases (not (bit_and opts1 0x4000_0000 == 0))) [
        | inl e ↦ rw e (safe, prefix)
        | inr e ↦ rw e safe
      ]

module _ (max_uintn : ℕ) (map : List MemoryDescriptor) (memory : ℕ → ℕ → Bytes) (base : ℕ)
    (rx : Bool) where
  pub round-IsSafeRound :
      (i : ℕ) → i < 256 → IsSafeRound max_uintn map base i (round max_uintn map memory base rx i)
  unfolding round
  round-IsSafeRound i few = elim (Option-cases (dma_end base ((i + 1) * 16))) [
    | inl e ↦ rw (e, round) (tt, tt)
    | inr (end, e) ↦ elim (Bool-cases (readable_ram max_uintn map base ((i + 1) * 16))) [
      | inr r ↦ rw (e, round, r) (tt, tt)
      | inl r ↦
          let address = end - 16 in
          let first = memory (2 * i) address in
          let same = (dma_end-some base ((i + 1) * 16) end (omega arith) e).1 in
          let ram = readable_ram-InSafeRam max_uintn map base ((i + 1) * 16) (omega arith) r in
          let at =
            subst (λ (a : ℕ). IsSafeEvent max_uintn map (read_at (a - 16))) (sym same)
              (read_at-IsSafe max_uintn map base i ram.0 ram.1) in
          elim (Bool-cases (equal first (memory (2 * i + 1) address))) [
            | inl s ↦
                rw (e, round, r, s)
                  (decode_round-IsSafeRound max_uintn map rx base i address first ram.0 at)
            | inr s ↦ rw (e, round, r, s) (at, (at, (tt, tt)))
          ]
    ]
  ]
