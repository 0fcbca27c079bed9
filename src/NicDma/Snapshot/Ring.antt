-- ===== src/NicDma/Snapshot/Ring.antt =====
-- Applications/NicDmaScan/NicDmaScan.c: the loop of `Snapshot`, and all of it.
use Prim.Native.Nat.{bit_and}
use uefi_tools_pkg.Base.{
  ℕ, zero, suc, ◌+◌, ◌*◌, ◌≤◌, ◌≡◌, refl, subst, Bool, true, false, Option, none, some, List, [],
  ◌∷◌, ◌++◌, ◌==◌, Bool-cases, Option-cases, ◌⊎◌, inl, inr, arith,
}
use uefi_tools_pkg.NicDma.Decode.{Bytes, dma_end}
use uefi_tools_pkg.NicDma.Bounds.{dma_end-some}
use uefi_tools_pkg.NicDma.Ram.{MemoryDescriptor, InSafeRam}
use uefi_tools_pkg.NicDma.Snapshot.{
  Event, incomplete, ring_end, base_reread, Round, stopped, last, more, round, observe, finish,
  recheck, snapshot,
}
use uefi_tools_pkg.NicDma.Snapshot.Safe.{AreSafe, AreSafe-append, IsSafeRound, round-IsSafeRound}

-- what the loop leaves: a complete ring is in safe RAM
abbrev IsSafeRing : ℕ → List MemoryDescriptor → ℕ → ℕ × Bool × List Event → Type 0
IsSafeRing max_uintn map base (count, complete, shown) =
    AreSafe max_uintn map shown
    × (count ≤ 256)
    × (complete ≡ true → InSafeRam map base (count * 16))

Round-cases :
    (r : Round)
    → ((l : List Event) × (r ≡ stopped l))
      ⊎ (((l : List Event) × (r ≡ last l)) ⊎ ((l : List Event) × (r ≡ more l)))
Round-cases (stopped l) = inl (l, refl)
Round-cases (last l) = inr (inl (l, refl))
Round-cases (more l) = inr (inr (l, refl))

module _ (max_uintn : ℕ) (map : List MemoryDescriptor) (memory : ℕ → ℕ → Bytes) (base : ℕ)
    (rx : Bool) where
  observe-IsSafeRing :
      (left i : ℕ) (shown : List Event)
      → i + left ≤ 256
      → AreSafe max_uintn map shown
      → IsSafeRing max_uintn map base (observe max_uintn map memory base rx left i i shown)
  unfolding observe
  observe-IsSafeRing zero i shown few safe = (safe, omega (arith, few), λ e. cc)
  observe-IsSafeRing (suc left) i shown few safe =
      let here = round-IsSafeRound max_uintn map memory base rx i (omega (arith, few)) in
      elim (Round-cases (round max_uintn map memory base rx i)) [
        | inl (l, e) ↦
            let k = subst (IsSafeRound max_uintn map base i) e here in
            rw (e, observe)
              (AreSafe-append max_uintn map shown l safe k, omega (arith, few), λ c. cc)
        | inr (inl (l, e)) ↦
            let k = subst (IsSafeRound max_uintn map base i) e here in
            rw (e, observe)
              (AreSafe-append max_uintn map shown l safe k.0, omega (arith, few), λ c. k.1)
        | inr (inr (l, e)) ↦
            let k = subst (IsSafeRound max_uintn map base i) e here in
            rw (e, observe)
              (observe-IsSafeRing left (i + 1) (shown ++ l) (omega (arith, few))
                (AreSafe-append max_uintn map shown l safe k))
      ]

  finish-AreSafe :
      (r : ℕ × Bool × List Event)
      → IsSafeRing max_uintn map base r
      → AreSafe max_uintn map (finish base r)
  unfolding finish
  finish-AreSafe (count, false, shown) (safe, few, ring) =
      AreSafe-append max_uintn map shown (incomplete count ∷ []) safe (tt, tt)
  finish-AreSafe (count, true, shown) (safe, few, ring) =
      elim (Option-cases (dma_end base (count * 16))) [
        | inl e ↦
            rw (e, finish)
              (AreSafe-append max_uintn map shown (incomplete count ∷ []) safe (tt, tt))
        | inr (end, e) ↦
            let same = (dma_end-some base (count * 16) end (omega (arith, few)) e).1 in
            rw (e, finish)
              (AreSafe-append max_uintn map shown (ring_end base end (count * 16) ∷ []) safe
                ((ring refl, same), tt))
      ]

recheck-AreSafe :
    (max_uintn : ℕ) (map : List MemoryDescriptor) (base : ℕ) (after : Option ℕ)
    → AreSafe max_uintn map (recheck base after)
recheck-AreSafe max_uintn map base none = (tt, tt)
recheck-AreSafe max_uintn map base (some after) = elim (Bool-cases (after == base)) [
  | inl e ↦ rw e tt
  | inr e ↦ rw e (tt, tt)
]

snapshot-AreSafe_mapped :
    (max_uintn : ℕ) (map : List MemoryDescriptor) (memory : ℕ → ℕ → Bytes) (after : Option ℕ)
    (base : ℕ) (rx : Bool)
    → AreSafe max_uintn map (snapshot max_uintn (some map) memory after base rx)
unfolding snapshot
snapshot-AreSafe_mapped max_uintn map memory after base rx = elim (Bool-cases (base == 0)) [
  | inl e ↦ rw e (tt, tt)
  | inr k ↦ elim (Bool-cases (bit_and base 0xff == 0)) [
    | inr e ↦ rw (k, e) (tt, tt)
    | inl e ↦
        rw (k, e)
          (AreSafe-append max_uintn map
            (finish base (observe max_uintn map memory base rx 256 0 0 []))
            (base_reread ∷ recheck base after)
            (finish-AreSafe max_uintn map memory base rx
              (observe max_uintn map memory base rx 256 0 0 [])
              (observe-IsSafeRing max_uintn map memory base rx 256 0 [] (omega arith) tt))
            (tt, recheck-AreSafe max_uintn map base after))
  ]
]

-- the regions of the map, none of them if there is no map
abbrev pub regions : Option (List MemoryDescriptor) → List MemoryDescriptor
regions none = []
regions (some map) = map

-- Whatever memory holds and however it changes, each descriptor that `Snapshot` reads lies within one
-- region of the memory map that is safe to read and that a pointer reaches; so do the ring that it
-- reports as complete, to its last byte, and each buffer range that it reports as one of the CPU.
-- Without a memory map it reads and reports nothing of these.
pub snapshot-AreSafe :
    (max_uintn : ℕ) (mapped : Option (List MemoryDescriptor)) (memory : ℕ → ℕ → Bytes)
    (after : Option ℕ) (base : ℕ) (rx : Bool)
    → AreSafe max_uintn (regions mapped) (snapshot max_uintn mapped memory after base rx)
unfolding snapshot
snapshot-AreSafe max_uintn (some map) memory after base rx =
    snapshot-AreSafe_mapped max_uintn map memory after base rx
snapshot-AreSafe max_uintn none memory after base rx = elim (Bool-cases (base == 0)) [
  | inl e ↦ rw e (tt, tt)
  | inr k ↦ elim (Bool-cases (bit_and base 0xff == 0)) [
    | inr e ↦ rw (k, e) (tt, tt)
    | inl e ↦ rw (k, e) (tt, tt)
  ]
]
