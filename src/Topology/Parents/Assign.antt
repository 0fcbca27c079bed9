-- ===== src/Topology/Parents/Assign.antt =====
-- Applications/PciTopology/PciTopology.c: what `AssignParents` writes for each device.
use uefi_tools_pkg.Base.{
  ℕ, zero, suc, ◌+◌, ◌<◌, ◌≡◌, ◌∙◌, Option, some, List, [], ◌∷◌, get_elem?, subst, arith, ◌⊎◌, inl,
  inr,
}
use uefi_tools_pkg.Topology.Device.{Device, no_parent}
use uefi_tools_pkg.Topology.Parents.{best_from, assign_from, assign_parents}
use uefi_tools_pkg.Topology.Parents.Best.{Candidate, IsNarrowest, best_from-best}

abbrev adopt : List Device → ℕ → Device → Option Device
adopt devices i child =
    some (record child { parent = best_from i child 0 devices no_parent no_parent })

get_elem?-assign_from :
    (devices rest : List Device) (i k : ℕ) (child : Device)
    → get_elem? rest k ≡ some child
    → get_elem? (assign_from devices i rest) k ≡ adopt devices (i + k) child
unfolding assign_from
get_elem?-assign_from devices [] i k child h = cc
get_elem?-assign_from devices (d ∷ rest) i zero child h =
    let same : d ≡ child = cc (h) in
    let here : i ≡ i + 0 = omega arith in λ j. adopt devices (here j) (same j)
get_elem?-assign_from devices (d ∷ rest) i (suc k) child h =
    let there : suc i + k ≡ i + suc k = omega arith in
    get_elem?-assign_from devices rest (suc i) k child h ∙ (λ j. adopt devices (there j) child)

-- bus numbers are UINT8
abbrev pub HaveByteBuses : List Device → Type 0
HaveByteBuses [] = Unit {0}
HaveByteBuses (d ∷ rest) = (d.subordinate_bus < 256) × HaveByteBuses rest

get_elem?-HaveByteBuses :
    (devices : List Device) (m : ℕ) (d : Device)
    → HaveByteBuses devices
    → get_elem? devices m ≡ some d
    → d.subordinate_bus < 256
get_elem?-HaveByteBuses [] m d h e = cc
get_elem?-HaveByteBuses (x ∷ rest) zero d h e =
    let same : x ≡ d = cc (e) in subst (λ (y : Device). y.subordinate_bus < 256) same h.0
get_elem?-HaveByteBuses (x ∷ rest) (suc m) d h e = get_elem?-HaveByteBuses rest m d h.1 e

-- Where bus numbers are bytes: `AssignParents` changes only the parent of a device, which becomes
-- the first of the narrowest other bridges of its segment whose bus range holds its bus, and no
-- parent exactly where there is none.
pub assign_parents-best :
    (devices : List Device) (c : ℕ) (child : Device)
    → HaveByteBuses devices
    → get_elem? devices c ≡ some child
    → (parent : ℕ) × (get_elem? (assign_parents devices) c
        ≡ some (record child { parent = parent }))
      × (((parent ≡ no_parent)
            × ((m : ℕ) (other : Device) → ¬ (Candidate c child 0 devices m other)))
          ⊎ IsNarrowest c child 0 devices no_parent parent)
unfolding assign_parents
assign_parents-best devices c child bytes h =
    let start : 0 + c ≡ c = omega arith in
    (
      best_from c child 0 devices no_parent no_parent,
      get_elem?-assign_from devices devices 0 c child h ∙ (λ j. adopt devices (start j) child),
      elim (best_from-best c child 0 devices no_parent no_parent) [
        | inl (e, wide) ↦ inl (
          e,
          λ m other cand.
              let small = get_elem?-HaveByteBuses devices m other bytes cand.0 in
              let large = wide m other cand in omega (arith, small, large),
        )
        | inr n ↦ inr n
      ],
    )
