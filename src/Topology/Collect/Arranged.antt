-- ===== src/Topology/Collect/Arranged.antt =====
-- Applications/PciTopology/PciTopology.c: the numbers of devices and of bridges after `SortDevices` and
-- `AssignParents`.
use mathlib.Core.List.{Permᴰ}
use mathlib.Core.List.{Perm}
use mathlib.Core.Logic.{∥∥₁_elim}
use uefi_tools_pkg.Base.{
  ℕ, suc, ◌+◌, ◌≤◌, ◌≡◌, refl, sym, ◌∙◌, ap, List, [], ◌∷◌, if◌then◌else◌, length, arith,
}
use uefi_tools_pkg.Topology.Device.{Device, no_parent}
use uefi_tools_pkg.Topology.Sort.{sort_devices}
use uefi_tools_pkg.Topology.Sort.Order.{sort_devices-sorts}
use uefi_tools_pkg.Topology.Parents.{assign_parents, assign_from, best_from}
use uefi_tools_pkg.Topology.Collect.{bridge_count}

abbrev total : (Device → ℕ) → List Device → ℕ
total f [] = 0
total f (d ∷ rest) = f d + total f rest

total-Permᴰ : (f : Device → ℕ) {a b : List Device} → Permᴰ a b → total f a ≡ total f b
total-Permᴰ f Permᴰ.nil = refl
total-Permᴰ f (Permᴰ.cons e p) =
    let same = ap f e in let rest = total-Permᴰ f p in omega (arith, same, rest)
total-Permᴰ f (Permᴰ.swap {l = l} e e') =
    let same = ap f e in let other = ap f e' in omega (arith, same, other)
total-Permᴰ f (Permᴰ.trans p q) = total-Permᴰ f p ∙ total-Permᴰ f q

total-Perm : (f : Device → ℕ) (a b : List Device) → Perm a b → total f a ≡ total f b
total-Perm f a b p = ∥∥₁_elim p (hlevel) (total-Permᴰ f)

bridges : Device → ℕ
bridges d = if d.is_bridge then 1 else 0

length-total : (l : List Device) → length l ≡ total (λ d. 1) l
length-total [] = refl
length-total (d ∷ rest) = omega (arith, length-total rest)

bridge_count-total : (l : List Device) → bridge_count l ≡ total bridges l
unfolding bridge_count bridges
bridge_count-total [] = refl
bridge_count-total (d ∷ rest) = let r = bridge_count-total rest in omega (arith, r)

total-assign_from :
    (f : Device → ℕ)
    → ((d : Device) (parent : ℕ) → f (record d { parent = parent }) ≡ f d)
    → (devices : List Device) (i : ℕ) (rest : List Device)
    → total f (assign_from devices i rest) ≡ total f rest
unfolding assign_from
total-assign_from f same devices i [] = refl
total-assign_from f same devices i (d ∷ rest) =
    let e = same d (best_from i d 0 devices no_parent no_parent) in
    let r = total-assign_from f same devices (suc i) rest in omega (arith, e, r)

-- sorting and linking keep each number that does not depend on the parent
total-arranged :
    (f : Device → ℕ)
    → ((d : Device) (parent : ℕ) → f (record d { parent = parent }) ≡ f d)
    → (found : List Device) → total f (assign_parents (sort_devices found)) ≡ total f found
unfolding assign_parents
total-arranged f same found =
    total-assign_from f same (sort_devices found) 0 (sort_devices found)
    ∙ total-Perm f (sort_devices found) found (sort_devices-sorts found).1

pub length-arranged :
    (found : List Device) → length (assign_parents (sort_devices found)) ≡ length found
length-arranged found =
    length-total (assign_parents (sort_devices found))
    ∙ total-arranged (λ d. 1) (λ d parent. refl) found
    ∙ sym (length-total found)

pub bridge_count-arranged :
    (found : List Device) → bridge_count (assign_parents (sort_devices found)) ≡ bridge_count found
unfolding bridges
bridge_count-arranged found =
    bridge_count-total (assign_parents (sort_devices found))
    ∙ total-arranged bridges (λ d parent. refl) found
    ∙ sym (bridge_count-total found)

pub bridge_count-le : (l : List Device) → bridge_count l ≤ length l
unfolding bridge_count
bridge_count-le [] = omega arith
bridge_count-le (d ∷ rest) = let r = bridge_count-le rest in ground (arith, r)
