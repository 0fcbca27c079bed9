-- ===== src/Topology/Print/Complete.antt =====
-- Applications/PciTopology/PciTopology.c: what `PrintTopology` shows.
use uefi_tools_pkg.Base.{
  some, get_elem?, sym, ◌∙◌, ℕ, zero, suc, ◌+◌, ◌-◌, ◌≡◌, refl, ◌≢◌, Bool, true, false, not, List,
  [], ◌∷◌, ◌==◌, take, if◌then◌else◌, get_or, set, replicate, length, arith, ◌⊎◌, inl, inr,
  Bool-cases, subst,
}
use uefi_tools_pkg.Topology.Device.{Device, no_parent}
use uefi_tools_pkg.Topology.Parents.{has_child, last_child_index}
use uefi_tools_pkg.Topology.Print.{
  Line, domain, node, max_depth, orphan, Printer, emit, print_node, for_children, print_subtree,
  max_levels, print_roots, print_orphans, new_printer, print_topology,
}
use uefi_tools_pkg.Topology.Print.Shown.{IsShown, IsShown-append, IsShown-last, print_orphans-keeps}

-- what is flagged as printed was printed
abbrev IsHonest : List Device → Printer → Type 0
IsHonest devices p =
    (j : ℕ) (d : Device)
    → get_elem? devices j ≡ some d
    → get_or p.printed j false ≡ true
    → IsShown j d p.lines

-- `rest` is what the devices have from index `i`
abbrev IsRest : List Device → ℕ → List Device → Type 0
IsRest devices i rest = (k : ℕ) → get_elem? devices (i + k) ≡ get_elem? rest k

IsRest-here :
    (devices : List Device) (i : ℕ) (d : Device) (rest : List Device)
    → IsRest devices i (d ∷ rest)
    → get_elem? devices i ≡ some d
IsRest-here devices i d rest h =
    let same : i + 0 ≡ i = omega arith in subst (λ (n : ℕ). get_elem? devices n ≡ some d) same (h 0)

IsRest-there :
    (devices : List Device) (i : ℕ) (d : Device) (rest : List Device)
    → IsRest devices i (d ∷ rest)
    → IsRest devices (suc i) rest
IsRest-there devices i d rest h k =
    let same : i + suc k ≡ suc i + k = omega arith in
    subst (λ (n : ℕ). get_elem? devices n ≡ get_elem? rest k) same (h (suc k))

get_or-set :
    (flags : List Bool) (i j : ℕ)
    → get_or (set flags i true) j false ≡ true
    → (i ≡ j) ⊎ (get_or flags j false ≡ true)
get_or-set [] i j h = cc
get_or-set (f ∷ flags) zero zero h = inl refl
get_or-set (f ∷ flags) zero (suc j) h = inr h
get_or-set (f ∷ flags) (suc i) zero h = inr h
get_or-set (f ∷ flags) (suc i) (suc j) h = elim (get_or-set flags i j h) [
  | inl e ↦ inl (omega arith)
  | inr k ↦ inr k
]

if-IsHonest :
    (devices : List Device) (b : Bool) (p q : Printer)
    → IsHonest devices p
    → IsHonest devices q
    → IsHonest devices (if b then p else q)
if-IsHonest devices true p q hp hq = hp
if-IsHonest devices false p q hp hq = hq

emit-IsHonest :
    (devices : List Device) (line : Line) (p : Printer)
    → IsHonest devices p
    → IsHonest devices (emit line p)
emit-IsHonest devices line p h j d at flag = IsShown-append (line ∷ []) (h j d at flag)

some-injective : (d e : Device) → some d ≡ some e → d ≡ e
some-injective d e h = cc

module _ (devices : List Device) where
  print_node-IsHonest :
      (depth index : ℕ) (d : Device) (is_last : Bool) (p : Printer)
      → get_elem? devices index ≡ some d
      → IsHonest devices p
      → IsHonest devices (print_node depth index d is_last p)
  unfolding print_node
  print_node-IsHonest depth index d is_last p at h j e present flag =
      let line = node (take depth p.last_at_depth) is_last index d in
      elim (get_or-set p.printed index j flag) [
        | inl same ↦
            let found = subst (λ (n : ℕ). get_elem? devices n ≡ some d) same at in
            IsShown-last p.lines line (same, some-injective d e (sym found ∙ present))
        | inr k ↦ IsShown-append (line ∷ []) (h j e present k)
      ]

  for_children-IsHonest :
      (visit : ℕ → Device → Bool → Printer → Printer)
      → ((i : ℕ) (d : Device) (l : Bool) (p : Printer)
          → get_elem? devices i ≡ some d
          → IsHonest devices p
          → IsHonest devices (visit i d l p))
      → (parent last i : ℕ) (rest : List Device) (p : Printer) → IsRest devices i rest
      → IsHonest devices p
      → IsHonest devices (for_children visit parent last i rest p)
  unfolding for_children
  for_children-IsHonest visit keep parent last i [] p r h = h
  for_children-IsHonest visit keep parent last i (d ∷ rest) p r h =
      for_children-IsHonest visit keep parent last (suc i) rest _ (IsRest-there devices i d rest r)
        (if-IsHonest devices (d.parent == parent) _ p
          (keep i d (i == last) p (IsRest-here devices i d rest r) h) h)

  whole : IsRest devices 0 devices
  whole k =
      let same : k ≡ 0 + k = omega arith in
      subst (λ (n : ℕ). get_elem? devices n ≡ get_elem? devices k) same refl

  print_subtree-IsHonest :
      (levels index : ℕ) (d : Device) (is_last : Bool) (p : Printer)
      → get_elem? devices index ≡ some d
      → IsHonest devices p
      → IsHonest devices (print_subtree levels devices index d is_last p)
  unfolding print_subtree
  print_subtree-IsHonest zero index d is_last p at h =
      let h' = print_node-IsHonest max_levels index d is_last p at h in
      if-IsHonest devices (not (has_child devices index)) _ _ h'
        (emit-IsHonest devices max_depth (print_node max_levels index d is_last p) h')
  print_subtree-IsHonest (suc levels) index d is_last p at h =
      let depth = max_levels - suc levels in
      let p' = print_node depth index d is_last p in
      let h' = print_node-IsHonest depth index d is_last p at h in
      if-IsHonest devices (not (has_child devices index)) _ _ h' (
        for_children-IsHonest (print_subtree levels devices) (print_subtree-IsHonest levels) index
          (last_child_index devices index) 0 devices
          (record p' { last_at_depth = set p'.last_at_depth depth is_last }) whole h')

  print_roots-IsHonest :
      (i : ℕ) (rest : List Device) (segment last_root : ℕ) (p : Printer)
      → IsRest devices i rest
      → IsHonest devices p
      → IsHonest devices (print_roots devices i rest segment last_root p)
  unfolding print_roots
  print_roots-IsHonest i [] segment last_root p r h = h
  print_roots-IsHonest i (d ∷ rest) segment last_root p r h =
      let changed = not (d.segment == segment) in
      let h' =
        if-IsHonest devices changed (emit (domain d.segment) p) p (emit-IsHonest devices _ p h) h in
      print_roots-IsHonest (suc i) rest d.segment _ _ (IsRest-there devices i d rest r) (
        if-IsHonest devices (d.parent == no_parent) _ _
          (print_subtree-IsHonest max_levels i d _ _ (IsRest-here devices i d rest r) h') h')

module _ (devices : List Device) where
  -- a round of the second loop
  orphan_round-shows :
      (i : ℕ) (d : Device) (p : Printer)
      → get_elem? devices i ≡ some d
      → IsHonest devices p
      → IsShown i d (if not (get_or p.printed i false) then emit (orphan i d) p else p).lines
  orphan_round-shows i d p at h = elim (Bool-cases (get_or p.printed i false)) [
    | inl done ↦ rw done (h i d at done)
    | inr new ↦ rw new (IsShown-last p.lines (orphan i d) (refl, refl))
  ]

  print_orphans-shows :
      (i : ℕ) (rest : List Device) (p : Printer) (k : ℕ) (e : Device)
      → IsRest devices i rest
      → IsHonest devices p
      → get_elem? rest k ≡ some e
      → IsShown (i + k) e (print_orphans i rest p).lines
  unfolding print_orphans
  print_orphans-shows i [] p k e r h at = cc
  print_orphans-shows i (d ∷ rest) p zero e r h at =
      let same : i ≡ i + zero = omega arith in
      let p' = if not (get_or p.printed i false) then emit (orphan i d) p else p in
      let shown = orphan_round-shows i d p (IsRest-here devices i d rest r) h in
      print_orphans-keeps (suc i) rest p' (
        subst (λ (j : ℕ). IsShown j e p'.lines) same
          (subst (λ (x : Device). IsShown i x p'.lines) (some-injective d e at) shown))
  print_orphans-shows i (d ∷ rest) p (suc k) e r h at =
      let further : suc i + k ≡ i + suc k = omega arith in
      let p' = if not (get_or p.printed i false) then emit (orphan i d) p else p in
      subst (λ (j : ℕ). IsShown j e (print_orphans (suc i) rest p').lines) further
        (print_orphans-shows (suc i) rest p' k e (IsRest-there devices i d rest r)
          (if-IsHonest devices (not (get_or p.printed i false)) (emit (orphan i d) p) p
            (emit-IsHonest devices (orphan i d) p h) h)
          at)

replicate-false : (n j : ℕ) → get_or (replicate n false) j false ≢ true
replicate-false zero j e = cc
replicate-false (suc n) zero e = cc
replicate-false (suc n) (suc j) e = replicate-false n j e

-- Whatever the parents of the devices, also where bridges form a cycle or the tree is too deep,
-- every device has a line, in the tree or as an orphan.
pub print_topology-shows :
    (devices : List Device) (j : ℕ) (d : Device)
    → get_elem? devices j ≡ some d
    → IsShown j d (print_topology devices)
unfolding print_topology
print_topology-shows devices j d at =
    let roots = print_roots devices 0 devices no_parent no_parent (new_printer devices) in
    let start : 0 + j ≡ j = omega arith in
    subst (λ (k : ℕ). IsShown k d (print_orphans 0 devices roots).lines) start
      (print_orphans-shows devices 0 devices roots j d (whole devices)
        (print_roots-IsHonest devices 0 devices no_parent no_parent (new_printer devices)
          (whole devices) (λ k e found flag. absurd (replicate-false (length devices) k flag)))
        at)
