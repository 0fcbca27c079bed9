-- ===== src/Topology/Print/Shown.antt =====
-- Applications/PciTopology/PciTopology.c: that the output has a line for a device.
use uefi_tools_pkg.Base.{
  ℕ, suc, ◌≡◌, Bool, true, false, not, List, [], ◌∷◌, ◌++◌, if◌then◌else◌, get_or,
}
use uefi_tools_pkg.Topology.Device.{Device}
use uefi_tools_pkg.Topology.Print.{
  Line, domain, node, max_depth, orphan, Printer, emit, print_orphans,
}

-- The line is that of this device with this index, in the tree or as an orphan.
abbrev pub ShowsDevice : ℕ → Device → Line → Type 0
ShowsDevice j d (node bars corner i e) = (i ≡ j) × (e ≡ d)
ShowsDevice j d (orphan i e) = (i ≡ j) × (e ≡ d)
ShowsDevice j d (domain s) = ⊥
ShowsDevice j d max_depth = ⊥

pub data IsShown (j : ℕ) (d : Device) : List Line → Type 0 where
  here : {line : Line} {ls : List Line} → ShowsDevice j d line → IsShown j d (line ∷ ls)
  there : {line : Line} {ls : List Line} → IsShown j d ls → IsShown j d (line ∷ ls)

pub IsShown-append :
    {j : ℕ} {d : Device} {ls : List Line} (more : List Line)
    → IsShown j d ls
    → IsShown j d (ls ++ more)
IsShown-append more (here h) = here h
IsShown-append more (there s) = there (IsShown-append more s)

pub IsShown-last :
    {j : ℕ} {d : Device} (ls : List Line) (line : Line)
    → ShowsDevice j d line
    → IsShown j d (ls ++ (line ∷ []))
IsShown-last [] line h = here h
IsShown-last (l ∷ ls) line h = there (IsShown-last ls line h)

module _ {j : ℕ} {e : Device} where
  pub if-IsShown :
      (b : Bool) (p q : Printer)
      → IsShown j e p.lines
      → IsShown j e q.lines
      → IsShown j e (if b then p else q).lines
  if-IsShown true p q sp sq = sp
  if-IsShown false p q sp sq = sq

  pub print_orphans-keeps :
      (i : ℕ) (rest : List Device) (p : Printer)
      → IsShown j e p.lines
      → IsShown j e (print_orphans i rest p).lines
  unfolding print_orphans
  print_orphans-keeps i [] p s = s
  print_orphans-keeps i (d ∷ rest) p s =
      print_orphans-keeps (suc i) rest
        (if not (get_or p.printed i false) then emit (orphan i d) p else p)
        (if-IsShown (not (get_or p.printed i false)) (emit (orphan i d) p) p
          (IsShown-append (orphan i d ∷ []) s) s)
