-- ===== src/Harness/Discipline.antt =====
-- The order in which the methods of `fc.Microvm` may be called, as the experiments of spikes/harness are
-- to keep it: a VM is paused before a snapshot, a socket file is not bound twice, a request goes to a VM
-- that runs, a base is gone before it is forked, and all forks of one experiment live when one is asked.
use klados.Base.{
  ℕ, length, Bool, true, false, ◌&&◌, ◌||◌, Option, none, some, List, [], ◌∷◌, ◌++◌, ◌==◌,
  if◌then◌else◌,
}
use klados.Harness.Lab.{
  Name, base, child, restore, Uds, baked, of_base, of_fork, Act, spawn, start, load, pause, resume,
  kill, snapshot, request, unlink,
}

abbrev pub same : Name → Name → Bool
same base base = true
same (child i) (child j) = i == j
same (restore i) (restore j) = i == j
same _ _ = false

abbrev pub same_uds : Uds → Uds → Bool
same_uds baked baked = true
same_uds of_base of_base = true
same_uds (of_fork i) (of_fork j) = i == j
same_uds _ _ = false

pub data Phase : Type 0 where
  fresh running paused : Phase

-- A live VM: its name, where its socket file would be, its phase, and whether it has a vsock.
pub record Vm : Type 0 where
  pub name : Name
  pub place : Uds
  pub phase : Phase
  pub listens : Bool

-- The live VMs, in the order of their start, the socket files that are there, and how many VMs are to be
-- live whenever a fork with a directory of its own is asked something.
pub record Desk : Type 0 where
  pub vms : List Vm
  pub taken : List Uds
  pub quorum : ℕ

unfoldable pub is_live : Name → List Vm → Bool
is_live n [] = false
is_live n (v ∷ vms) = same v.name n || is_live n vms

unfoldable pub is_taken : Uds → List Uds → Bool
is_taken u [] = false
is_taken u (t ∷ taken) = same_uds t u || is_taken u taken

unfoldable pub free : Uds → List Uds → List Uds
free u [] = []
free u (t ∷ taken) = let rest = free u taken in if same_uds t u then rest else t ∷ rest

unfoldable pub remove : Name → List Vm → List Vm
remove n [] = []
remove n (v ∷ vms) = if same v.name n then vms else v ∷ remove n vms

unfoldable pub find : Name → List Vm → Option Vm
find n [] = none
find n (v ∷ vms) = if same v.name n then some v else find n vms

unfoldable pub put : Vm → List Vm → List Vm
put v [] = []
put v (w ∷ vms) = if same w.name v.name then v ∷ vms else w ∷ put v vms

-- a VM that listens at a place and runs
unfoldable pub answers : Uds → List Vm → Bool
answers u [] = false
answers u (v ∷ vms) =
    same_uds v.place u && v.listens && (elim v.phase [ running ↦ true | _ ↦ false ])
    || answers u vms

abbrev place_of : Option Uds → Uds
place_of none = baked
place_of (some u) = u

-- a VM that was only started gets its memory, and its vsock where the file is not there yet
abbrev begun : Bool → Option Vm → Desk → Option Desk
begun vsock none d = none
begun vsock (some v) d = elim v.phase [
  | fresh ↦
      let go = some (record d {
        vms = put (record v { phase = running; listens = vsock }) d.vms;
        taken = if vsock then v.place ∷ d.taken else d.taken;
      }) in
      if vsock && is_taken v.place d.taken then none else go
  | running ↦ none
  | paused ↦ none
]

abbrev moved : Phase → Option Vm → Desk → Option Desk
moved running (some v) d = elim v.phase [
  | running ↦ some (record d { vms = put (record v { phase = paused }) d.vms })
  | fresh ↦ none
  | paused ↦ none
]
moved paused (some v) d = elim v.phase [
  | paused ↦ some (record d { vms = put (record v { phase = running }) d.vms })
  | fresh ↦ none
  | running ↦ none
]
moved fresh (some v) d = none
moved _ none d = none

abbrev is_paused : Option Vm → Bool
is_paused none = false
is_paused (some v) = elim v.phase [ paused ↦ true | _ ↦ false ]

-- The base lives still, and the VM is a fork of it.
abbrev pub is_early : Name → List Vm → Bool
is_early (child i) vms = is_live base vms
is_early _ vms = false

-- As many VMs are live as are to be when this socket is used.
abbrev pub is_full : Uds → Desk → Bool
is_full (of_fork i) d = length d.vms == d.quorum
is_full _ d = true

-- none: the action is out of order
unfoldable pub step : Act → Desk → Option Desk
unfolding is_live is_taken free remove find put answers
step (spawn n remap) d =
    let v : Vm = record { name = n; place = place_of remap; phase = fresh; listens = false } in
    if is_live n d.vms || is_early n d.vms then none else some (record d { vms = d.vms ++ v ∷ [] })
step (start n vsock) d = begun vsock (find n d.vms) d
step (load n from vsock) d = begun vsock (find n d.vms) d
step (pause n) d = moved running (find n d.vms) d
step (resume n) d = moved paused (find n d.vms) d
step (snapshot n to diff) d = if is_paused (find n d.vms) then some d else none
step (kill n) d = some (record d { vms = remove n d.vms })
step (request u m) d = if answers u d.vms && is_full u d then some d else none
step (unlink u) d = some (record d { taken = free u d.taken })

abbrev pub empty_desk : ℕ → Desk
empty_desk quorum = record { vms = []; taken = []; quorum = quorum }

infixl 10 ◌>>=◌
abbrev pub ◌>>=◌ : {A B : Type 0} → Option A → (A → Option B) → Option B
none >>= f = none
some a >>= f = f a

-- where a trace leads from a desk, the last action first; none if one of them was out of order
unfoldable pub outcome : Desk → List Act → Option Desk
unfolding step
outcome origin [] = some origin
outcome origin (a ∷ earlier) = outcome origin earlier >>= step a
