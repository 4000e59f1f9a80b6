-- ===== src/Registry/Ports.antt =====
-- internal/devconfig/allocate.go: the host ports of a project. The probe `portInUse` asks the
-- operating system; it is the parameter `in_use`. The scan for a free port is a loop that only that
-- answer and the ports in use end, so it takes fuel: `none` is a scan that has not ended.
pub mod Assign
pub mod Pinning
pub mod Laws
pub mod Allocate
pub mod Ending
pub mod Again
use w17ctl.Base.{
  ℕ, zero, suc, Str, str_eq, ℤ, pos, int_eq, Bool, true, false, not, ◌||◌, ◌&&◌, Option, none, some,
  List, [], ◌∷◌, ◌++◌, if◌then◌else◌, is_some, is_nil,
}
use w17ctl.Base.Assoc.{Map, get, put, keys, values, keep_keys}
use w17ctl.Base.Sort.{sort_strings}
use w17ctl.Registry.{Project, Config, effective_port_base}

-- internal/devconfig/slots.go, `Slot`
pub record Slot : Type 0 where
  pub key : Str
  pub env_var : Str
  pub default : ℤ
  pub container : ℤ
  pub service : Str
  pub source : Str

pub record PortPin : Type 0 where
  pub key : Str
  pub was : ℤ
  pub now : ℤ
  pub clashes_with : Str

unfoldable pub contains : List ℤ → ℤ → Bool
contains [] v = false
contains (w ∷ ws) v = int_eq w v || contains ws v

-- `projectHolding`: the first project but `except` with the port, in the order of the `range`
unfoldable pub project_holding : Map Project → Str → ℤ → Str
unfolding contains
project_holding [] except port = []
project_holding ((n, p) ∷ m) except port =
    let rest = project_holding m except port in
    if not (str_eq n except) && contains (values p.ports) port then n else rest

-- the set `want` of the slot keys
unfoldable pub wanted : List Slot → Map Bool
wanted [] = []
wanted (s ∷ ss) = put (wanted ss) s.key true

-- the loop that deletes the slots that are gone, and whether it deleted any
unfoldable pub prune : Map Bool → Map ℤ → Map ℤ
prune want ports = keep_keys (λ k. is_some (get want k)) ports

unfoldable pub any_gone : Map Bool → List Str → Bool
any_gone want [] = false
any_gone want (k ∷ ks) = not (is_some (get want k)) || any_gone want ks

-- `p.Ports`, `changed` and the calls of `onPin`
pub record Pinned : Type 0 where
  pub ports : Map ℤ
  pub changed : Bool
  pub moved : List PortPin

abbrev same_port : Option ℤ → ℤ → Bool
same_port none v = false
same_port (some have) v = int_eq have v

abbrev was_of : Option ℤ → ℤ
was_of none = pos 0
was_of (some have) = have

-- one slot of the loop over the explicit choices
unfoldable pub pin_slot : Map Project → Str → Str → Option ℤ → Pinned → Pinned
pin_slot others name key none st = st
pin_slot others name key (some now) st = if same_port (get st.ports key) now then st else record {
  ports = put st.ports key now;
  changed = true;
  moved =
      st.moved
      ++ record {
        key = key;
        was = was_of (get st.ports key);
        now = now;
        clashes_with = project_holding others name now;
      }
        ∷ [];
}

unfoldable pub pin_slots : Map Project → Str → Map ℤ → List Slot → Pinned → Pinned
unfolding pin_slot
pin_slots others name pinned [] st = st
pin_slots others name pinned (s ∷ ss) st =
    pin_slots others name pinned ss (pin_slot others name s.key (get pinned s.key) st)

-- the ports of every project but `name`
unfoldable pub others_ports : Map Project → Str → List ℤ
others_ports [] name = []
others_ports ((n, p) ∷ m) name =
    let rest = others_ports m name in if str_eq n name then rest else values p.ports ++ rest

module _ (in_use : ℕ → Bool) where
  -- the scan that passes over the ports in `used` and those that the probe reports
  unfoldable pub next_free : ℕ → List ℤ → ℕ → Option ℕ
  next_free zero used next = none
  next_free (suc fuel) used next = elim (contains used (pos next) || in_use next) [
    | true ↦ next_free fuel used (suc next)
    | false ↦ some next
  ]

  -- the loop over the sorted keys; its state is `p.Ports`, `used`, `next` and `changed`
  unfoldable pub assign : ℕ → List Str → Map ℤ → List ℤ → ℕ → Bool → Option (Map ℤ × Bool)
  assign fuel [] ports used next changed = some (ports, changed)
  assign fuel (k ∷ ks) ports used next changed = elim (get ports k) [
    | some _ ↦ assign fuel ks ports used next changed
    | none ↦ elim (next_free fuel used next) [
      | none ↦ none
      | some port ↦ assign fuel ks (put ports k (pos port)) (pos port ∷ used) (suc port) true
    ]
  ]

  abbrev store :
      Config
      → Str
      → Project
      → List PortPin
      → Option (Map ℤ × Bool)
      → Option (Config × Bool × List PortPin)
  store c name p moved none = none
  store c name p moved (some (ports, changed)) =
      some
        (record c { projects = put c.projects name (record p { ports = ports }) }, changed, moved)

  -- the body of `allocatePorts` for a project that is registered
  unfoldable pub allocate_for :
      ℕ → Config → Str → Project → List Slot → Map ℤ → Option (Config × Bool × List PortPin)
  allocate_for fuel c name p slots pinned =
      let want = wanted slots in
      let st = pin_slots c.projects name pinned slots (record {
        ports = prune want p.ports;
        changed = any_gone want (keys p.ports);
        moved = [];
      }) in
      store c name p st.moved (
        assign fuel (sort_strings (keys want)) st.ports
          (others_ports c.projects name ++ values st.ports) (effective_port_base c) st.changed)

  -- `allocatePorts`: the new registry, whether it changed, and the pins that moved a port. Only
  -- `AllocatePortsPinned` passes pins and reads the last part; `AllocatePorts` passes no pins.
  unfoldable pub allocate_ports :
      ℕ → Config → Str → List Slot → Map ℤ → Option (Config × Bool × List PortPin)
  unfolding allocate_for
  allocate_ports fuel c name slots pinned = elim (get c.projects name) [
    | none ↦ some (c, false, [])
    | some p ↦ allocate_for fuel c name p slots pinned
  ]
