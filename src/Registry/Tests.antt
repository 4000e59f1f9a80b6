-- ===== src/Registry/Tests.antt =====
-- A small registry, and the theorems at it.
use w17ctl.Base.{
  ℕ, Str, codes, str_eq, str_eq_iff, str_compare, Bool, true, false, Option, none, some, List, [],
  ◌∷◌, ◌≡◌, refl, inl, pos, int_eq, is_some, arith, atoi, trim_space, trim_prefix, has_prefix, cut,
}
use w17ctl.Base.Assoc.{get, put, keys, values, keep_keys}
use w17ctl.Base.Sort.{sort_strings, sort, insert, last}
use w17ctl.Registry.{Preset, Project, Config, effective_port_base}
use w17ctl.Registry.Resolve.{resolve_project, IsThisCheckout, resolve_project-IsThisCheckout}
use w17ctl.Registry.Remotes.{HasNoDangling}
use w17ctl.Registry.Ports.{
  Slot, allocate_ports, allocate_for, wanted, contains, next_free, assign, prune, any_gone,
  pin_slots, pin_slot, others_ports,
}
use w17ctl.Registry.Ports.Pinning.{IsWanted}
use w17ctl.Registry.Ports.Allocate.{
  IsAllocated, allocate_ports_lem, IsClashFree, allocate_ports-IsClashFree,
}
use w17ctl.Registry.Ports.Ending.{allocate_ports_stuck, allocate_ports_total, registry_ports}
use w17ctl.Registry.Pins.{pinned_ports, port_of, chosen, read_dot_env, read_line, unquote}

abbrev fast : Preset
fast = record { services = codes "web" ∷ []; env = (codes "A", codes "1") ∷ [] }

abbrev shop : Project
shop = record {
  path = codes "/shop";
  ports = (codes "WEB", pos 14000) ∷ [];
  active_preset = codes "fast";
  presets = (codes "fast", fast) ∷ [];
  autosync = none;
  active_initiative = [];
  mode = [];
  remote = codes "box";
  bind = [];
  public_ack = false;
}

abbrev blog : Project
blog = record shop {
  path = codes "/blog";
  ports = [];
  active_preset = [];
  presets = [];
  remote = [];
}

abbrev registry : Config
registry = record {
  version = pos 1;
  port_base = pos 0;
  projects = (codes "shop", shop) ∷ (codes "blog", blog) ∷ [];
  remotes = (codes "box", record { ssh = codes "me@box"; path = codes "/srv" }) ∷ [];
  default_mode = [];
  default_remote = [];
}

abbrev slot : Str → Slot
slot k = record {
  key = k;
  env_var = k;
  default = pos 0;
  container = pos 0;
  service = [];
  source = [];
}

abbrev blog_slots : List Slot
blog_slots = slot (codes "WEB") ∷ slot (codes "DB") ∷ []

-- A machine with one port bound.
abbrev bound : ℕ → Bool
bound n = int_eq (pos n) (pos 14001)

abbrev allocated : Config
allocated = record registry {
  projects =
      (codes "shop", shop)
      ∷ (
        codes "blog",
        record blog { ports = (codes "DB", pos 14002) ∷ (codes "WEB", pos 14003) ∷ [] },
      )
      ∷ [];
}

-- The port of the other project and the bound one are passed over; the keys are served in order.
blog_allocated :
    allocate_ports bound 10 registry (codes "blog") blog_slots [] ≡ some (allocated, true, [])
unfolding allocate_ports allocate_for wanted contains next_free assign prune any_gone pin_slots
    pin_slot others_ports get put keys values keep_keys sort_strings sort insert str_eq str_compare
    effective_port_base
blog_allocated = refl

blog_registered : get registry.projects (codes "blog") ≡ some blog
unfolding get str_eq
blog_registered = refl

allocate_ports_lem_example : IsAllocated bound registry allocated (codes "blog") blog blog_slots []
allocate_ports_lem_example =
    allocate_ports_lem bound 10 registry (codes "blog") blog blog_slots [] blog_registered allocated
      true [] blog_allocated

clash_free : IsClashFree registry
unfolding get
clash_free n j p q k l v en ej hp hq = ground (
  arith,
  str_eq_iff (codes "shop") n,
  str_eq_iff (codes "blog") n,
  str_eq_iff (codes "shop") j,
  str_eq_iff (codes "blog") j,
  str_eq_iff (codes "WEB") k,
  str_eq_iff (codes "WEB") l,
)

allocate_ports-IsClashFree_example : IsClashFree allocated
allocate_ports-IsClashFree_example =
    allocate_ports-IsClashFree bound 10 registry (codes "blog") blog_slots allocated true []
      clash_free blog_allocated

allocate_ports_total_example :
    is_some (allocate_ports bound 10 registry (codes "blog") blog_slots []) ≡ true
allocate_ports_total_example =
    allocate_ports_total bound 10 registry (codes "blog") blog_slots [] 14002
      (λ n a b. unfold registry_ports contains values in (ground arith, ground arith, ground arith))
      (unfold effective_port_base in omega arith) (unfold effective_port_base in omega arith)

-- A base that no probe can bind.
abbrev high : Config
high = record registry { port_base = pos 70000 }

wants_db : IsWanted blog_slots (codes "DB")
unfolding wanted put get str_eq
wants_db = refl

allocate_ports_stuck_example :
    allocate_ports (λ n. true) 500 high (codes "blog") blog_slots [] ≡ none
allocate_ports_stuck_example =
    allocate_ports_stuck (λ n. true) 500 high (codes "blog") blog blog_slots [] (codes "DB")
      blog_registered (λ n le. refl) wants_db (unfold get in refl) (unfold get in refl)

-- The same registry, met in the other order.
abbrev turned : Config
turned = record registry { projects = (codes "blog", blog) ∷ (codes "shop", shop) ∷ [] }

resolve_project_example :
    IsThisCheckout registry
      (codes "/blog")
      (resolve_project registry (codes "shop") (codes "/blog"))
resolve_project_example = resolve_project-IsThisCheckout registry (codes "shop") (codes "/blog")

-- Two entries on one directory.
abbrev doubled : Config
doubled = record registry { projects = (codes "shop", shop) ∷ (codes "mall", shop) ∷ [] }

no_dangling : HasNoDangling registry
unfolding get
no_dangling = (
  inl refl,
  λ n p e. ground (
    arith,
    str_eq_iff (codes "shop") n,
    str_eq_iff (codes "blog") n,
    str_eq_iff (codes "box") p.remote,
  ),
)

abbrev dot_env : List Str
dot_env = codes "# ports" ∷ codes "export WEB=\"16720\" " ∷ codes "DB=x" ∷ []

no_env : Str → Option Str
no_env k = none

pins_read : pinned_ports no_env dot_env blog_slots ≡ (codes "WEB", pos 16720) ∷ []
unfolding pinned_ports read_dot_env read_line unquote port_of chosen no_env put get str_eq
    trim_space trim_prefix has_prefix cut atoi last
pins_read = refl
