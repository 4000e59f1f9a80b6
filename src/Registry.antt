-- ===== src/Registry.antt =====
-- internal/devconfig/devconfig.go: the records of `~/.w17/config.yaml`. A nil map and an empty one
-- read alike and every writer allocates first, so both are the empty `Map`; the entries of
-- `Projects` are the pointers that `normalize` could dereference, that is, not nil.
mod Tests
pub mod Presets
pub mod Lookup
pub mod Names
pub mod Resolve
pub mod Modes
pub mod Remotes
pub mod Ports
pub mod Pins
pub mod UpEnv
use w17ctl.Base.{ℕ, zero, suc, Str, ℤ, pos, negsuc, Bool, Option, List, if◌then◌else◌, int_eq}
use w17ctl.Base.Assoc.{Map}

pub record Preset : Type 0 where
  pub services : List Str
  pub env : Map Str

pub record Remote : Type 0 where
  pub ssh : Str
  pub path : Str

pub record Project : Type 0 where
  pub path : Str
  pub ports : Map ℤ
  pub active_preset : Str
  pub presets : Map Preset
  pub autosync : Option Bool
  pub active_initiative : Str
  pub mode : Str
  pub remote : Str
  pub bind : Str
  pub public_ack : Bool

pub record Config : Type 0 where
  pub version : ℤ
  pub port_base : ℤ
  pub projects : Map Project
  pub remotes : Map Remote
  pub default_mode : Str
  pub default_remote : Str

abbrev pub default_port_base : ℕ
default_port_base = 14000

-- `normalize`; the maps need no filling here
unfoldable pub normalize : Config → Config
normalize c = if int_eq c.version (pos 0) then record c { version = pos 1 } else c

abbrev base_of : ℤ → ℕ
base_of (pos zero) = default_port_base
base_of (pos (suc n)) = suc n
base_of (negsuc _) = default_port_base

-- `EffectivePortBase`
unfoldable pub effective_port_base : Config → ℕ
effective_port_base c = base_of c.port_base
