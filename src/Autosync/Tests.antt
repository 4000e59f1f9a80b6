-- ===== src/Autosync/Tests.antt =====
-- A checkout on the branch `main` and one whose registry holds it, and the theorems at them.
use w17ctl.Base.{codes, str_eq, trim_space, true, false, none, some, [], ◌∷◌, ◌≢◌, arith, pos}
use w17ctl.Registry.{Config, Project}
use w17ctl.Autosync.{Checkout, on, git_current_branch, resolve_active_initiative}
use w17ctl.Autosync.Active.{IsActive, resolve_active_initiative-IsActive}

abbrev shop_entry : Project
shop_entry = record {
  path = codes "/src/shop";
  ports = [];
  active_preset = [];
  presets = [];
  autosync = some false;
  active_initiative = codes "billing";
  mode = [];
  remote = [];
  bind = [];
  public_ack = false;
}

abbrev one_project : Config
one_project = record {
  version = pos 1;
  port_base = pos 0;
  projects = (codes "shop", shop_entry) ∷ [];
  remotes = [];
  default_mode = [];
  default_remote = [];
}

-- The lock names a project that the registry does not have.
abbrev checkout : Checkout
checkout = record {
  root = codes "/src/shop";
  rev_parse = some (codes "main\n");
  head_resolves = true;
  symbolic_ref = some (codes "main\n");
  initiative_env = codes "refs/heads/other";
  registry = some one_project;
  lock_project = some (codes "store");
  lock_autosync = some (codes "true");
  last_live = none;
}

has_branch : git_current_branch checkout ≢ []
unfolding git_current_branch trim_space str_eq
has_branch h = absurd (ground arith)

resolve_active_initiative-IsActive_example :
    IsActive (on checkout) (resolve_active_initiative checkout)
resolve_active_initiative-IsActive_example = resolve_active_initiative-IsActive checkout
