-- ===== src/Registry/Remotes.antt =====
-- internal/devconfig/remote.go: `SetRemote` and `DeleteRemote`, which cascades.
use w17ctl.Base.{
  Str, str_eq, str_eq_iff, str_eq_self, Bool, true, false, Option, none, some, [], ◌∷◌, ◌≡◌, refl,
  ◌≢◌, ◌⊎◌, if◌then◌else◌, is_some, arith,
}
use w17ctl.Base.Assoc.{Map, get, put, delete, get-put, get-delete}
use w17ctl.Registry.{Project, Config, Remote}
use w17ctl.Registry.Lookup.{find_by_path, find_by_path_lem}
use w17ctl.Registry.Modes.{err, unknown_remote, resolve_remote}

unfoldable pub set_remote : Config → Str → Remote → Config
set_remote c name r = record c { remotes = put c.remotes name r }

-- what the loop over the projects does to one of them
unpin : Str → Project → Project
unpin name p = if str_eq p.remote name then record p { remote = [] } else p

unpin_all : Str → Map Project → Map Project
unfolding unpin
unpin_all name [] = []
unpin_all name ((k, p) ∷ m) = (k, unpin name p) ∷ unpin_all name m

without_remote : Config → Str → Config
unfolding unpin_all
without_remote c name = record c {
  remotes = delete c.remotes name;
  default_remote = if str_eq c.default_remote name then [] else c.default_remote;
  projects = unpin_all name c.projects;
}

unfoldable pub delete_remote : Config → Str → Config × Bool
unfolding without_remote
delete_remote c name =
    if is_some (get c.remotes name) then (without_remote c name, true) else (c, false)

-- A name that points at a registered remote, or at none.
abbrev pub IsKnown : Map Remote → Str → Type 0
IsKnown m name = (name ≡ []) ⊎ (is_some (get m name) ≡ true)

-- No pin and no default points at a remote that is not registered.
abbrev pub HasNoDangling : Config → Type 0
HasNoDangling c =
    IsKnown c.remotes c.default_remote
    × ((n : Str) (p : Project) → get c.projects n ≡ some p → IsKnown c.remotes p.remote)

-- Registering a remote leaves no pin dangling.
pub set_remote-HasNoDangling :
    (c : Config) (name : Str) (r : Remote) → HasNoDangling c → HasNoDangling (set_remote c name r)
unfolding set_remote
set_remote-HasNoDangling c name r (d, h) = (
  ground (arith, get-put c.remotes name c.default_remote r),
  λ n p e. ground (arith, get-put c.remotes name p.remote r, h n p),
)

abbrev unpinned : Str → Option Project → Option Project
unpinned name none = none
unpinned name (some p) = some (if str_eq p.remote name then record p { remote = [] } else p)

get-unpin_all :
    (name : Str) (m : Map Project) (n : Str) → get (unpin_all name m) n ≡ unpinned name (get m n)
unfolding unpin_all unpin get
get-unpin_all name [] n = refl
get-unpin_all name ((k, p) ∷ m) n = ground (arith, get-unpin_all name m n)

unpin-IsKnown :
    (m : Map Remote) (name : Str) (o : Option Project) (p : Project)
    → unpinned name o ≡ some p
    → ((q : Project) → o ≡ some q → IsKnown m q.remote)
    → IsKnown (delete m name) p.remote
unpin-IsKnown m name none p e h = cc
unpin-IsKnown m name (some q) p e h = ground (
  arith,
  h q refl,
  str_eq_iff q.remote name,
  str_eq_iff name q.remote,
  get-delete m name q.remote,
)

-- Deleting a remote clears the default and every project's pin that named it, so that no pin dangles
-- afterwards.
pub delete_remote-HasNoDangling :
    (c : Config) (name : Str) → HasNoDangling c → HasNoDangling (delete_remote c name).0
unfolding delete_remote
delete_remote-HasNoDangling c name h = split (is_some (get c.remotes name))
  where
    kept :
        (n : Str) (p : Project)
        → get (unpin_all name c.projects) n ≡ some p
        → IsKnown (delete c.remotes name) p.remote
    kept n p e =
        unpin-IsKnown c.remotes name (get c.projects n) p
          (rw (get-unpin_all name c.projects n) at e) (h.1 n)

    split :
        (b : Bool)
        → HasNoDangling
            (if◌then◌else◌ {A = Config × Bool} b (without_remote c name, true) (c, false)).0
    split true = (
      ground (
        arith,
        h.0,
        str_eq_iff c.default_remote name,
        str_eq_iff name c.default_remote,
        get-delete c.remotes name c.default_remote,
      ),
      kept,
    )
    split false = h

-- Resolving the remote of a checkout in a registry with no dangling pin, without a flag, never fails
-- on an unknown name: it finds a registered remote, or reports that none is configured.
pub resolve_remote_known :
    (c : Config) (abs name : Str)
    → HasNoDangling c
    → resolve_remote c abs [] ≢ err (unknown_remote name)
unfolding resolve_remote
resolve_remote_known c abs name h = split (find_by_path c abs) refl
  where
    split :
        (o : Option (Str × Project))
        → find_by_path c abs ≡ o
        → resolve_remote c abs [] ≢ err (unknown_remote name)
    split none e k = ground (arith, str_eq_self [], h.0, str_eq_iff c.default_remote [])
    split (some (n, p)) e k =
        let (at, _) = (find_by_path_lem c abs).0 n p e in
        ground (
          arith,
          str_eq_self [],
          h.0,
          h.1 n p at.0,
          str_eq_iff c.default_remote [],
          str_eq_iff p.remote [],
        )
