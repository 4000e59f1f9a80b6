-- ===== src/Autosync/Active.antt =====
-- internal/autosync/autosync.go: the active initiative, the project of a checkout, and the hint.
use w17ctl.Base.{
  Str, codes, str_eq, str_eq_iff, Bool, true, false, Option, none, some, [], ◌≡◌, refl, ◌≢◌, ◌⊎◌,
  inl, inr, if◌then◌else◌, arith,
}
use w17ctl.Base.Assoc.{get}
use w17ctl.Registry.{Config, Project}
use w17ctl.Registry.Lookup.{find_by_path, find_by_path_lem}
use w17ctl.Registry.Resolve.{
  Resolution, resolved, refused, resolve_project, IsThisCheckout, resolve_project-IsThisCheckout,
}
use w17ctl.Autosync.{
  Checkout, TargetError, Active, on, synced, manual, activated, resolve_initiative_target,
  resolve_active_initiative, dev_project_for, project_or_path, lock_project_best_effort, second,
  detached, unborn, git_unborn_branch,
}
use w17ctl.Autosync.Target.{IsCanonical, IsCanonicalTarget, resolve_initiative_target-IsCanonical}

-- With autosync on the source of the branch is the initiative itself; with it off there is a source
-- only beside an activated initiative. No initiative has an empty name, and only autosync fails.
abbrev pub IsActive : Bool → Active → Type 0
IsActive auto (inl e) = auto ≡ true
IsActive auto (inr (name, none)) = (auto ≡ false) × (name ≡ codes "default")
IsActive auto (inr (name, some source)) = (source ≡ name) × (name ≢ [])

trunk_or_named : (name : Str) (b : Bool) → IsCanonical name b → name ≢ []
trunk_or_named name true e q = absurd (ground arith)
trunk_or_named name false (ne, _) q = ne q

synced-IsActive :
    (c : Checkout) (t : TargetError ⊎ Str × Bool) → IsCanonicalTarget t → IsActive true (synced c t)
unfolding synced
synced-IsActive c (inl e) h = split (str_eq (git_unborn_branch c) [])
  where
    split :
        (b : Bool) → IsActive true (if b then inl detached else inl (unborn (git_unborn_branch c)))
    split true = refl
    split false = refl
synced-IsActive c (inr (name, b)) h = (refl, trunk_or_named name b h)

manual-IsActive : (p : Option Project) → IsActive false (manual p)
unfolding manual
manual-IsActive p = split (str_eq (activated p) []) refl
  where
    split :
        (b : Bool)
        → str_eq (activated p) [] ≡ b
        → IsActive false
            (if b then inr (codes "default", none) else inr (activated p, some (activated p)))
    split true e = (refl, refl)
    split false e = (refl, λ q. ground (arith, str_eq_iff (activated p) []))

-- The active initiative of a checkout always has a name; the branch to reconcile against is that same
-- name, and is missing only for the fixed `default` with autosync off; with autosync off the question
-- never fails.
pub resolve_active_initiative-IsActive :
    (c : Checkout) → IsActive (on c) (resolve_active_initiative c)
unfolding resolve_active_initiative
resolve_active_initiative-IsActive c = split (on c)
  where
    split :
        (b : Bool)
        → IsActive b
            (if b then synced c (resolve_initiative_target c []) else manual (dev_project_for c))
    split true =
        synced-IsActive c (resolve_initiative_target c [])
          (resolve_initiative_target-IsCanonical c [])
    split false = manual-IsActive (dev_project_for c)

-- An entry of the registry whose directory is the given one, where both name one.
abbrev pub IsOwn : Config → Str → Option Project → Type 0
IsOwn cfg root none = Unit
IsOwn cfg root (some p) =
    (n : Str) × (get cfg.projects n ≡ some p) × ((p.path ≡ root) ⊎ (p.path ≡ []) ⊎ (root ≡ []))

second-IsOwn :
    (cfg : Config) (root : Str) (f : Option (Str × Project))
    → find_by_path cfg root ≡ f
    → IsOwn cfg root (second f)
second-IsOwn cfg root none e = tt
second-IsOwn cfg root (some (n, p)) e =
    let ((at, here), _) = (find_by_path_lem cfg root).0 n p e in (n, at, inl here)

project_or_path-IsOwn :
    (cfg : Config) (root : Str) (r : Resolution)
    → IsThisCheckout cfg root r
    → IsOwn cfg root (project_or_path cfg root r)
project_or_path-IsOwn cfg root (refused e) h = second-IsOwn cfg root (find_by_path cfg root) refl
project_or_path-IsOwn cfg root (resolved n none message) h = tt
project_or_path-IsOwn cfg root (resolved n (some p) message) (at, here) = (n, at, here)

-- With a registry that can be read, the project that decides a checkout's mode is an entry of the registry for that very directory
-- (unless one of the two names none), also where the strict resolution refuses.
pub dev_project_for-IsOwn :
    (c : Checkout) (cfg : Config) → c.registry ≡ some cfg → IsOwn cfg c.root (dev_project_for c)
unfolding dev_project_for
dev_project_for-IsOwn c cfg e = rw e (
    project_or_path-IsOwn cfg c.root (resolve_project cfg (lock_project_best_effort c) c.root)
      (resolve_project-IsThisCheckout cfg (lock_project_best_effort c) c.root))
