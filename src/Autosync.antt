-- ===== src/Autosync.antt =====
-- internal/autosync/autosync.go, and the git rules of internal/storageclient/storageclient.go that it
-- stands on: which initiative a checkout works on. What git, the environment, the lock, the console
-- and the snapshot store answer is the record `Checkout`.
mod Tests
pub mod Target
pub mod Active
use w17ctl.Base.{
  Str, codes, str_eq, trim_space, has_prefix, trim_prefix, Bool, true, false, not, ◌&&◌, ◌||◌,
  Option, none, some, [], ◌⊎◌, inl, inr, if◌then◌else◌,
}
use w17ctl.Registry.{Config, Project}
use w17ctl.Registry.Lookup.{find_by_path}
use w17ctl.Registry.Resolve.{Resolution, resolved, refused, resolve_project}

-- What the program asks of a checkout; an answer that failed is `none`.
pub record Checkout : Type 0 where
  pub root : Str
  pub rev_parse : Option Str
  pub head_resolves : Bool
  pub symbolic_ref : Option Str
  pub initiative_env : Str
  pub registry : Option Config
  pub lock_project : Option Str
  pub lock_autosync : Option Str
  pub last_live : Option Str

pub data TargetError : Type 0 where
  not_a_branch : Str → TargetError
  no_name : TargetError
  no_branch : TargetError

-- `realGitCurrentBranch`
unfoldable pub git_current_branch : Checkout → Str
git_current_branch c = elim c.rev_parse [
  | none ↦ []
  | some out ↦ if str_eq (trim_space out) (codes "HEAD") then [] else trim_space out
]

-- `realGitUnbornBranch`
unfoldable pub git_unborn_branch : Checkout → Str
git_unborn_branch c =
    if c.head_resolves then [] else elim c.symbolic_ref [ none ↦ [] | some out ↦ trim_space out ]

-- `IsTrunkBranch`
unfoldable pub is_trunk_branch : Str → Bool
is_trunk_branch name =
    str_eq name (codes "main") || str_eq name (codes "master") || str_eq name (codes "trunk")

abbrev branch_ref : Str → TargetError ⊎ Str
branch_ref v =
    if has_prefix v (codes "refs/")
    then inl (not_a_branch v)
    else if str_eq v []
    then inl no_name
    else inr v

-- `initiativeFromEnv`
unfoldable pub initiative_from_env : Str → TargetError ⊎ Str
initiative_from_env env =
    let v = trim_space env in
    if str_eq v [] then inr [] else branch_ref (trim_prefix v (codes "refs/heads/"))

-- a name, or the trunk's where it is reserved
unfoldable pub canonical : Str → Str × Bool
unfolding is_trunk_branch
canonical name = if is_trunk_branch name then (codes "trunk", true) else (name, false)

abbrev pub on_branch : Str → TargetError ⊎ Str × Bool
on_branch branch = if str_eq branch [] then inl no_branch else inr (canonical branch)

abbrev pub from_env : TargetError ⊎ Str → TargetError ⊎ Str × Bool
from_env (inl e) = inl e
from_env (inr branch) = on_branch branch

-- `ResolveInitiativeTarget(explicit)`
unfoldable pub resolve_initiative_target : Checkout → Str → TargetError ⊎ Str × Bool
unfolding git_current_branch initiative_from_env canonical
resolve_initiative_target c explicit =
    let branch = git_current_branch c in
    if not (str_eq explicit [])
    then inr (canonical explicit)
    else if str_eq branch []
    then from_env (initiative_from_env c.initiative_env)
    else on_branch branch

-- `EffectiveAutosync(lockAutosync, p)`
unfoldable pub effective_autosync : Option Bool → Option Project → Bool
effective_autosync lock none = elim lock [ none ↦ true | some b ↦ b ]
effective_autosync lock (some p) = elim p.autosync [
  | some b ↦ b
  | none ↦ elim lock [ none ↦ true | some b ↦ b ]
]

-- `lockAutosyncBestEffort`: the console's answer as a tri-state
unfoldable pub lock_autosync_best_effort : Checkout → Option Bool
lock_autosync_best_effort c = elim c.lock_autosync [
  | none ↦ none
  | some v ↦
      if str_eq v (codes "true")
      then some true
      else if str_eq v (codes "false")
      then some false
      else none
]

-- `lockProjectBestEffort`
unfoldable pub lock_project_best_effort : Checkout → Str
lock_project_best_effort c = elim c.lock_project [ none ↦ [] | some p ↦ p ]

abbrev pub second : Option (Str × Project) → Option Project
second none = none
second (some (n, p)) = some p

abbrev pub project_or_path : Config → Str → Resolution → Option Project
project_or_path cfg root (resolved n p message) = p
project_or_path cfg root (refused e) = second (find_by_path cfg root)

-- `DevProjectFor(root)`
unfoldable pub dev_project_for : Checkout → Option Project
unfolding lock_project_best_effort
dev_project_for c = elim c.registry [
  | none ↦ none
  | some cfg ↦ project_or_path cfg c.root (resolve_project cfg (lock_project_best_effort c) c.root)
]

-- `On(root)`
unfoldable pub on : Checkout → Bool
unfolding effective_autosync lock_autosync_best_effort dev_project_for
on c = effective_autosync (lock_autosync_best_effort c) (dev_project_for c)

-- Why autosync finds no initiative: an unborn branch, or none at all.
pub data ActiveError : Type 0 where
  unborn : Str → ActiveError
  detached : ActiveError

-- An initiative with the source of the branch to reconcile against, where there is one.
abbrev pub Active : Type 0
Active = ActiveError ⊎ Str × Option Str

unfoldable pub synced : Checkout → TargetError ⊎ Str × Bool → Active
unfolding git_unborn_branch
synced c (inl e) =
    let b = git_unborn_branch c in if str_eq b [] then inl detached else inl (unborn b)
synced c (inr (name, trunk)) = inr (name, some name)

abbrev pub activated : Option Project → Str
activated none = []
activated (some p) = p.active_initiative

unfoldable pub manual : Option Project → Active
manual p =
    let active = activated p in
    if str_eq active [] then inr (codes "default", none) else inr (active, some active)

-- `ResolveActiveInitiative(root)`
unfoldable pub resolve_active_initiative : Checkout → Active
unfolding on synced manual resolve_initiative_target
resolve_active_initiative c =
    if on c then synced c (resolve_initiative_target c []) else manual (dev_project_for c)

abbrev pub hint_for : Active → Option Str → Option (Str × Str)
hint_for (inl e) last = none
hint_for (inr (current, source)) none = none
hint_for (inr (current, source)) (some last) =
    if str_eq last [] || str_eq last current then none else some (last, current)

-- `StaleDBHint(root)`: the two initiatives of the hint, or no hint
unfoldable pub stale_db_hint : Checkout → Option (Str × Str)
unfolding resolve_active_initiative
stale_db_hint c = if not (on c) then none else hint_for (resolve_active_initiative c) c.last_live
