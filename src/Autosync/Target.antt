-- ===== src/Autosync/Target.antt =====
-- internal/storageclient/storageclient.go: `ResolveInitiativeTarget`, the names it can give.
use w17ctl.Base.{
  Str, codes, str_eq, str_eq_iff, Bool, true, false, not, [], ◌≡◌, refl, ◌≢◌, ◌⊎◌, inl, inr,
  if◌then◌else◌, arith,
}
use w17ctl.Autosync.{
  Checkout, TargetError, no_branch, is_trunk_branch, canonical, on_branch, from_env,
  initiative_from_env, git_current_branch, resolve_initiative_target,
}

-- A name that is not empty, and that is a reserved one only as the canonical `trunk`.
abbrev pub IsCanonical : Str → Bool → Type 0
IsCanonical name true = name ≡ codes "trunk"
IsCanonical name false = (name ≢ []) × (is_trunk_branch name ≡ false)

abbrev pub IsCanonicalTarget : TargetError ⊎ Str × Bool → Type 0
IsCanonicalTarget (inl e) = Unit
IsCanonicalTarget (inr (name, trunk)) = IsCanonical name trunk

canonical-IsCanonical : (name : Str) → name ≢ [] → IsCanonicalTarget (inr (canonical name))
unfolding canonical
canonical-IsCanonical name ne = split (is_trunk_branch name) refl
  where
    split :
        (b : Bool)
        → is_trunk_branch name ≡ b
        → IsCanonicalTarget (inr (if b then (codes "trunk", true) else (name, false)))
    split true e = refl
    split false e = (ne, e)

on_branch-IsCanonical : (branch : Str) → IsCanonicalTarget (on_branch branch)
on_branch-IsCanonical branch = split (str_eq branch []) refl
  where
    split :
        (b : Bool)
        → str_eq branch [] ≡ b
        → IsCanonicalTarget (if b then inl no_branch else inr (canonical branch))
    split true e = tt
    split false e = canonical-IsCanonical branch (λ q. ground (arith, str_eq_iff branch []))

from_env-IsCanonical : (r : TargetError ⊎ Str) → IsCanonicalTarget (from_env r)
from_env-IsCanonical (inl e) = tt
from_env-IsCanonical (inr branch) = on_branch-IsCanonical branch

-- However the initiative is found (named explicitly, from git's branch, or from the environment), its
-- name is not empty, and each of the reserved names becomes the one canonical trunk.
pub resolve_initiative_target-IsCanonical :
    (c : Checkout) (explicit : Str) → IsCanonicalTarget (resolve_initiative_target c explicit)
unfolding resolve_initiative_target
resolve_initiative_target-IsCanonical c explicit =
    split (str_eq explicit []) (str_eq (git_current_branch c) []) refl
  where
    split :
        (a b : Bool)
        → str_eq explicit [] ≡ a
        → IsCanonicalTarget (
            if not a
            then inr (canonical explicit)
            else if b
            then from_env (initiative_from_env c.initiative_env)
            else on_branch (git_current_branch c))
    split false b e = canonical-IsCanonical explicit (λ q. ground (arith, str_eq_iff explicit []))
    split true true e = from_env-IsCanonical (initiative_from_env c.initiative_env)
    split true false e = on_branch-IsCanonical (git_current_branch c)

-- Git's branch is preferred to the environment: with a branch checked out and no explicit name, the
-- variable's value makes no difference.
pub resolve_initiative_target_ignores :
    (c : Checkout) (env : Str)
    → git_current_branch c ≢ []
    → resolve_initiative_target (record c { initiative_env = env }) []
      ≡ resolve_initiative_target c []
unfolding resolve_initiative_target git_current_branch
resolve_initiative_target_ignores c env ne = ground (arith, str_eq_iff (git_current_branch c) [])
