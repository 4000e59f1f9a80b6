-- ===== src/Guidestamp.antt =====
-- internal/guidestamp/guidestamp.go: the version that AGENTS.md carries on its first line. `none` is a
-- slice out of bounds, where the program panics; the running version is an argument.
mod Tests
pub mod Reading
use w17ctl.Base.{
  ℕ, zero, suc, ◌-◌, ◌+◌, Str, codes, str_eq, has_prefix, has_suffix, cut, drop, trim_space, length,
  leb, Ordering, Bool, true, false, not, ◌||◌, Option, none, some, List, [], ◌∷◌, ◌++◌,
  if◌then◌else◌,
}
use w17ctl.Versions.{compare_versions}

abbrev pub prefix : Str
prefix = codes "<!-- w17ctl-guide "

abbrev pub suffix : Str
suffix = codes " -->"

abbrev pub or_dev : Str → Str
or_dev v = if str_eq v [] then codes "dev" else v

-- `Stamp(body)`
unfoldable pub stamp : Str → Str → Str
stamp version body = prefix ++ or_dev version ++ suffix ++ 10 ∷ body

unfoldable pub take : ℕ → Str → Str
take zero s = []
take (suc n) [] = []
take (suc n) (c ∷ s) = c ∷ take n s

-- `s[from:to]`
unfoldable pub slice : ℕ → ℕ → Str → Option Str
unfolding take
slice from to s = if leb from to then some (take (to - from) (drop from s)) else none

abbrev pub trimmed : Option Str → Option Str
trimmed none = none
trimmed (some s) = some (trim_space s)

-- what `VersionOf` does with the trimmed first line; a length is no less than the suffix's where it
-- ends with it
unfoldable pub version_in : Str → Option Str
unfolding slice
version_in s =
    if not (has_prefix s prefix) || not (has_suffix s suffix)
    then some []
    else trimmed (slice (length prefix) (length s - length suffix) s)

-- `VersionOf(body)`
unfoldable pub version_of : Str → Option Str
unfolding version_in
version_of body = version_in (trim_space (cut body 10).0)

pub data Relation : Type 0 where
  unknown current stale newer : Relation

abbrev pub by_order : Ordering → Relation
by_order Ordering.eq = current
by_order Ordering.lt = stale
by_order Ordering.gt = newer

-- `Staleness`, for the version that was read
unfoldable pub relation : Str → Str → Relation
relation was mine =
    if str_eq was [] || str_eq was (codes "dev") || str_eq mine (codes "dev")
    then unknown
    else by_order (compare_versions was mine)

-- `Staleness(onDisk)`
unfoldable pub staleness : Str → Str → Option (Relation × Str × Str)
unfolding relation version_of
staleness version on_disk =
    let mine = or_dev version in
    elim (version_of on_disk) [ none ↦ none | some was ↦ some (relation was mine, was, mine) ]
