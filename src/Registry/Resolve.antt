-- ===== src/Registry/Resolve.antt =====
-- internal/devconfig/devconfig.go: `ResolveProject`.
use w17ctl.Base.{
  Str, str_eq, str_eq_iff, Bool, true, false, not, ◌&&◌, Option, none, some, List, [], ◌≡◌, refl,
  ◌≢◌, ◌⊎◌, inl, if◌then◌else◌, arith,
}
use w17ctl.Base.Assoc.{get}
use w17ctl.Registry.{Project, Config}
use w17ctl.Registry.Lookup.{
  find_by_path, duplicates_at, IsAt, find_by_path_lem, duplicates_at_complete,
}

-- The message beside an answer.
pub data Note : Type 0 where
  renamed : Str → Str → Note
  unregistered : Note

pub data ResolveError : Type 0 where
  several_names : List Str → ResolveError
  other_directory : Str → ResolveError
  ambiguous : List Str → ResolveError

-- The three results of the function, or its error. Without an entry the name may still be known.
pub data Resolution : Type 0 where
  resolved : Str → Option Project → Option Note → Resolution
  refused : ResolveError → Resolution

abbrev answer : Option (Str × Project) → Resolution
answer none = resolved [] none none
answer (some (n, p)) = resolved n (some p) none

-- the `switch` of a lock whose name the registry does not have
by_directory : Str → Option (List Str) → Option (Str × Project) → Resolution
by_directory lock (some names) only = refused (several_names names)
by_directory lock none (some (n, p)) = resolved n (some p) (some (renamed lock n))
by_directory lock none none = resolved lock none (some unregistered)

-- an entry under the lock's name must be this directory's
by_name : Str → Str → Project → Resolution
by_name lock abs p =
    if not (str_eq p.path []) && not (str_eq abs []) && not (str_eq p.path abs)
    then refused (other_directory p.path)
    else resolved lock (some p) none

abbrev named : Config → Str → Str → Option Project → Resolution
named c lock abs (some p) = by_name lock abs p
named c lock abs none = by_directory lock (duplicates_at c abs) (find_by_path c abs)

abbrev unnamed : Option (List Str) → Option (Str × Project) → Resolution
unnamed (some names) found = refused (ambiguous names)
unnamed none found = answer found

-- `ResolveProject(lockProject, absPath)`
unfoldable pub resolve_project : Config → Str → Str → Resolution
unfolding by_directory by_name
resolve_project c lock abs =
    if str_eq lock []
    then unnamed (duplicates_at c abs) (find_by_path c abs)
    else named c lock abs (get c.projects lock)

-- The project that a resolution names is this checkout's.
abbrev pub IsThisCheckout : Config → Str → Resolution → Type 0
IsThisCheckout c abs (resolved n (some p) message) =
    (get c.projects n ≡ some p) × ((p.path ≡ abs) ⊎ (p.path ≡ []) ⊎ (abs ≡ []))
IsThisCheckout c abs _ = Unit

by_name-IsThisCheckout :
    (c : Config) (lock abs : Str) (p : Project)
    → get c.projects lock ≡ some p
    → IsThisCheckout c abs (by_name lock abs p)
unfolding by_name
by_name-IsThisCheckout c lock abs p h =
    ground (arith, str_eq_iff p.path [], str_eq_iff abs [], str_eq_iff p.path abs)

found_here :
    (c : Config) (abs n : Str) (p : Project)
    → find_by_path c abs ≡ some (n, p)
    → IsAt c.projects abs n p
found_here c abs n p h = ((find_by_path_lem c abs).0 n p h).0

by_directory-IsThisCheckout :
    (c : Config) (lock abs : Str) (d : Option (List Str)) (f : Option (Str × Project))
    → find_by_path c abs ≡ f
    → IsThisCheckout c abs (by_directory lock d f)
unfolding by_directory
by_directory-IsThisCheckout c lock abs (some names) f e = tt
by_directory-IsThisCheckout c lock abs none none e = tt
by_directory-IsThisCheckout c lock abs none (some (n, p)) e =
    let (at, here) = found_here c abs n p e in (at, inl here)

unnamed-IsThisCheckout :
    (c : Config) (abs : Str) (d : Option (List Str)) (f : Option (Str × Project))
    → find_by_path c abs ≡ f
    → IsThisCheckout c abs (unnamed d f)
unnamed-IsThisCheckout c abs (some names) f e = tt
unnamed-IsThisCheckout c abs none none e = tt
unnamed-IsThisCheckout c abs none (some (n, p)) e =
    let (at, here) = found_here c abs n p e in (at, inl here)

-- Whatever the lock says, a resolution that hands back a project hands back an entry of the registry
-- whose directory is this checkout's, unless that entry or the caller names no directory at all: the
-- ports of another checkout are never returned.
pub resolve_project-IsThisCheckout :
    (c : Config) (lock abs : Str) → IsThisCheckout c abs (resolve_project c lock abs)
unfolding resolve_project
resolve_project-IsThisCheckout c lock abs = split (str_eq lock []) (get c.projects lock) refl
  where
    split :
        (b : Bool) (o : Option Project)
        → get c.projects lock ≡ o
        → IsThisCheckout c abs
            (if b then unnamed (duplicates_at c abs) (find_by_path c abs) else named c lock abs o)
    split true o e = unnamed-IsThisCheckout c abs (duplicates_at c abs) (find_by_path c abs) refl
    split false none e =
        by_directory-IsThisCheckout c lock abs (duplicates_at c abs) (find_by_path c abs) refl
    split false (some p) e = by_name-IsThisCheckout c lock abs p e

abbrev pub IsRefused : Resolution → Type 0
IsRefused (refused e) = Unit
IsRefused (resolved n p message) = ⊥

module _ (c : Config) (lock abs n j : Str) (p q : Project) where
  -- When two entries under different names claim this directory and the lock does not name a
  -- registered project, the question has two answers and the resolution is refused.
  pub resolve_project_ambiguous :
      abs ≢ []
      → n ≢ j
      → IsAt c.projects abs n p
      → IsAt c.projects abs j q
      → get c.projects lock ≡ none
      → IsRefused (resolve_project c lock abs)
  unfolding resolve_project by_directory
  resolve_project_ambiguous ne d at at' e =
      ground (arith, e, duplicates_at_complete c abs n j p q ne d at at')

-- A lock that names an entry of this very directory is believed, whatever else the registry holds.
pub resolve_project_by_lock :
    (c : Config) (lock abs : Str) (p : Project)
    → lock ≢ []
    → get c.projects lock ≡ some p
    → p.path ≡ abs
    → resolve_project c lock abs ≡ resolved lock (some p) none
unfolding resolve_project by_name
resolve_project_by_lock c lock abs p ne e here =
    ground (arith, str_eq_iff lock [], str_eq_iff p.path abs)
