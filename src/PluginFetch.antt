-- ===== src/PluginFetch.antt =====
-- internal/pluginfetch/pluginfetch.go: what may be fetched (`Source`), and what the fetched manifest
-- must say; cmd/plugin/gitspec.go is the child Spec.
mod Tests
pub mod Names
pub mod Spec
pub mod Pins
pub mod Signature
use w17ctl.Base.{
  ℕ, Str, codes, str_eq, has_prefix, split, join, length, leb, rev, Bool, true, false, not, ◌||◌,
  ◌&&◌, ◌==◌, Option, none, some, List, [], ◌∷◌, ◌++◌, is_nil, if◌then◌else◌,
}

pub record Source : Type 0 where
  pub repo : Str
  pub plugin : Str
  pub version : Str
  pub commit : Str

-- `Tag()`
unfoldable pub source_tag : Source → Str
source_tag s = if str_eq s.version [] then [] else s.plugin ++ codes "/" ++ s.version

-- `Ref()`
unfoldable pub source_ref : Source → Str
unfolding source_tag
source_ref s = if str_eq s.commit [] then source_tag s else s.commit

abbrev pub is_hex : ℕ → Bool
is_hex c = (leb 48 c && leb c 57) || (leb 97 c && leb c 102)

unfoldable pub all_hex : Str → Bool
all_hex [] = true
all_hex (c ∷ s) = is_hex c && all_hex s

-- `isFullSHA`, and `PinnedToCommit`
unfoldable pub is_full_sha : Str → Bool
unfolding all_hex
is_full_sha s = (length s == 40) && all_hex s

-- The elements that `path.Clean` keeps, the last one first: none for an empty one or `.`, and `..`
-- takes back the last one, where there is one that is no `..` itself; a rooted path has none above it.
unfoldable pub up : Bool → List Str → List Str
up rooted [] = if rooted then [] else codes ".." ∷ []
up rooted (o ∷ os) = if str_eq o (codes "..") then codes ".." ∷ o ∷ os else os

unfoldable pub step_to : Bool → Str → List Str → List Str
unfolding up
step_to rooted s out =
    if is_nil s || str_eq s (codes ".")
    then out
    else if str_eq s (codes "..")
    then up rooted out
    else s ∷ out

unfoldable pub kept : Bool → List Str → List Str → List Str
unfolding step_to
kept rooted [] out = out
kept rooted (s ∷ ss) out = kept rooted ss (step_to rooted s out)

abbrev pub or_dot : Str → Str
or_dot [] = codes "."
or_dot (c ∷ s) = c ∷ s

unfoldable pub reversed : List Str → List Str → List Str
reversed [] acc = acc
reversed (s ∷ ss) acc = reversed ss (s ∷ acc)

-- `path.Clean`
unfoldable pub path_clean : Str → Str
unfolding kept reversed
path_clean p =
    let rooted = has_prefix p (codes "/") in
    let text = join (reversed (kept rooted (split p 47) []) []) (codes "/") in
    or_dot (if rooted then 47 ∷ text else text)

-- what stands behind the last slash, of a text read from its end
unfoldable pub last_element : Str → Str → Str
last_element [] acc = acc
last_element (c ∷ s) acc = let rest = last_element s (c ∷ acc) in if c == 47 then acc else rest

unfoldable pub without_slashes : Str → Str
without_slashes [] = []
without_slashes (c ∷ s) = let rest = without_slashes s in if c == 47 then rest else c ∷ s

abbrev pub or_slash : Str → Str
or_slash [] = codes "/"
or_slash (c ∷ s) = c ∷ s

-- `path.Base`
unfoldable pub path_base : Str → Str
unfolding last_element without_slashes
path_base [] = codes "."
path_base (c ∷ p) = or_slash (last_element (without_slashes (rev (c ∷ p))) [])

-- the refusals of `validate`
pub data Invalid : Type 0 where
  no_repository : Invalid
  no_plugin : Invalid
  no_release : Str → Invalid
  both : Str → Str → Str → Invalid
  not_a_name : Str → Invalid
  not_full : Str → Invalid
  no_v : Str → Invalid

-- the conditions on the version or the commit
unfoldable pub validate_release : Source → Option Invalid
validate_release s =
    if not (str_eq s.commit [])
    then (if is_full_sha s.commit then none else some (Invalid.not_full s.commit))
    else if has_prefix s.version (codes "v")
    then none
    else some (Invalid.no_v s.version)

-- `validate()`
unfoldable pub validate : Source → Option Invalid
unfolding validate_release path_clean path_base
validate s =
    if str_eq s.repo []
    then some Invalid.no_repository
    else if str_eq s.plugin []
    then some Invalid.no_plugin
    else if str_eq s.version [] && str_eq s.commit []
    then some (Invalid.no_release s.plugin)
    else if not (str_eq s.version []) && not (str_eq s.commit [])
    then some (Invalid.both s.plugin s.version s.commit)
    else if not (str_eq (path_clean s.plugin) s.plugin)
        || not (str_eq (path_base s.plugin) s.plugin)
    then some (Invalid.not_a_name s.plugin)
    else validate_release s
