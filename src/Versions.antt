-- ===== src/Versions.antt =====
-- internal/pluginfetch/version.go: the versions of a plugin, read from the tags of a repository. What
-- `git ls-remote --tags` prints is a parameter: its text, or its failure.
pub mod Order
pub mod Latest
pub mod Published
pub mod Candidates
mod Tests
use w17ctl.Base.{
  ℕ, zero, suc, ◌+◌, ◌-◌, Str, codes, str_eq, str_compare, trim_space, trim_prefix, trim_suffix,
  has_prefix, has_suffix, has_byte, cut, split, ℤ, pos, negsuc, int_compare, atoi, Ordering, Bool,
  true, false, not, ◌&&◌, ◌||◌, Option, none, some, List, [], ◌∷◌, ◌++◌, if◌then◌else◌, is_some,
  leb, ◌==◌,
}
use w17ctl.Base.Assoc.{Map, get, put}
use w17ctl.Base.Order.{then_by, list_compare}
use w17ctl.Base.Sort.{sort, sort_strings, last}

abbrev minus_one : ℤ
minus_one = negsuc 0

-- The first three parts as numbers; missing ones are -1, and `none` is a part that is no number.
pub numbers : ℕ → List Str → Option (List ℤ)
numbers zero parts = some []
numbers (suc n) [] = elim (numbers n []) [ none ↦ none | some ns ↦ some (minus_one ∷ ns) ]
numbers (suc n) (p ∷ ps) = elim (atoi p) [
  | none ↦ none
  | some k ↦ elim (numbers n ps) [ none ↦ none | some ns ↦ some (k ∷ ns) ]
]

abbrev pub triple_of : Option (List ℤ) → List ℤ
triple_of none = minus_one ∷ minus_one ∷ minus_one ∷ []
triple_of (some ns) = ns

-- `splitVersion`: the numeric triple and the prerelease
unfoldable pub split_version : Str → List ℤ × Str
unfolding numbers
split_version v =
    let (core, pre, _) = cut (trim_prefix (trim_space v) (codes "v")) b'-' in
    (triple_of (numbers 3 (split core b'.')), pre)

-- one round of the loop of `comparePrerelease`: a numeric identifier is below any other
abbrev compare_parsed : Option ℤ → Option ℤ → Str → Str → Ordering
compare_parsed (some m) (some n) a b = int_compare m n
compare_parsed (some m) none a b = Ordering.lt
compare_parsed none (some n) a b = Ordering.gt
compare_parsed none none a b = str_compare a b

unfoldable pub compare_identifier : Str → Str → Ordering
compare_identifier a b = compare_parsed (atoi a) (atoi b) a b

-- `comparePrerelease`: part by part, then the longer list
unfoldable pub compare_prerelease : Str → Str → Ordering
compare_prerelease a b = list_compare compare_identifier (split a b'.') (split b b'.')

-- the `switch` of `CompareVersions`: the release comes after its candidates
unfoldable pub compare_tail : Str → Str → Ordering
compare_tail [] [] = Ordering.eq
compare_tail [] (_ ∷ _) = Ordering.gt
compare_tail (_ ∷ _) [] = Ordering.lt
compare_tail (c ∷ a) (d ∷ b) = compare_prerelease (c ∷ a) (d ∷ b)

-- `CompareVersions`
unfoldable pub compare_versions : Str → Str → Ordering
compare_versions a b =
    let (na, pa) = split_version a in
    let (nb, pb) = split_version b in then_by (list_compare int_compare na nb) (compare_tail pa pb)

abbrev pub tag_prefix : Str → Str
tag_prefix plugin = codes "refs/tags/" ++ plugin ++ codes "/"

pub contains_str : List Str → Str → Bool
contains_str [] v = false
contains_str (w ∷ ws) v = str_eq w v || contains_str ws v

-- the version that one line names, or nothing
unfoldable pub ref_version : Str → Str → Option Str
ref_version plugin line =
    let (_, found, ok) = cut (trim_space line) 9 in
    let ref = trim_suffix found (codes "^{}") in
    let v = trim_prefix ref (tag_prefix plugin) in
    if not ok || str_eq v ref || not (has_prefix v (codes "v")) then none else some v

abbrev pub add_version : Option Str → List Str → List Str
add_version none seen = seen
add_version (some v) seen = if contains_str seen v then seen else seen ++ v ∷ []

pub ref_lines : Str → List Str → List Str → List Str
ref_lines plugin [] versions = versions
ref_lines plugin (l ∷ ls) versions =
    ref_lines plugin ls (add_version (ref_version plugin l) versions)

-- `parseRefLines`; the set `seen` holds the versions collected so far
unfoldable pub parse_ref_lines : Str → Str → List Str
unfolding ref_lines
parse_ref_lines out plugin = ref_lines plugin (split out 10) []

pub data VersionError : Type 0 where
  missing_argument : VersionError
  listing_failed : Str → VersionError
  no_releases : VersionError

pub data Answer : Type 0 where
  found : Str → Answer
  failed : VersionError → Answer

-- What `git ls-remote` answers.
pub data Listing : Type 0 where
  printed : Str → Listing
  broken : Str → Listing

abbrev answer_of : Option Str → Answer
answer_of none = failed no_releases
answer_of (some v) = found v

abbrev from_listing : Listing → Str → Answer
from_listing (broken e) plugin = failed (listing_failed e)
from_listing (printed out) plugin =
    answer_of (last (sort compare_versions (parse_ref_lines out plugin)))

-- `LatestVersion`; an empty list of versions is the error, and has no last element
unfoldable pub latest_version : Str → Str → Listing → Answer
latest_version repo plugin listing =
    if str_eq repo [] || str_eq plugin []
    then failed missing_argument
    else from_listing listing plugin

-- the tag and commit of one line, and whether the line is the peeled one
abbrev Tag : Type 0
Tag = Str × Str × Bool

unfoldable pub tag_line : Str → Str → Option Tag
tag_line plugin line =
    let (sha, ref, ok) = cut (trim_space line) 9 in
    let v = trim_prefix (trim_suffix ref (codes "^{}")) (tag_prefix plugin) in
    if not ok || not (has_prefix v (codes "v")) || has_byte b'/' v
    then none
    else some (v, sha, has_suffix ref (codes "^{}"))

abbrev add_tag : Option Tag → Map Str → Map Str
add_tag none m = m
add_tag (some (v, sha, peeled)) m = if not (is_some (get m v)) || peeled then put m v sha else m

pub tag_lines : Str → List Str → Map Str → Map Str
tag_lines plugin [] target = target
tag_lines plugin (l ∷ ls) target = tag_lines plugin ls (add_tag (tag_line plugin l) target)

-- `strings.EqualFold` on ASCII text
abbrev pub lower : ℕ → ℕ
lower c = if leb b'A' c && leb c b'Z' then c + 32 else c

unfoldable pub equal_fold : Str → Str → Bool
equal_fold [] [] = true
equal_fold [] (_ ∷ _) = false
equal_fold (_ ∷ _) [] = false
equal_fold (a ∷ s) (b ∷ t) = (lower a == lower b) && equal_fold s t

unfoldable pub at_commit : Map Str → Str → List Str
at_commit [] commit = []
at_commit ((v, sha) ∷ m) commit =
    let rest = at_commit m commit in if equal_fold sha commit then v ∷ rest else rest

-- `releaseAtCommit`; `none` is the empty answer
unfoldable pub release_at_commit : Str → Str → Str → Option Str
unfolding tag_lines
release_at_commit out plugin commit =
    last (sort compare_versions (at_commit (tag_lines plugin (split out 10) []) commit))

-- the plugin that one line names
unfoldable pub plugin_line : Str → Option Str
plugin_line line =
    let (_, ref, ok) = cut (trim_space line) 9 in
    let (name, version, slash) =
      cut (trim_prefix (trim_suffix ref (codes "^{}")) (codes "refs/tags/")) b'/' in
    if not ok || not slash || str_eq name [] || not (has_prefix version (codes "v"))
    then none
    else some name

plugin_lines : List Str → List Str → List Str
plugin_lines [] names = names
plugin_lines (l ∷ ls) names = plugin_lines ls (add_version (plugin_line l) names)

-- `PublishedPlugins`, from what the listing printed
unfoldable pub published_plugins : Str → List Str
unfolding plugin_lines
published_plugins out = sort_strings (plugin_lines (split out 10) [])
