-- ===== src/PluginFetch/Spec.antt =====
-- cmd/plugin/gitspec.go: `<repo>#<plugin>/<version>` and `<repo>#<plugin>@<sha>`, what an install
-- records of them, and the update that reads the record.
use w17ctl.Base.{
  Str, codes, str_eq, has_prefix, has_byte, contains, cut, trim_space, Bool, not, ◌||◌, ◌&&◌,
  Option, none, some, [], ◌++◌, ◌⊎◌, inl, inr, if◌then◌else◌,
}
use w17ctl.PluginFetch.{Source, is_full_sha}

-- `gitSpec`
pub record GitSpec : Type 0 where
  pub repo : Str
  pub plugin : Str
  pub version : Str
  pub commit : Str

-- `Tag()`
unfoldable pub tag : GitSpec → Str
tag g = if str_eq g.commit [] then g.plugin ++ codes "/" ++ g.version else []

-- `Ref()`
unfoldable pub ref : GitSpec → Str
unfolding tag
ref g = if str_eq g.commit [] then tag g else g.commit

-- `source()`
abbrev pub source : GitSpec → Source
source g = record { repo = g.repo; plugin = g.plugin; version = g.version; commit = g.commit }

-- `normaliseRepo`
unfoldable pub normalise_repo : Str → Str
normalise_repo repo =
    if contains repo (codes "://") || contains repo (codes "@")
    then repo
    else if has_prefix repo (codes "/") || has_prefix repo (codes ".")
    then repo
    else codes "https://" ++ repo

-- the refusals of `parseGitSpec`
pub data Unread : Type 0 where
  no_release : Str → Unread
  no_repository : Str → Unread
  commit_form : Str → Unread
  not_a_name : Str → Unread
  not_full : Str → Unread
  tag_form : Str → Unread
  not_a_version : Str → Unread
  no_v : Str → Unread

pub data Parsed : Type 0 where
  accepted : GitSpec → Parsed
  refused : Unread → Parsed

-- the commit form, `@` cutting the fragment
unfoldable pub parse_commit : Str → Str → Str → Parsed
parse_commit repo name commit =
    if str_eq name [] || str_eq commit []
    then Parsed.refused (Unread.commit_form repo)
    else if has_byte 47 name
    then Parsed.refused (Unread.not_a_name name)
    else if not (is_full_sha commit)
    then Parsed.refused (Unread.not_full commit)
    else Parsed.accepted
        (record { repo = normalise_repo repo; plugin = name; version = []; commit = commit })

-- the tag form, `/` cutting the fragment
unfoldable pub parse_tag : Str → Str → Str → Bool → Parsed
parse_tag repo plugin version found =
    if not found || str_eq plugin [] || str_eq version []
    then Parsed.refused (Unread.tag_form repo)
    else if has_byte 47 version
    then Parsed.refused (Unread.not_a_version version)
    else if not (has_prefix version (codes "v"))
    then Parsed.refused (Unread.no_v version)
    else Parsed.accepted
        (record { repo = normalise_repo repo; plugin = plugin; version = version; commit = [] })

unfoldable pub parse_fragment : Str → Str → Parsed
unfolding parse_commit parse_tag
parse_fragment repo frag =
    let (name, commit, is_commit) = cut frag 64 in
    let (plugin, version, found) = cut frag 47 in
    if is_commit then parse_commit repo name commit else parse_tag repo plugin version found

-- `parseGitSpec`
unfoldable pub parse_git_spec : Str → Parsed
unfolding parse_fragment
parse_git_spec s =
    let text = trim_space s in
    let (repo, frag, ok) = cut text 35 in
    if not ok
    then Parsed.refused (Unread.no_release text)
    else if str_eq (trim_space repo) []
    then Parsed.refused (Unread.no_repository text)
    else parse_fragment (trim_space repo) (trim_space frag)

-- `PluginGitPin`, which the lock keeps
pub record Pin : Type 0 where
  pub repo : Str
  pub ref : Str
  pub commit : Str
  pub digest : Str

-- `pluginfetch.Fetched`, the fields that a pin takes
pub record Fetched : Type 0 where
  pub repo : Str
  pub ref : Str
  pub sha : Str
  pub digest : Str

-- an edit of the lock's entry: `InstallPluginIntent` and `PluginVersion`
pub record Entry : Type 0 where
  pub name : Str
  pub version : Str
  pub source : Str
  pub git : Option Pin

abbrev pub pin_of : GitSpec → Fetched → Pin
pin_of g fetched = record {
  repo = g.repo;
  ref = ref g;
  commit = fetched.sha;
  digest = fetched.digest;
}

abbrev pub install_plain : Str → Str → Option GitSpec → Fetched → Entry
install_plain name version none fetched = record {
  name = name;
  version = version;
  source = codes "internal";
  git = none;
}
install_plain name version (some g) fetched = record {
  name = name;
  version = version;
  source = codes "git";
  git = some (pin_of g fetched);
}

-- `installIntent`
unfoldable pub install_intent : Str → Str → Option GitSpec → Bool → Fetched → Entry
install_intent name version git local fetched =
    if local
    then record { name = name; version = version; source = codes "local"; git = none }
    else install_plain name version git fetched

-- `updateIntent`
unfoldable pub update_intent : Str → Str → Bool → Fetched → Entry
update_intent name version is_git fetched =
    if is_git
    then record {
      name = name;
      version = version;
      source = codes "git";
      git = some (record {
        repo = fetched.repo;
        ref = fetched.ref;
        commit = fetched.sha;
        digest = fetched.digest;
      });
    }
    else record { name = name; version = version; source = codes "internal"; git = none }

-- `pluginfetch.LatestVersion`, `pluginfetch.Fetch`, and the fetched `plugin.yaml`: an error or a result
pub record Fetcher : Type 0 where
  pub latest : Str → Str → Str ⊎ Str
  pub fetch : Source → Str ⊎ Fetched
  pub manifest : Str ⊎ Str

-- what `updateFromGit` returns; `commit_pinned` is its `commitPinnedError`
pub data Update : Type 0 where
  updated : Str → Fetched → Update
  commit_pinned : Str → Str → Str → Update
  failed : Str → Update

unfoldable pub pin_repo : Str → Option Pin → Str
pin_repo registry none = registry
pin_repo registry (some p) = if str_eq p.repo [] then registry else p.repo

abbrev pub pin_ref : Option Pin → Str
pin_ref none = []
pin_ref (some p) = p.ref

abbrev pub read_manifest : Str ⊎ Str → Fetched → Update
read_manifest (inl e) f = Update.failed e
read_manifest (inr m) f = Update.updated m f

abbrev pub fetched_to : Str ⊎ Fetched → Str ⊎ Str → Update
fetched_to (inl e) m = Update.failed e
fetched_to (inr f) m = read_manifest m f

abbrev pub move_to : Fetcher → Str → Str → Str ⊎ Str → Update
move_to w repo name (inl e) = Update.failed e
move_to w repo name (inr v) =
    fetched_to (w.fetch (record { repo = repo; plugin = name; version = v; commit = [] }))
      w.manifest

-- `updateFromGit(to, name, existing, staging)`, the pin being the lock's; `registry` is `pluginsRepo()`
unfoldable pub update_from_git : Fetcher → Str → Str → Str → Option Pin → Update
unfolding pin_repo
update_from_git w registry to name existing =
    let repo = pin_repo registry existing in
    let target = if str_eq to [] then w.latest repo name else inr to in
    if is_full_sha (pin_ref existing) && str_eq to []
    then Update.commit_pinned name repo (pin_ref existing)
    else move_to w repo name target
