-- ===== src/PluginFetch/Pins.antt =====
-- cmd/plugin/gitspec.go with internal/pluginfetch/pluginfetch.go: what a spec that a person types comes
-- to be in the fetch, in the lock and in the update.
use w17ctl.Base.{
  ℕ, Str, codes, str_eq, str_eq_iff, has_prefix, has_byte, cut, trim_space, Bool, true, false, not,
  ◌||◌, ◌&&◌, Option, none, some, [], ◌∷◌, ◌++◌, ◌≡◌, refl, ◌∙◌, subst, ◌⊎◌, inl, inr,
  if◌then◌else◌, arith,
}
use w17ctl.PluginFetch.{all_hex, is_full_sha, validate}
use w17ctl.PluginFetch.Names.{IsOneRelease, full-some, validate_iff}
use w17ctl.PluginFetch.Spec.{
  GitSpec, tag, ref, source, normalise_repo, Unread, Parsed, parse_commit, parse_tag,
  parse_fragment, parse_git_spec, Pin, Fetched, install_intent, Fetcher, Update, pin_repo,
  update_from_git, move_to, fetched_to,
}

-- A spec that may be fetched: what `validate` wants of it, with a name that is no slash.
abbrev pub IsSpec : GitSpec → Type 0
IsSpec g =
    (str_eq g.repo [] ≡ false)
    × (str_eq g.plugin [] ≡ false)
    × (has_byte 47 g.plugin ≡ false)
    × IsOneRelease g.version g.commit

cut-before : (s : Str) (c : ℕ) → has_byte c (cut s c).0 ≡ false
unfolding cut has_byte
cut-before [] c = refl
cut-before (d ∷ s) c = ground (arith, cut-before s c)

normalise_repo-some : (r : Str) → str_eq r [] ≡ false → str_eq (normalise_repo r) [] ≡ false
unfolding normalise_repo str_eq
normalise_repo-some r h = ground arith

abbrev pub IsAccepted : Parsed → Type 0
IsAccepted (Parsed.accepted g) = IsSpec g
IsAccepted (Parsed.refused e) = Unit

parse_commit-IsAccepted :
    (repo name commit : Str) → str_eq repo [] ≡ false → IsAccepted (parse_commit repo name commit)
unfolding parse_commit
parse_commit-IsAccepted repo name commit n =
    split (str_eq name [] || str_eq commit []) refl (has_byte 47 name) refl (is_full_sha commit)
      refl
  where
    split :
        (a : Bool)
        → (str_eq name [] || str_eq commit []) ≡ a
        → (b : Bool) → has_byte 47 name ≡ b
        → (c : Bool) → is_full_sha commit ≡ c
        → IsAccepted (
            if a
            then Parsed.refused (Unread.commit_form repo)
            else if b
            then Parsed.refused (Unread.not_a_name name)
            else if not c
            then Parsed.refused (Unread.not_full commit)
            else Parsed.accepted (record {
              repo = normalise_repo repo;
              plugin = name;
              version = [];
              commit = commit;
            }))
    split true ea b eb c ec = tt
    split false ea true eb c ec = tt
    split false ea false eb false ec = tt
    split false ea false eb true ec = (normalise_repo-some repo n, ground arith, eb, inl (refl, ec))

parse_tag-IsAccepted :
    (repo plugin version : Str) (found : Bool)
    → str_eq repo [] ≡ false
    → has_byte 47 plugin ≡ false
    → IsAccepted (parse_tag repo plugin version found)
unfolding parse_tag
parse_tag-IsAccepted repo plugin version found n plain =
    split (not found || str_eq plugin [] || str_eq version []) refl (has_byte 47 version)
      (has_prefix version (codes "v")) refl
  where
    split :
        (a : Bool)
        → (not found || str_eq plugin [] || str_eq version []) ≡ a
        → (b c : Bool) → has_prefix version (codes "v") ≡ c
        → IsAccepted (
            if a
            then Parsed.refused (Unread.tag_form repo)
            else if b
            then Parsed.refused (Unread.not_a_version version)
            else if not c
            then Parsed.refused (Unread.no_v version)
            else Parsed.accepted (record {
              repo = normalise_repo repo;
              plugin = plugin;
              version = version;
              commit = [];
            }))
    split true ea b c ec = tt
    split false ea true c ec = tt
    split false ea false false ec = tt
    split false ea false true ec = (normalise_repo-some repo n, ground arith, plain, inr (refl, ec))

parse_fragment-IsAccepted :
    (repo frag : Str) → str_eq repo [] ≡ false → IsAccepted (parse_fragment repo frag)
unfolding parse_fragment
parse_fragment-IsAccepted repo frag n = split (cut frag 64).2
  where
    split :
        (b : Bool)
        → IsAccepted (
            if b
            then parse_commit repo (cut frag 64).0 (cut frag 64).1
            else parse_tag repo (cut frag 47).0 (cut frag 47).1 (cut frag 47).2)
    split true = parse_commit-IsAccepted repo (cut frag 64).0 (cut frag 64).1 n
    split false =
        parse_tag-IsAccepted repo (cut frag 47).0 (cut frag 47).1 (cut frag 47).2 n
          (cut-before frag 47)

parse_git_spec-IsAccepted : (s : Str) → IsAccepted (parse_git_spec s)
unfolding parse_git_spec
parse_git_spec-IsAccepted s =
    split (cut (trim_space s) 35).2 (str_eq (trim_space (cut (trim_space s) 35).0) []) refl
  where
    repo : Str
    repo = trim_space (cut (trim_space s) 35).0

    split :
        (a b : Bool)
        → str_eq repo [] ≡ b
        → IsAccepted (
            if not a
            then Parsed.refused (Unread.no_release (trim_space s))
            else if b
            then Parsed.refused (Unread.no_repository (trim_space s))
            else parse_fragment repo (trim_space (cut (trim_space s) 35).1))
    split false b e = tt
    split true true e = tt
    split true false e = parse_fragment-IsAccepted repo (trim_space (cut (trim_space s) 35).1) e

parse_git_spec-IsSpec : (s : Str) (g : GitSpec) → parse_git_spec s ≡ Parsed.accepted g → IsSpec g
parse_git_spec-IsSpec s g h = subst IsAccepted h (parse_git_spec-IsAccepted s)

-- Whatever spec is read can be fetched as it is: its source passes the checks of the fetch, with one
-- release, and its plugin is a name without a slash.
pub parse_git_spec-validate :
    (s : Str) (g : GitSpec)
    → parse_git_spec s ≡ Parsed.accepted g
    → (validate (source g) ≡ none) × (has_byte 47 g.plugin ≡ false)
parse_git_spec-validate s g h =
    let (r, p, plain, one) = parse_git_spec-IsSpec s g h in
    ((validate_iff (source g)).1 (r, inl (p, plain), one), plain)

all_hex-slash : (p v : Str) → all_hex (p ++ codes "/" ++ v) ≡ false
unfolding all_hex
all_hex-slash [] v = refl
all_hex-slash (c ∷ p) v = ground (arith, all_hex-slash p v)

tag-IsNoSha : (p v : Str) → is_full_sha (p ++ codes "/" ++ v) ≡ false
unfolding is_full_sha
tag-IsNoSha p v = ground (arith, all_hex-slash p v)

pinned_ref : (g : GitSpec) → IsSpec g → is_full_sha (ref g) ≡ not (str_eq g.commit [])
unfolding ref tag
pinned_ref g (r, p, plain, inl (v, c)) = ground (arith, full-some g.commit c)
pinned_ref g (r, p, plain, inr (c, v)) =
    ground (arith, str_eq_iff g.commit [], tag-IsNoSha g.plugin g.version)

abbrev pub is_commit_pinned : Update → Bool
is_commit_pinned (Update.commit_pinned n r c) = true
is_commit_pinned (Update.updated m f) = false
is_commit_pinned (Update.failed e) = false

move_to-IsMoved :
    (w : Fetcher) (repo name : Str) (t : Str ⊎ Str)
    → is_commit_pinned (move_to w repo name t) ≡ false
move_to-IsMoved w repo name (inl e) = refl
move_to-IsMoved w repo name (inr v) =
    fetched (w.fetch (record { repo = repo; plugin = name; version = v; commit = [] })) w.manifest
  where
    fetched : (f : Str ⊎ Fetched) (m : Str ⊎ Str) → is_commit_pinned (fetched_to f m) ≡ false
    fetched (inl e) m = refl
    fetched (inr f) (inl e) = refl
    fetched (inr f) (inr m) = refl

-- A plugin installed from a spec is recorded so that an update without a target refuses to move it
-- exactly when the spec named a commit, whatever the repository has published since.
pub update_from_git-install_intent :
    (w : Fetcher) (registry s name version : Str) (g : GitSpec) (fetched : Fetched)
    → parse_git_spec s ≡ Parsed.accepted g
    → is_commit_pinned (
        update_from_git w registry [] name (install_intent name version (some g) false fetched).git)
      ≡ not (str_eq g.commit [])
unfolding update_from_git install_intent str_eq
update_from_git-install_intent w registry s name version g fetched h =
    split (is_full_sha (ref g)) (w.latest (pin_repo registry pin) name)
    ∙ pinned_ref g (parse_git_spec-IsSpec s g h)
  where
    pin : Option Pin
    pin = (install_intent name version (some g) false fetched).git

    split :
        (b : Bool) (t : Str ⊎ Str)
        → is_commit_pinned (
            if b && true
            then Update.commit_pinned name (pin_repo registry pin) (ref g)
            else move_to w (pin_repo registry pin) name t)
          ≡ b
    split true t = refl
    split false t = move_to-IsMoved w (pin_repo registry pin) name t
