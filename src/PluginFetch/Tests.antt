-- ===== src/PluginFetch/Tests.antt =====
-- A release of a plugin, a tree of one that has none, and the records of both.
use w17ctl.Base.{
  Str, codes, str_eq, has_prefix, has_byte, contains, cut, trim_space, trim_left, rev, false, not,
  none, some, [], ◌≡◌, refl, ◌↔◌, inr,
}
use w17ctl.PluginFetch.{Source, all_hex, is_full_sha, validate}
use w17ctl.PluginFetch.Names.{IsName, IsOneRelease, validate_iff}
use w17ctl.PluginFetch.Spec.{
  GitSpec, source, accepted, normalise_repo, parse_commit, parse_tag, parse_fragment,
  parse_git_spec, Fetched, Fetcher, install_intent, update_from_git,
}
use w17ctl.Base.{arith, [], ◌∷◌, ◌++◌}
use w17ctl.PluginFetch.Signature.{kind_of, signature_in, IsBlock, signature_in_lem}
use w17ctl.PluginFetch.Pins.{
  is_commit_pinned, parse_git_spec-validate, update_from_git-install_intent,
}

-- the name that the checks let through
abbrev slash : Source
slash = record { repo = codes "r"; plugin = codes "/"; version = codes "v1"; commit = [] }

validate_iff_example : (validate slash ≡ none) ↔ (
    (str_eq slash.repo [] ≡ false) × IsName slash.plugin × IsOneRelease slash.version slash.commit)
validate_iff_example = validate_iff slash

slash-IsAccepted : validate slash ≡ none
unfolding str_eq has_prefix
slash-IsAccepted = validate_iff_example.1 (refl, inr refl, inr (refl, refl))

abbrev release : GitSpec
release = record {
  repo = codes "https://h/r";
  plugin = codes "auth";
  version = codes "v1";
  commit = [];
}

release_read : parse_git_spec (codes " h/r#auth/v1") ≡ accepted release
unfolding parse_git_spec parse_fragment parse_tag normalise_repo contains has_prefix has_byte cut
    str_eq trim_space trim_left rev
release_read = refl

parse_git_spec-validate_example :
    (validate (source release) ≡ none) × (has_byte 47 release.plugin ≡ false)
parse_git_spec-validate_example =
    parse_git_spec-validate (codes " h/r#auth/v1") release release_read

abbrev sha : Str
sha = codes "0123456789abcdef0123456789abcdef01234567"

abbrev tree : GitSpec
tree = record { repo = codes "https://h/r"; plugin = codes "auth"; version = []; commit = sha }

tree_read :
    parse_git_spec (codes "h/r#auth@0123456789abcdef0123456789abcdef01234567") ≡ accepted tree
unfolding parse_git_spec parse_fragment parse_commit normalise_repo contains has_prefix has_byte cut
    str_eq trim_space trim_left rev is_full_sha all_hex
tree_read = refl

abbrev fetched : Fetched
fetched = record { repo = codes "https://h/r"; ref = sha; sha = sha; digest = [] }

abbrev published : Fetcher
published = record { latest = λ r n. inr (codes "v2"); fetch = λ s. inr fetched; manifest = inr [] }

update_from_git-install_intent_example :
    is_commit_pinned (
      update_from_git published
        (codes "h/plugins")
        []
        (codes "auth")
        (install_intent (codes "auth") (codes "v2") (some tree) false fetched).git)
    ≡ not (str_eq tree.commit [])
update_from_git-install_intent_example =
    update_from_git-install_intent published (codes "h/plugins")
      (codes "h/r#auth@0123456789abcdef0123456789abcdef01234567") (codes "auth") (codes "v2") tree
      fetched tree_read

abbrev opener : Str
opener = codes "-----BEGIN W17 PLUGIN SIGNATURE-----"

abbrev closer : Str
closer = codes "-----END W17 PLUGIN SIGNATURE-----"

-- A closing marker before the block is of no account.
signature_in_lem_example :
    IsBlock
      (codes "abc" ∷ [])
      (signature_in ((codes "notes" ∷ closer ∷ []) ++ opener ∷ ((codes "abc" ∷ []) ++ closer ∷ [])))
unfolding kind_of trim_space trim_left rev str_eq
signature_in_lem_example =
    signature_in_lem (codes "notes" ∷ closer ∷ []) (codes "abc" ∷ []) [] opener closer
      ((λ e. ground arith), ((λ e. ground arith), tt)) refl (refl, tt) refl tt
