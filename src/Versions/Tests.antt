-- ===== src/Versions/Tests.antt =====
-- The versions of a small registry, and the theorems at them.
use w17ctl.Base.{
  Str, codes, some, [], ◌∷◌, ◌++◌, ◌≡◌, refl, pos, itoa, compare, arith, str_eq, str_compare,
  has_prefix, has_suffix, has_byte, trim_space, trim_prefix, trim_suffix, cut, split, atoi,
}
use w17ctl.Base.Order.{list_compare}
use w17ctl.Base.Assoc.{get, put}
use w17ctl.Base.Sort.{Leq, sort, sort_strings, last}
use w17ctl.Versions.{
  found, printed, latest_version, parse_ref_lines, compare_versions, compare_identifier,
  compare_prerelease, compare_tail, split_version, numbers, release_at_commit, tag_lines,
  equal_fold, at_commit, published_plugins, ref_version, tag_line, plugin_line, contains_str,
}
use w17ctl.Versions.Published.{IsPublished}
use w17ctl.Versions.Latest.{latest_version_lem}
use w17ctl.Versions.Candidates.{compare_prerelease_rc}

-- Three tags of one plugin, the last one with its peeled line.
abbrev listing : Str
listing =
    codes
      "a1\trefs/tags/auth/v0.1.0-rc.10\nb2\trefs/tags/auth/v0.1.0-rc.2\nc3\trefs/tags/auth/v0.0.9\nd4\trefs/tags/auth/v0.0.9^{}"

latest_is_rc10 :
    latest_version (codes "repo") (codes "auth") (printed listing) ≡ found (codes "v0.1.0-rc.10")
unfolding latest_version parse_ref_lines ref_version contains_str compare_versions split_version
    numbers compare_tail compare_prerelease compare_identifier list_compare sort last str_eq
    str_compare has_prefix trim_space trim_prefix trim_suffix cut split atoi
latest_is_rc10 = refl

latest_version_lem_example :
    IsPublished listing (codes "auth") (codes "v0.1.0-rc.10")
    × ((w : Str)
        → IsPublished listing (codes "auth") w
        → Leq compare_versions w (codes "v0.1.0-rc.10"))
latest_version_lem_example =
    latest_version_lem (codes "repo") (codes "auth") listing (codes "v0.1.0-rc.10") latest_is_rc10

-- The peeled line names the commit.
at_d4 : release_at_commit listing (codes "auth") (codes "D4") ≡ some (codes "v0.0.9")
unfolding release_at_commit tag_lines tag_line at_commit equal_fold compare_versions split_version
    numbers compare_tail compare_prerelease compare_identifier list_compare sort last str_eq
    str_compare has_prefix has_suffix has_byte trim_space trim_prefix trim_suffix cut split atoi get
    put
at_d4 = refl

plugins : published_plugins listing ≡ codes "auth" ∷ []
unfolding published_plugins plugin_line contains_str str_eq has_prefix trim_space trim_prefix
    trim_suffix cut split sort_strings
plugins = refl

compare_prerelease_rc_example :
    compare_prerelease (codes "rc." ++ itoa (pos 10)) (codes "rc." ++ itoa (pos 2)) ≡ compare 10 2
compare_prerelease_rc_example = compare_prerelease_rc 10 2 (omega arith) (omega arith)
