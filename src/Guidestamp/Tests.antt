-- ===== src/Guidestamp/Tests.antt =====
-- A guide that an older client wrote, and the line on which reading fails.
use w17ctl.Base.{
  Str, codes, str_eq, trim_space, trim_left, rev, cut, has_byte, none, some, ◌≡◌, refl, ◌↔◌,
}
use w17ctl.Guidestamp.{or_dev, stamp, version_of, Relation, staleness}
use w17ctl.Guidestamp.Reading.{version_of-none_iff, IsJudged, staleness-stamp}

abbrev bare_guide : Str
bare_guide = codes "<!-- w17ctl-guide -->"

version_of-none_iff_example :
    (version_of bare_guide ≡ none)
    ↔ (trim_space (cut bare_guide 10).0 ≡ codes "<!-- w17ctl-guide -->")
version_of-none_iff_example = version_of-none_iff bare_guide

bare_fails : version_of bare_guide ≡ none
unfolding trim_space trim_left rev cut
bare_fails = version_of-none_iff_example.1 refl

staleness-stamp_example :
    (r : Relation) × (staleness (codes "v0.2.0") (stamp (codes "v0.1.0") (codes "# Guide"))
      ≡ some (r, codes "v0.1.0", or_dev (codes "v0.2.0")))
    × IsJudged (codes "v0.1.0") (or_dev (codes "v0.2.0")) r
unfolding has_byte trim_space trim_left rev str_eq
staleness-stamp_example =
    staleness-stamp (codes "v0.1.0") (codes "v0.2.0") (codes "# Guide") refl refl refl
