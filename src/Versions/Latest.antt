-- ===== src/Versions/Latest.antt =====
-- What the functions that pick a version return.
use w17ctl.Base.{Str, split, true, some, [], ◌∷◌, ◌≡◌, inl, inr, In, arith, ap, Bool-cases}
use w17ctl.Base.Assoc.{Map}
use w17ctl.Base.Sort.{Leq, last-sort}
use w17ctl.Versions.{
  found, printed, latest_version, parse_ref_lines, compare_versions, release_at_commit, tag_lines,
  at_commit, equal_fold,
}
use w17ctl.Versions.Published.{IsPublished, parse_ref_lines_iff}
use w17ctl.Versions.Order.{compare_versions-IsOrder}

-- `LatestVersion` returns a version that the repository publishes, prereleases included, and none that it
-- publishes comes after it. Published is a version that begins with `v` and whose tag of the plugin is
-- the reference of a listed line, where a reference that ends in `^{}` names its tag without that end.
pub latest_version_lem :
    (repo plugin out v : Str)
    → latest_version repo plugin (printed out) ≡ found v
    → IsPublished out plugin v × ((w : Str) → IsPublished out plugin w → Leq compare_versions w v)
unfolding latest_version
latest_version_lem repo plugin out v h =
    let (here, most) =
      last-sort compare_versions compare_versions-IsOrder v (parse_ref_lines out plugin)
        (ground arith) in
    (
      (parse_ref_lines_iff out plugin v).0 here,
      λ w p. most w ((parse_ref_lines_iff out plugin w).1 p),
    )

In-at_commit :
    (m : Map Str) (commit v : Str)
    → In v (at_commit m commit)
    → (sha : Str) × In (v, sha) m × (equal_fold sha commit ≡ true)
unfolding at_commit
In-at_commit [] commit v i = absurd i
In-at_commit ((w, sha) ∷ m) commit v i = elim (Bool-cases (equal_fold sha commit)) [
  | inr n ↦ let (s, there, e) = In-at_commit m commit v (ground arith) in (s, inr there, e)
  | inl y ↦
      let i' : In v (w ∷ at_commit m commit) = rw y at i in
      elim i' [
        | inl e ↦ (sha, inl (ap (λ (k : Str). (k, sha)) e), y)
        | inr t ↦ let (s, there, e) = In-at_commit m commit v t in (s, inr there, e)
      ]
]

at_commit-In :
    (m : Map Str) (commit v sha : Str)
    → In (v, sha) m
    → equal_fold sha commit ≡ true
    → In v (at_commit m commit)
unfolding at_commit
at_commit-In [] commit v sha i e = absurd i
at_commit-In ((w, s) ∷ m) commit v sha (inl q) e =
    let here : v ≡ w = ap (λ (t : Str × Str). t.0) q in
    let there : sha ≡ s = ap (λ (t : Str × Str). t.1) q in ground arith
at_commit-In ((w, s) ∷ m) commit v sha (inr i) e = ground (arith, at_commit-In m commit v sha i e)

-- `releaseAtCommit` names a release whose tag resolves to the commit, and none of the releases whose
-- tags do comes after it.
pub release_at_commit_lem :
    (out plugin commit v : Str)
    → release_at_commit out plugin commit ≡ some v
    → ((sha : Str) × In (v, sha) (tag_lines plugin (split out 10) [])
        × (equal_fold sha commit ≡ true))
      × ((w sha : Str)
          → In (w, sha) (tag_lines plugin (split out 10) [])
          → equal_fold sha commit ≡ true
          → Leq compare_versions w v)
unfolding release_at_commit
release_at_commit_lem out plugin commit v h =
    let target = tag_lines plugin (split out 10) [] in
    let (here, most) =
      last-sort compare_versions compare_versions-IsOrder v (at_commit target commit) h in
    (In-at_commit target commit v here, λ w sha i e. most w (at_commit-In target commit w sha i e))
