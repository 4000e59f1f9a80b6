-- ===== src/Guidestamp/Reading.antt =====
-- internal/guidestamp/guidestamp.go: what is read back of a stamp, and where reading fails.
use w17ctl.Base.{
  Ordering, ℕ, ◌-◌, ◌+◌, Str, codes, str_eq, has_prefix, has_suffix, has_byte, cut, drop,
  trim_space, trim_left, rev, rev_onto, length, leb, Bool, true, false, not, Option, none, some, [],
  ◌∷◌, ◌++◌, ◌≡◌, refl, sym, ap, ◌∙◌, subst, ◌↔◌, ◌≢◌, ◌⊎◌, ◌||◌, str_eq_iff, if◌then◌else◌,
  append_assoc, arith,
}
use w17ctl.Base.Cutting.{
  rev_onto-append, rev_onto-rev_onto, has_prefix-split, cut-append, length-append,
}
use w17ctl.Versions.{compare_versions}
use w17ctl.Guidestamp.{
  Relation, unknown, current, stale, newer, by_order, relation, staleness, prefix, suffix, or_dev,
  stamp, take, slice, trimmed, version_in, version_of,
}

-- a stamp's line, read from its end
line_back : (v : Str) → rev (prefix ++ v ++ suffix) ≡ 62 ∷ 45 ∷ 45 ∷ 32 ∷ rev_onto (prefix ++ v) []
unfolding rev
line_back v =
    ap (λ l. rev_onto l []) (sym (append_assoc prefix v suffix))
    ∙ rev_onto-append (prefix ++ v) suffix []

line_trimmed : (v : Str) → trim_space (prefix ++ v ++ suffix) ≡ prefix ++ v ++ suffix
unfolding trim_space trim_left rev
line_trimmed v =
    ap (λ z. rev (trim_left z)) (line_back v)
    ∙ sym (ap rev (line_back v))
    ∙ rev_onto-rev_onto (prefix ++ v ++ suffix) []

abbrev bare : Str
bare = codes "<!-- w17ctl-guide -->"

version_in_prefixed : (r : Str) → version_in (prefix ++ r) ≡ none → prefix ++ r ≡ bare
unfolding version_in slice has_prefix has_suffix rev
version_in_prefixed [] h = absurd (ground arith)
version_in_prefixed (a ∷ []) h = absurd (ground arith)
version_in_prefixed (a ∷ b ∷ []) h = absurd (ground arith)
version_in_prefixed (a ∷ b ∷ c ∷ []) h = ground arith
version_in_prefixed (a ∷ b ∷ c ∷ d ∷ r) h = absurd (ground arith)

version_in-bare : version_in bare ≡ none
unfolding version_in slice has_prefix has_suffix rev
version_in-bare = refl

version_in-none : (s : Str) → version_in s ≡ none → s ≡ bare
unfolding version_in
version_in-none s h = split (has_prefix s prefix) refl h
  where
    split : (b : Bool) → has_prefix s prefix ≡ b → version_in s ≡ none → s ≡ bare
    split false e q = absurd (ground (arith, q))
    split true e q =
        let (r, f) = has_prefix-split s prefix e in
        f ∙ version_in_prefixed r (subst (λ z. version_in z ≡ none) f q)

-- Reading fails on one line alone: the stamp's two halves that share their space.
pub version_of-none_iff :
    (body : Str)
    → (version_of body ≡ none) ↔ (trim_space (cut body 10).0 ≡ codes "<!-- w17ctl-guide -->")
unfolding version_of
version_of-none_iff body = (
  version_in-none (trim_space (cut body 10).0),
  λ e. subst (λ z. version_in z ≡ none) (sym e) version_in-bare,
)

take-append : (s t : Str) → take (length s) (s ++ t) ≡ s
unfolding take
take-append [] t = refl
take-append (c ∷ s) t = ap (λ z. c ∷ z) (take-append s t)

slice-at :
    (w : Str) (to : ℕ)
    → to ≡ 18 + length w
    → slice (length prefix) to (prefix ++ w ++ suffix) ≡ some w
unfolding slice drop
slice-at w to e = at (leb 18 to) (to - 18) (ground arith) (ground arith)
  where
    at :
        (b : Bool) (k : ℕ)
        → b ≡ true
        → k ≡ length w
        → (if b then some (take k (w ++ suffix)) else none) ≡ some w
    at false k f q = cc
    at true k f q = ap some (ap (λ z. take z (w ++ suffix)) q ∙ take-append w suffix)

ends : (w : Str) → has_suffix (prefix ++ w ++ suffix) suffix ≡ true
unfolding has_suffix has_prefix rev
ends w = ap (λ z. has_prefix z (codes ">-- ")) (line_back w)

version_in-line : (w : Str) → version_in (prefix ++ w ++ suffix) ≡ some (trim_space w)
unfolding version_in has_prefix
version_in-line w =
    at (has_suffix (prefix ++ w ++ suffix) suffix)
      (slice (length prefix) (length (prefix ++ w ++ suffix) - length suffix)
        (prefix ++ w ++ suffix))
      (ends w)
      (slice-at w (length (prefix ++ w ++ suffix) - length suffix)
        (ground (arith, length-append w suffix)))
  where
    at :
        (b : Bool) (o : Option Str)
        → b ≡ true
        → o ≡ some w
        → (if not b then some [] else trimmed o) ≡ some (trim_space w)
    at false o f q = cc
    at true o f q = ap trimmed q

has_byte-append :
    (b : ℕ) (s t : Str) → has_byte b s ≡ false → has_byte b t ≡ false → has_byte b (s ++ t) ≡ false
unfolding has_byte
has_byte-append b [] t h k = k
has_byte-append b (c ∷ s) t h k = ground (arith, has_byte-append b s t)

one_line : (w : Str) → has_byte 10 w ≡ false → has_byte 10 (prefix ++ w ++ suffix) ≡ false
unfolding has_byte
one_line w h = has_byte-append 10 w suffix h refl

or_dev_line : (v : Str) → has_byte 10 v ≡ false → has_byte 10 (or_dev v) ≡ false
unfolding has_byte
or_dev_line v h = split (str_eq v [])
  where
    split : (b : Bool) → has_byte 10 (if b then codes "dev" else v) ≡ false
    split true = refl
    split false = h

-- A stamp is read back as the version that wrote it, without the space around it, and a build that has
-- no version as `dev`; the body that follows is of no account.
pub version_of-stamp :
    (version body : Str)
    → has_byte 10 version ≡ false
    → version_of (stamp version body) ≡ some (trim_space (or_dev version))
unfolding version_of stamp
version_of-stamp version body h =
    ap (λ l. version_in (trim_space l)) line ∙ ap version_in (line_trimmed w) ∙ version_in-line w
  where
    w : Str
    w = or_dev version

    line : (cut (prefix ++ w ++ suffix ++ 10 ∷ body) 10).0 ≡ prefix ++ w ++ suffix
    line = (cut-append (prefix ++ w ++ suffix) body 10 (one_line w (or_dev_line version h))).0

-- What a comparison makes of the version on disk and of the client's own.
abbrev pub IsJudged : Str → Str → Relation → Type 0
IsJudged was mine r =
    ((was ≡ codes "dev") ⊎ (mine ≡ codes "dev") → r ≡ unknown)
    × (was ≢ codes "dev"
        → mine ≢ codes "dev"
        → ((r ≡ stale) ↔ (compare_versions was mine ≡ Ordering.lt))
          × ((r ≡ newer) ↔ (compare_versions was mine ≡ Ordering.gt))
          × ((r ≡ current) ↔ (compare_versions was mine ≡ Ordering.eq)))

by_order-all :
    (o : Ordering)
    → ((by_order o ≡ stale) ↔ (o ≡ Ordering.lt))
      × ((by_order o ≡ newer) ↔ (o ≡ Ordering.gt))
      × ((by_order o ≡ current) ↔ (o ≡ Ordering.eq))
by_order-all Ordering.lt = ground arith
by_order-all Ordering.eq = ground arith
by_order-all Ordering.gt = ground arith

relation-IsJudged : (was mine : Str) → str_eq was [] ≡ false → IsJudged was mine (relation was mine)
unfolding relation
relation-IsJudged was mine n =
    split (str_eq was []) (str_eq was (codes "dev")) (str_eq mine (codes "dev")) n
      (str_eq_iff was (codes "dev")) (str_eq_iff mine (codes "dev"))
  where
    split :
        (a b c : Bool)
        → a ≡ false
        → ((b ≡ true) ↔ (was ≡ codes "dev"))
        → ((c ≡ true) ↔ (mine ≡ codes "dev"))
        → IsJudged was mine (if a || b || c then unknown else by_order (compare_versions was mine))
    split true b c e f g = absurd cc
    split false true c e f g = (λ q. refl, λ x y. absurd (x (f.0 refl)))
    split false false true e f g = (λ q. refl, λ x y. absurd (y (g.0 refl)))
    split false false false e f g =
        (λ q. absurd (ground (arith, q, f, g)), λ x y. by_order-all (compare_versions was mine))

-- A stamp that one version of the client wrote on a file - one line, not empty, without space around it -
-- is read back by another with both versions. Where either is `dev`, as a build without a version is,
-- the relation is unknown; else the file is stale exactly when its version is the older one, newer
-- exactly when it is the later one, and current exactly when the two are equal in the order.
pub staleness-stamp :
    (was mine body : Str)
    → has_byte 10 was ≡ false
    → trim_space was ≡ was
    → str_eq was [] ≡ false
    → (r : Relation) × (staleness mine (stamp was body) ≡ some (r, was, or_dev mine))
      × IsJudged was (or_dev mine) r
unfolding staleness
staleness-stamp was mine body h t n = (
  relation was (or_dev mine),
  read (version_of (stamp was body))
      (version_of-stamp was body h ∙ ap some (ap trim_space own ∙ t)),
  relation-IsJudged was (or_dev mine) n,
)
  where
    own : or_dev was ≡ was
    own = ground arith

    read :
        (o : Option Str)
        → o ≡ some was
        → ◌≡◌ {A = Option (Relation × Str × Str)}
            (elim o [ none ↦ none | some v ↦ some (relation v (or_dev mine), v, or_dev mine) ])
            (some (relation was (or_dev mine), was, or_dev mine))
    read none e = cc
    read (some v) e = ground (arith, e)
