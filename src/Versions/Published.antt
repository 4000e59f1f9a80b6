-- ===== src/Versions/Published.antt =====
-- internal/pluginfetch/version.go: which versions `parseRefLines` reads from a listing.
use w17ctl.Base.{
  length, Str, codes, str_eq, str_eq_iff, trim_space, trim_prefix, trim_suffix, has_prefix,
  has_suffix, has_byte, cut, split, Bool, true, false, not, ◌||◌, Option, none, some, List, [], ◌∷◌,
  ◌++◌, ◌≡◌, refl, sym, ap, ◌∙◌, subst, ◌≢◌, ◌↔◌, ◌⊎◌, inl, inr, In, In-append, In-append_left,
  In-append_right, if◌then◌else◌, arith, Bool-cases,
}
use w17ctl.Base.Cutting.{
  has_prefix-split, trim_prefix-append, trim_prefix_other, trim_suffix-append, trim_suffix_other,
  has_suffix-split, cut-found, cut-append, length-append,
}
use w17ctl.Versions.{tag_prefix, contains_str, ref_version, add_version, ref_lines, parse_ref_lines}

-- A reference names the tag of a version: as it is, or with the end of a peeled tag behind it.
abbrev pub IsRef : Str → Str → Str → Type 0
IsRef plugin ref v =
    (has_prefix v (codes "v") ≡ true)
    × ((ref ≡ (tag_prefix plugin ++ v) ++ codes "^{}")
        ⊎ ((has_suffix ref (codes "^{}") ≡ false) × (ref ≡ tag_prefix plugin ++ v)))

-- A line of a listing, the space around it trimmed: an object's name, a tab, and the reference.
abbrev pub IsLine : Str → Str → Str → Type 0
IsLine plugin line v =
    (sha : Str) × (ref : Str) × (trim_space line ≡ sha ++ 9 ∷ ref)
    × (has_byte 9 sha ≡ false)
    × IsRef plugin ref v

-- Some line of a listing names the version.
abbrev pub IsPublished : Str → Str → Str → Type 0
IsPublished out plugin v = (line : Str) × In line (split out 10) × IsLine plugin line v

-- the version that a reference names, behind the cut
abbrev named : Str → Bool → Str → Option Str
named plugin ok ref =
    let r = trim_suffix ref (codes "^{}") in
    let v = trim_prefix r (tag_prefix plugin) in
    if not ok || str_eq v r || not (has_prefix v (codes "v")) then none else some v

peeled :
    (ref t : Str)
    → trim_suffix ref (codes "^{}") ≡ t
    → (ref ≡ t ++ codes "^{}") ⊎ ((has_suffix ref (codes "^{}") ≡ false) × (ref ≡ t))
peeled ref t h = elim (Bool-cases (has_suffix ref (codes "^{}"))) [
  | inr n ↦ inr (n, sym (trim_suffix_other ref (codes "^{}") n) ∙ h)
  | inl y ↦
      let (s, e) = has_suffix-split ref (codes "^{}") y in
      inl (
        e
        ∙ ap (λ z. z ++ codes "^{}")
            (sym (trim_suffix-append s (codes "^{}"))
              ∙ ap (λ z. trim_suffix z (codes "^{}")) (sym e)
              ∙ h))
]

unpeeled :
    (ref t : Str)
    → (ref ≡ t ++ codes "^{}") ⊎ ((has_suffix ref (codes "^{}") ≡ false) × (ref ≡ t))
    → trim_suffix ref (codes "^{}") ≡ t
unpeeled ref t (inl e) =
    ap (λ z. trim_suffix z (codes "^{}")) e ∙ trim_suffix-append t (codes "^{}")
unpeeled ref t (inr (n, e)) = trim_suffix_other ref (codes "^{}") n ∙ e

prefixed : (r p : Str) → str_eq (trim_prefix r p) r ≡ false → r ≡ p ++ trim_prefix r p
prefixed r p h = elim (Bool-cases (has_prefix r p)) [
  | inr n ↦ absurd (ground (arith, str_eq_iff (trim_prefix r p) r, trim_prefix_other r p n))
  | inl y ↦
      let (s, e) = has_prefix-split r p y in
      e ∙ ap (λ z. p ++ z) (sym (trim_prefix-append p s) ∙ ap (λ z. trim_prefix z p) (sym e))
]

named-IsRef :
    (plugin : Str) (ok : Bool) (ref v : Str)
    → named plugin ok ref ≡ some v
    → (ok ≡ true) × IsRef plugin ref v
named-IsRef plugin ok ref v h = split_on ok (str_eq w r) (has_prefix w (codes "v")) refl refl h
  where
    r : Str
    r = trim_suffix ref (codes "^{}")

    w : Str
    w = trim_prefix r (tag_prefix plugin)

    of_some : some w ≡ some v → w ≡ v
    of_some e = ground arith

    split_on :
        (a b c : Bool)
        → str_eq w r ≡ b
        → has_prefix w (codes "v") ≡ c
        → (if not a || b || not c then none else some w) ≡ some v
        → (a ≡ true) × IsRef plugin ref v
    split_on false b c e f k = absurd (ground arith)
    split_on true true c e f k = absurd (ground arith)
    split_on true false false e f k = absurd (ground arith)
    split_on true false true e f k =
        let q : w ≡ v = of_some k in
        (
          refl,
          (
            sym (ap (λ z. has_prefix z (codes "v")) q) ∙ f,
            peeled ref (tag_prefix plugin ++ v)
                (prefixed r (tag_prefix plugin) e ∙ ap (λ z. tag_prefix plugin ++ z) q),
          ),
        )

longer : (p v : Str) → p ≢ [] → str_eq v (p ++ v) ≡ false
longer [] v ne = absurd (ne refl)
longer (c ∷ p) v ne = elim (Bool-cases (str_eq v (c ∷ p ++ v))) [
  | inr n ↦ n
  | inl y ↦ absurd (omega (arith, ap length ((str_eq_iff v (c ∷ p ++ v)).0 y), length-append p v))
]

IsRef-named : (plugin ref v : Str) → IsRef plugin ref v → named plugin true ref ≡ some v
IsRef-named plugin ref v (p, h) =
    let e = unpeeled ref (tag_prefix plugin ++ v) h in
    ap of_ref e
    ∙ ap
        (λ z.
          if str_eq z (tag_prefix plugin ++ v) || not (has_prefix z (codes "v"))
          then none
          else some z)
        (trim_prefix-append (tag_prefix plugin) v)
    ∙ rw (longer (tag_prefix plugin) v (λ q. cc), p) refl
  where
    of_ref : Str → Option Str
    of_ref r =
        let w = trim_prefix r (tag_prefix plugin) in
        if str_eq w r || not (has_prefix w (codes "v")) then none else some w

-- The version that a line names, and the lines that name a version.
ref_version_iff : (plugin line v : Str) → (ref_version plugin line ≡ some v) ↔ IsLine plugin line v
unfolding ref_version
ref_version_iff plugin line v = (to, from)
  where
    t : Str
    t = trim_space line

    to : named plugin (cut t 9).2 (cut t 9).1 ≡ some v → IsLine plugin line v
    to h =
        let (ok, r) = named-IsRef plugin (cut t 9).2 (cut t 9).1 v h in
        let (e, n) = cut-found t 9 ok in ((cut t 9).0, (cut t 9).1, e, n, r)

    from : IsLine plugin line v → named plugin (cut t 9).2 (cut t 9).1 ≡ some v
    from (sha, ref, e, n, r) =
        let (x, y, z) = cut-append sha ref 9 n in
        ap (λ u. named plugin (cut u 9).2 (cut u 9).1) e
        ∙ ap (λ u. named plugin u (cut (sha ++ 9 ∷ ref) 9).1) z
        ∙ ap (named plugin true) y
        ∙ IsRef-named plugin ref v r

contains_str-In : (l : List Str) (v : Str) → contains_str l v ≡ true → In v l
unfolding contains_str
contains_str-In [] v h = absurd (ground arith)
contains_str-In (w ∷ l) v h = elim (Bool-cases (str_eq w v)) [
  | inl y ↦ inl (sym ((str_eq_iff w v).0 y))
  | inr n ↦ inr (contains_str-In l v (ground arith))
]

add_version_iff :
    (o : Option Str) (l : List Str) (v : Str) → In v (add_version o l) ↔ (In v l ⊎ (o ≡ some v))
add_version_iff none l v = (λ i. inl i, λ c. elim c [ inl i ↦ i | inr e ↦ absurd (ground arith) ])
add_version_iff (some w) l v = split_on (contains_str l w) (contains_str-In l w)
  where
    of_some : some w ≡ some v → v ≡ w
    of_some e = ground arith

    split_on :
        (b : Bool)
        → (b ≡ true → In w l)
        → In v (if b then l else l ++ w ∷ []) ↔ (In v l ⊎ (some w ≡ some v))
    split_on true h = (
      λ i. inl i,
      λ c. elim c [ inl i ↦ i | inr e ↦ subst (λ z. In z l) (sym (of_some e)) (h refl) ],
    )
    split_on false h = (
      λ i. elim (In-append v l (w ∷ []) i) [
        | inl j ↦ inl j
        | inr (inl e) ↦ inr (ap some (sym e))
        | inr (inr n) ↦ absurd n
      ],
      λ c. elim c [
        | inl i ↦ In-append_left v l (w ∷ []) i
        | inr e ↦ In-append_right v l (w ∷ []) (inl (of_some e))
      ],
    )

abbrev IsListed : Str → List Str → Str → Type 0
IsListed plugin ls v = (line : Str) × In line ls × IsLine plugin line v

ref_lines_iff :
    (plugin : Str) (ls seen : List Str) (v : Str)
    → In v (ref_lines plugin ls seen) ↔ (In v seen ⊎ IsListed plugin ls v)
unfolding ref_lines
ref_lines_iff plugin [] seen v = (λ i. inl i, λ c. elim c [ inl i ↦ i | inr (l, n, r) ↦ absurd n ])
ref_lines_iff plugin (l ∷ ls) seen v =
    let later = ref_lines_iff plugin ls (add_version (ref_version plugin l) seen) v in
    (λ i. to (later.0 i), λ c. later.1 (from c))
  where
    next : List Str
    next = add_version (ref_version plugin l) seen

    added : In v next ↔ (In v seen ⊎ (ref_version plugin l ≡ some v))
    added = add_version_iff (ref_version plugin l) seen v

    to : In v next ⊎ IsListed plugin ls v → In v seen ⊎ IsListed plugin (l ∷ ls) v
    to (inr (m, j, r)) = inr (m, inr j, r)
    to (inl j) = elim (added.0 j) [
      | inl k ↦ inl k
      | inr e ↦ inr (l, inl refl, (ref_version_iff plugin l v).0 e)
    ]

    from : In v seen ⊎ IsListed plugin (l ∷ ls) v → In v next ⊎ IsListed plugin ls v
    from (inl k) = inl (added.1 (inl k))
    from (inr (m, inr j, r)) = inr (m, j, r)
    from (inr (m, inl e, r)) =
        inl (added.1 (inr ((ref_version_iff plugin l v).1 (subst (λ z. IsLine plugin z v) e r))))

-- What `parseRefLines` collects are the published versions.
pub parse_ref_lines_iff :
    (out plugin v : Str) → In v (parse_ref_lines out plugin) ↔ IsPublished out plugin v
unfolding parse_ref_lines
parse_ref_lines_iff out plugin v =
    let (to, from) = ref_lines_iff plugin (split out 10) [] v in
    (λ i. elim (to i) [ inl n ↦ absurd n | inr p ↦ p ], λ p. from (inr p))
