-- ===== src/Decisions/Payload.antt =====
-- internal/migdecisions/decisions.go: `Payload` and `insideRoot`. What the file system answers, and
-- the functions of `path/filepath`, are parameters.
use w17ctl.Base.{
  Str, codes, str_eq, has_prefix, Bool, true, false, not, ◌||◌, Option, none, some, List, [], ◌∷◌,
  ◌++◌, map, append_assoc, append-nil, ◌≡◌, ◌∙◌, refl, sym, ap, subst, ℕ, cut, split, onto_first,
  In, Bool-cases, str_eq_iff, ◌⊎◌, inl, inr, if◌then◌else◌, arith,
}
use w17ctl.Base.Assoc.{Map, get, put, get-put}
use w17ctl.Base.Cutting.{cut-found, cut_whole, has_prefix-append}
use w17ctl.Decisions.{File, flag, custom}

-- `filepath.EvalSymlinks` and `os.ReadFile`, each with an error's text on the left, and
-- `filepath.Join` and `filepath.Rel`, whose error is `none`.
pub record FileSystem : Type 0 where
  pub eval_symlinks : Str → Str ⊎ Str
  pub read_file : Str → Str ⊎ Str
  pub join : Str → Str → Str
  pub rel : Str → Str → Option Str

pub data Refusal : Type 0 where
  absolute : Refusal
  unresolved : Str → Refusal
  outside : Str → Refusal
  unreadable : Str → Refusal

-- `r == ".." || strings.HasPrefix(r, "../")`
unfoldable pub climbs : Str → Bool
climbs r = str_eq r (codes "..") || has_prefix r (codes "../")

-- the answer of `filepath.Rel`, judged
unfoldable pub judge : Str → Option Str → Refusal ⊎ Str
unfolding climbs
judge real none = inl (outside real)
judge real (some r) = if climbs r then inl (outside real) else inr real

-- the links of the root and of the path, resolved
unfoldable pub within : FileSystem → Str ⊎ Str → Str ⊎ Str → Refusal ⊎ Str
unfolding judge
within fs (inl e) y = inl (unresolved e)
within fs (inr real_root) (inl e) = inl (unresolved e)
within fs (inr real_root) (inr real) = judge real (fs.rel real_root real)

-- `insideRoot(root, rel)`; an absolute path begins with a slash
unfoldable pub inside_root : FileSystem → Str → Str → Refusal ⊎ Str
unfolding within
inside_root fs root p =
    if has_prefix p (codes "/")
    then inl absolute
    else within fs (fs.eval_symlinks root) (fs.eval_symlinks (fs.join root p))

abbrev contents : Str ⊎ Str → Refusal ⊎ Str
contents (inl e) = inl (unreadable e)
contents (inr body) = inr body

abbrev then_read : FileSystem → Refusal ⊎ Str → Refusal ⊎ Str
then_read fs (inl e) = inl e
then_read fs (inr real) = contents (fs.read_file real)

-- The body of the file that a path names.
unfoldable pub custom_sql : FileSystem → Str → Str → Refusal ⊎ Str
unfolding inside_root
custom_sql fs root p = then_read fs (inside_root fs root p)

abbrev pub Sent : Type 0
Sent = List Str × Map Str

-- the loop over the files, with what it has so far
unfoldable pub payload_onto :
    FileSystem → Str → List File → List Str → Map Str → (File × Refusal) ⊎ Sent
unfolding custom_sql
payload_onto fs root [] flags m = inr (flags, m)
payload_onto fs root (f ∷ rest) flags m =
    let plain = payload_onto fs root rest (flags ++ flag f ∷ []) m in
    if not (str_eq f.choice custom) then plain else elim (custom_sql fs root f.custom_path) [
      | inl e ↦ inl (f, e)
      | inr body ↦ payload_onto fs root rest (flags ++ flag f ∷ []) (put m f.custom_path body)
    ]

-- `Payload(root, files)`
unfoldable pub payload : FileSystem → Str → List File → (File × Refusal) ⊎ Sent
unfolding payload_onto
payload fs root files = payload_onto fs root files [] []

-- The elements of a path.
abbrev pub elements : Str → List Str
elements p = split p b'/'

-- A relative path without an element `..`.
abbrev pub IsDownward : Str → Type 0
IsDownward r = (has_prefix r (codes "/") ≡ false) × (¬ (In (codes "..") (elements r)))

-- A relative path that goes up, if at all, at its front.
abbrev pub IsClean : Str → Type 0
IsClean r =
    (has_prefix r (codes "/") ≡ false)
    × (In (codes "..") (elements r) → (rest : List Str) × (elements r ≡ codes ".." ∷ rest))

-- The target is the base or below it; `/` and `.` are joined without a further slash.
abbrev pub IsUnder : Str → Str → Type 0
IsUnder base target =
    (target ≡ base)
    ⊎ ((rest : Str) × IsDownward rest
        × ((target ≡ base ++ codes "/" ++ rest)
            ⊎ ((base ≡ codes "/") × (target ≡ codes "/" ++ rest))
            ⊎ ((base ≡ codes ".") × (target ≡ rest))))

-- The body of a relative path was read where the path leads, all links resolved, and that is the
-- project's root, its links resolved, or below it.
abbrev pub IsInside : FileSystem → Str → Str → Str → Type 0
IsInside fs root p body =
    (real_root : Str) × (real : Str) × (has_prefix p (codes "/") ≡ false)
    × (fs.eval_symlinks root ≡ inr real_root)
    × (fs.eval_symlinks (fs.join root p) ≡ inr real)
    × IsUnder real_root real
    × (fs.read_file real ≡ inr body)

abbrev IsAllInside : FileSystem → Str → Map Str → Type 0
IsAllInside fs root m = (p b : Str) → get m p ≡ some b → IsInside fs root p b

abbrev head_of : List Str → Str
head_of [] = []
head_of (x ∷ l) = x

head_of-onto_first : (c : ℕ) (l : List Str) → head_of (onto_first c l) ≡ c ∷ head_of l
head_of-onto_first c [] = refl
head_of-onto_first c (x ∷ l) = refl

head_of-split : (s : Str) (c : ℕ) → head_of (split s c) ≡ (cut s c).0
unfolding split cut
head_of-split [] c = refl
head_of-split (d ∷ s) c = ground (arith, head_of-onto_first d (split s c), head_of-split s c)

first_element : (s x : Str) (rest : List Str) → elements s ≡ x ∷ rest → (cut s b'/').0 ≡ x
first_element s x rest h = sym (head_of-split s b'/') ∙ ap head_of h

-- What begins with the element `..` climbs.
climbs_up : (r : Str) (rest : List Str) → elements r ≡ codes ".." ∷ rest → climbs r ≡ true
unfolding climbs
climbs_up r rest h = by_cut (cut r b'/').2 refl
  where
    up : (cut r b'/').0 ≡ codes ".."
    up = first_element r (codes "..") rest h

    by_cut :
        (b : Bool)
        → (cut r b'/').2 ≡ b
        → (str_eq r (codes "..") || has_prefix r (codes "../")) ≡ true
    by_cut false e =
        ap (λ z. z || has_prefix r (codes "../"))
          ((str_eq_iff r (codes "..")).1 (sym (cut_whole r b'/' e) ∙ up))
    by_cut true e =
        let behind : Str = (cut r b'/').1 in
        let q : r ≡ codes "../" ++ behind =
          (cut-found r b'/' e).0 ∙ ap (λ z. z ++ b'/' ∷ behind) up in
        let p : has_prefix r (codes "../") ≡ true =
          ap (λ z. has_prefix z (codes "../")) q ∙ has_prefix-append (codes "../") behind in
        ground (arith, p)

climbs-IsDownward : (r : Str) → IsClean r → climbs r ≡ false → IsDownward r
climbs-IsDownward r (relative, front) h =
    (relative, λ i. let (rest, e) = front i in ground (arith, climbs_up r rest e))

module _ (fs : FileSystem) (root : Str) where
  -- documented of `Rel`, for resolved paths: joining the base with the answer leads to the target, and
  -- the answer is a relative path that is clean
  abbrev pub IsRel : Type 0
  IsRel =
      (x y base target r : Str)
      → fs.eval_symlinks x ≡ inr base
      → fs.eval_symlinks y ≡ inr target
      → fs.rel base target ≡ some r
      → (fs.join base r ≡ target) × IsClean r

  -- documented of `Join`, for a resolved base: the elements of the path follow those of the base
  abbrev pub IsJoin : Type 0
  IsJoin =
      (x base r : Str)
      → fs.eval_symlinks x ≡ inr base
      → IsDownward r
      → IsUnder base (fs.join base r)

  judge-inside :
      (real : Str) (o : Option Str) (q : Str)
      → judge real o ≡ inr q
      → (r : Str) × (q ≡ real) × (o ≡ some r) × (climbs r ≡ false)
  unfolding judge
  judge-inside real none q h = absurd (ground arith)
  judge-inside real (some r) q h = split_on (climbs r) refl h
    where
      split_on :
          (b : Bool)
          → climbs r ≡ b
          → (if◌then◌else◌ {A = Refusal ⊎ Str} b (inl (outside real)) (inr real)) ≡ inr q
          → (s : Str) × (q ≡ real) × (some r ≡ some s) × (climbs s ≡ false)
      split_on true e k = absurd (ground arith)
      split_on false e k = (r, ground arith, refl, e)

  within-inside :
      IsRel
      → IsJoin
      → (x y q : Str) → within fs (fs.eval_symlinks x) (fs.eval_symlinks y) ≡ inr q
      → (real_root : Str) × (fs.eval_symlinks x ≡ inr real_root)
        × (fs.eval_symlinks y ≡ inr q)
        × IsUnder real_root q
  unfolding within
  within-inside rel_law join_law x y q = go (fs.eval_symlinks x) (fs.eval_symlinks y) refl refl
    where
      go :
          (a b : Str ⊎ Str)
          → fs.eval_symlinks x ≡ a
          → fs.eval_symlinks y ≡ b
          → within fs a b ≡ inr q
          → (real_root : Str) × (a ≡ inr real_root) × (b ≡ inr q) × IsUnder real_root q
      go (inl e) b f g h = absurd (ground arith)
      go (inr d) (inl e) f g h = absurd (ground arith)
      go (inr d) (inr t) f g h =
          let (r, k, o, c) = judge-inside t (fs.rel d t) q h in
          let (j, clean) = rel_law x y d t r f g o in
          (
            d,
            refl,
            ap inr (sym k),
            subst (IsUnder d) (j ∙ sym k) (join_law x d r f (climbs-IsDownward r clean c)),
          )

  contents-body : (body : Str) (o : Str ⊎ Str) → contents o ≡ inr body → o ≡ inr body
  contents-body body (inl e) h = absurd (ground arith)
  contents-body body (inr b) h = ground arith

  custom_sql-IsInside :
      IsRel → IsJoin → (p body : Str) → custom_sql fs root p ≡ inr body → IsInside fs root p body
  unfolding custom_sql inside_root
  custom_sql-IsInside rel_law join_law p body h = outer (has_prefix p (codes "/")) refl h
    where
      inner :
          (o : Refusal ⊎ Str)
          → then_read fs o ≡ inr body
          → (q : Str) × (o ≡ inr q) × (fs.read_file q ≡ inr body)
      inner (inl e) k = absurd (ground arith)
      inner (inr q) k = (q, refl, contents-body body (fs.read_file q) k)

      outer :
          (b : Bool)
          → has_prefix p (codes "/") ≡ b
          → then_read fs (
              if b
              then inl absolute
              else within fs (fs.eval_symlinks root) (fs.eval_symlinks (fs.join root p)))
            ≡ inr body
          → IsInside fs root p body
      outer true e k = absurd (ground arith)
      outer false e k =
          let (q, o, read) =
            inner (within fs (fs.eval_symlinks root) (fs.eval_symlinks (fs.join root p))) k in
          let (d, f, g, under) = within-inside rel_law join_law root (fs.join root p) q o in
          (d, q, e, f, g, under, read)

  payload_onto-IsInside :
      IsRel
      → IsJoin
      → (files : List File) (flags : List Str) (m : Map Str) (out : Sent) → IsAllInside fs root m
      → payload_onto fs root files flags m ≡ inr out
      → (out.0 ≡ flags ++ map flag files) × IsAllInside fs root out.1
  unfolding payload_onto
  payload_onto-IsInside law join_law [] flags m (gs, w) h e = (
    ap (λ o. o.0) (inr-out e) ∙ sym (append-nil flags),
    subst (λ o. IsAllInside fs root o.1) (sym (inr-out e)) h,
  )
    where
      here : Sent
      here = (flags, m)

      there : Sent
      there = (gs, w)

      inr-out : ◌≡◌ {A = (File × Refusal) ⊎ Sent} (inr here) (inr there) → there ≡ here
      inr-out k = ground arith
  payload_onto-IsInside law join_law (f ∷ rest) flags m out h e =
      split (str_eq f.choice custom) (custom_sql fs root f.custom_path) refl
        (payload_onto-IsInside law join_law rest (flags ++ flag f ∷ []) m out h)
        (λ b.
          payload_onto-IsInside law join_law rest (flags ++ flag f ∷ []) (put m f.custom_path b)
            out)
        e
    where
      Goal : List Str → Type 0
      Goal l = (out.0 ≡ l ++ map flag rest) × IsAllInside fs root out.1

      regroup :
          Goal (flags ++ flag f ∷ [])
          → (out.0 ≡ flags ++ map flag (f ∷ rest)) × IsAllInside fs root out.1
      regroup (q, i) = (q ∙ append_assoc flags (flag f ∷ []) (map flag rest), i)

      grown :
          (b : Str) → IsInside fs root f.custom_path b → IsAllInside fs root (put m f.custom_path b)
      grown b i p c k = elim (Bool-cases (str_eq f.custom_path p)) [
        | inr n ↦ h p c (ground (arith, get-put m f.custom_path p b))
        | inl y ↦
            let at : p ≡ f.custom_path = sym ((str_eq_iff f.custom_path p).0 y) in
            let same : c ≡ b = ground (arith, get-put m f.custom_path p b) in
            subst (λ z. IsInside fs root z c) (sym at)
              (subst (IsInside fs root f.custom_path) (sym same) i)
      ]

      split :
          (t : Bool) (r : Refusal ⊎ Str)
          → custom_sql fs root f.custom_path ≡ r
          → (payload_onto fs root rest (flags ++ flag f ∷ []) m ≡ inr out
              → Goal (flags ++ flag f ∷ []))
          → ((b : Str)
              → IsAllInside fs root (put m f.custom_path b)
              → payload_onto fs root rest (flags ++ flag f ∷ []) (put m f.custom_path b) ≡ inr out
              → Goal (flags ++ flag f ∷ []))
          → (if◌then◌else◌ {A = (File × Refusal) ⊎ Sent}
              (not t)
              (payload_onto fs root rest (flags ++ flag f ∷ []) m)
              (elim r [
                | inl x ↦ inl (f, x)
                | inr body ↦
                    payload_onto fs root rest (flags ++ flag f ∷ []) (put m f.custom_path body)
              ]))
            ≡ inr out
          → (out.0 ≡ flags ++ map flag (f ∷ rest)) × IsAllInside fs root out.1
      split false r w plain with_body k = regroup (plain k)
      split true (inl x) w plain with_body k = absurd (ground arith)
      split true (inr b) w plain with_body k =
          regroup (with_body b (grown b (custom_sql-IsInside law join_law f.custom_path b w)) k)

  -- Where `filepath.Rel` and `filepath.Join` do as documented: a payload that is built holds the flag of
  -- every file, in the files' order, and every custom SQL body in it stands under a relative path and was
  -- read where that path leads from the project root, all links resolved - at the root's resolved
  -- directory or below it, and nowhere above or beside it.
  pub payload-IsInside :
      IsRel
      → IsJoin
      → (files : List File) (out : Sent) → payload fs root files ≡ inr out
      → (out.0 ≡ map flag files) × ((p b : Str) → get out.1 p ≡ some b → IsInside fs root p b)
  unfolding payload get
  payload-IsInside law join_law files out h =
      payload_onto-IsInside law join_law files [] [] out none_yet h
    where
      none_yet : IsAllInside fs root []
      none_yet p b k = cc
