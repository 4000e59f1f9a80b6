-- ===== src/Decisions/Sent.antt =====
-- internal/migdecisions/decisions.go: `Applicable`, the decisions that are sent.
use w17ctl.Base.{
  Str, Bool, true, false, not, ◌||◌, Option, none, some, List, [], ◌∷◌, ◌≡◌, ◌∙◌, refl, sym, ap,
  subst, ◌≢◌, ◌⊎◌, inl, inr, if◌then◌else◌, arith, In, Bool-cases, is_some, str_compare,
}
use w17ctl.Base.Assoc.{Map, get, keys, get-In-keys}
use w17ctl.Base.Sort.{sort_strings, sort-In}
use w17ctl.Decisions.{File, ident, flag, usable}
use w17ctl.Decisions.Sets.{has}
use w17ctl.Decisions.Groups.{
  Groups, or_nil, by_key, same_flags, place, sort_out, duplicates, deciding, by_key-deciding,
  IsDeciding, In-deciding, deciding-In, same_flags_lem, same_flags_differs,
}

-- `skip[g[0].Ident()] = true` for every conflicting group
unfoldable pub first_idents : List (List File) → List Str
first_idents [] = []
first_idents ([] ∷ gs) = first_idents gs
first_idents ((f ∷ fs) ∷ gs) = ident f ∷ first_idents gs

-- the loop over the files, with the set `seen`
unfoldable pub unseen : List Str → List Str → List File → List File
unfolding has
unseen skip seen [] = []
unseen skip seen (f ∷ fs) =
    let pass = unseen skip seen fs in
    let take = unseen skip (ident f ∷ seen) fs in
    if not (usable f) || has skip (ident f) || has seen (ident f) then pass else f ∷ take

-- `Applicable(files)`
unfoldable pub applicable : List File → List File
unfolding duplicates first_idents unseen
applicable fs = unseen (first_idents (duplicates fs).1) [] fs

-- A group of several files that do not all have the first one's flag.
abbrev IsConflict : List File → Str → Type 0
IsConflict [] k = ⊥
IsConflict (f ∷ gs) k = (same_flags f gs ≡ false) × (ident f ≡ k)

place-skips :
    (g : List File) (k : Str) (r : Groups) → IsConflict g k → In k (first_idents (place g r).1)
unfolding place first_idents same_flags
place-skips [] k r h = absurd h
place-skips (f ∷ []) k r (h, _) = absurd (ground arith)
place-skips (f ∷ g ∷ gs) k (r, c) (h, e) = split (same_flags f (g ∷ gs)) h
  where
    split :
        (b : Bool)
        → b ≡ false
        → In k (
            first_idents
              (if◌then◌else◌ {A = Groups} b ((f ∷ g ∷ gs) ∷ r, c) (r, (f ∷ g ∷ gs) ∷ c)).1)
    split true q = absurd (ground arith)
    split false q = inl (sym e)

place_keeps :
    (g : List File) (k : Str) (r : Groups)
    → In k (first_idents r.1)
    → In k (first_idents (place g r).1)
unfolding place first_idents
place_keeps [] k r h = h
place_keeps (f ∷ []) k r h = h
place_keeps (f ∷ g ∷ gs) k (r, c) h = split (same_flags f (g ∷ gs))
  where
    split :
        (b : Bool)
        → In k (
            first_idents
              (if◌then◌else◌ {A = Groups} b ((f ∷ g ∷ gs) ∷ r, c) (r, (f ∷ g ∷ gs) ∷ c)).1)
    split true = h
    split false = inr h

In-place :
    (g : List File) (k : Str) (r : Groups)
    → In k (first_idents (place g r).1)
    → IsConflict g k ⊎ In k (first_idents r.1)
unfolding place first_idents same_flags
In-place [] k r h = inr h
In-place (f ∷ []) k r h = inr h
In-place (f ∷ g ∷ gs) k (r, c) h = split (same_flags f (g ∷ gs)) refl h
  where
    split :
        (b : Bool)
        → same_flags f (g ∷ gs) ≡ b
        → In k (
            first_idents
              (if◌then◌else◌ {A = Groups} b ((f ∷ g ∷ gs) ∷ r, c) (r, (f ∷ g ∷ gs) ∷ c)).1)
        → IsConflict (f ∷ g ∷ gs) k ⊎ In k (first_idents c)
    split true e t = inr t
    split false e (inl q) = inl (e, sym q)
    split false e (inr t) = inr t

sort_out-skips :
    (m : Map (List File)) (ks : List Str) (j k : Str)
    → In j ks
    → IsConflict (or_nil (get m j)) k
    → In k (first_idents (sort_out m ks).1)
unfolding sort_out
sort_out-skips m [] j k h c = absurd h
sort_out-skips m (i ∷ ks) j k (inl q) c =
    place-skips (or_nil (get m i)) k (sort_out m ks)
      (subst (λ x. IsConflict (or_nil (get m x)) k) q c)
sort_out-skips m (i ∷ ks) j k (inr t) c =
    place_keeps (or_nil (get m i)) k (sort_out m ks) (sort_out-skips m ks j k t c)

In-sort_out :
    (m : Map (List File)) (ks : List Str) (k : Str)
    → In k (first_idents (sort_out m ks).1)
    → (j : Str) × IsConflict (or_nil (get m j)) k
unfolding sort_out first_idents
In-sort_out m [] k h = absurd h
In-sort_out m (i ∷ ks) k h = elim (In-place (or_nil (get m i)) k (sort_out m ks) h) [
  | inl c ↦ (i, c)
  | inr t ↦ In-sort_out m ks k t
]

group_of : (fs : List File) (k : Str) → or_nil (get (by_key fs []) k) ≡ deciding k fs
unfolding get
group_of fs k = by_key-deciding k fs []

-- Two usable files decide one change differently.
abbrev pub IsContested : List File → Str → Type 0
IsContested fs k =
    (f : File) × (g : File) × IsDeciding fs k f × IsDeciding fs k g × (flag f ≢ flag g)

conflict-IsContested :
    (fs : List File) (j k : Str) (l : List File)
    → ((f : File) → In f l → IsDeciding fs j f)
    → IsConflict l k
    → IsContested fs k
conflict-IsContested fs j k [] h c = absurd c
conflict-IsContested fs j k (f ∷ gs) h (c, e) =
    let (g, m, d) = same_flags_differs f gs c in
    let first = h f (inl refl) in
    let second = h g (inr m) in
    let same = sym first.2 ∙ e in
    (f, g, (first.0, first.1, e), (second.0, second.1, second.2 ∙ same), λ q. d (sym q))

contested-IsConflict :
    (k : Str) (l : List File) (f g : File)
    → ((a : File) → In a l → ident a ≡ k)
    → In f l
    → In g l
    → flag f ≢ flag g
    → IsConflict l k
contested-IsConflict k [] f g h hf hg d = absurd hf
contested-IsConflict k (a ∷ bs) f g h hf hg d = elim (Bool-cases (same_flags a bs)) [
  | inr e ↦ (e, h a (inl refl))
  | inl e ↦ absurd (d (alike e f hf ∙ sym (alike e g hg)))
]
  where
    alike : same_flags a bs ≡ true → (b : File) → In b (a ∷ bs) → flag b ≡ flag a
    alike e b (inl q) = ap flag q
    alike e b (inr t) = same_flags_lem a bs b e t

found-is_some : (f : File) (o : Option (List File)) → In f (or_nil o) → is_some o ≡ true
found-is_some f none h = absurd h
found-is_some f (some g) h = refl

pub skips-IsContested :
    (fs : List File) (k : Str) → In k (first_idents (duplicates fs).1) → IsContested fs k
unfolding duplicates
skips-IsContested fs k h =
    let m = by_key fs [] in
    let (j, c) = In-sort_out m (sort_strings (keys m)) k h in
    conflict-IsContested fs j k (deciding j fs) (λ f. In-deciding fs j f)
      (subst (λ l. IsConflict l k) (group_of fs j) c)

pub IsContested-skips :
    (fs : List File) (k : Str) → IsContested fs k → In k (first_idents (duplicates fs).1)
unfolding duplicates sort_strings
IsContested-skips fs k (f, g, hf, hg, d) =
    let m = by_key fs [] in
    let here = deciding-In fs k f hf in
    let conflict =
      contested-IsConflict k (deciding k fs) f g (λ a t. (In-deciding fs k a t).2) here
        (deciding-In fs k g hg) d in
    let present = found-is_some f (get m k) (subst (λ l. In f l) (sym (group_of fs k)) here) in
    sort_out-skips m (sort_strings (keys m)) k k
      (sort-In str_compare k (keys m) (get-In-keys m k present))
      (subst (λ l. IsConflict l k) (sym (group_of fs k)) conflict)

module _ (skip : List Str) where
  pub In-unseen :
      (seen : List Str) (fs : List File) (h : File)
      → In h (unseen skip seen fs)
      → In h fs × (usable h ≡ true) × (has skip (ident h) ≡ false) × (has seen (ident h) ≡ false)
  unfolding unseen has
  In-unseen seen [] h t = absurd t
  In-unseen seen (f ∷ fs) h t =
      split (usable f) (has skip (ident f)) (has seen (ident f)) refl refl refl
        (In-unseen seen fs h) (In-unseen (ident f ∷ seen) fs h) t
    where
      Good : List Str → List File → Type 0
      Good s l =
          In h l × (usable h ≡ true) × (has skip (ident h) ≡ false) × (has s (ident h) ≡ false)

      split :
          (u a b : Bool)
          → usable f ≡ u
          → has skip (ident f) ≡ a
          → has seen (ident f) ≡ b
          → (In h (unseen skip seen fs) → Good seen fs)
          → (In h (unseen skip (ident f ∷ seen) fs) → Good (ident f ∷ seen) fs)
          → In h
              (if not u || a || b then unseen skip seen fs else f ∷ unseen skip (ident f ∷ seen) fs)
          → Good seen (f ∷ fs)
      split false a b x y z pass take r = let (i, j, k, l) = pass r in (inr i, j, k, l)
      split true true b x y z pass take r = let (i, j, k, l) = pass r in (inr i, j, k, l)
      split true false true x y z pass take r = let (i, j, k, l) = pass r in (inr i, j, k, l)
      split true false false x y z pass take (inl q) = (inl q, rw q x, rw q y, rw q z)
      split true false false x y z pass take (inr r) =
          let (i, j, k, l) = take r in (inr i, j, k, ground arith)
