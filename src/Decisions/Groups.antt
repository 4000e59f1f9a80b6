-- ===== src/Decisions/Groups.antt =====
-- internal/migdecisions/decisions.go: `Duplicates`, the usable files by the change they decide.
use w17ctl.Base.{
  Str, str_eq, str_eq_iff, Bool, true, false, ◌&&◌, Option, none, some, List, [], ◌∷◌, ◌++◌,
  append-nil, append_assoc, ◌≡◌, ◌∙◌, subst, refl, sym, ap, ◌≢◌, inl, inr, if◌then◌else◌, arith, In,
}
use w17ctl.Base.Assoc.{Map, get, put, keys, get-put}
use w17ctl.Base.Sort.{sort_strings}
use w17ctl.Decisions.{File, ident, flag, usable}

-- what `m[k]` reads: nothing under a missing key
abbrev pub or_nil : Option (List File) → List File
or_nil none = []
or_nil (some g) = g

-- the loop that fills `byKey`
unfoldable pub by_key : List File → Map (List File) → Map (List File)
by_key [] m = m
by_key (f ∷ fs) m =
    by_key fs (if usable f then put m (ident f) (or_nil (get m (ident f)) ++ f ∷ []) else m)

-- every file of the rest of the group has the first one's flag
unfoldable pub same_flags : File → List File → Bool
same_flags f [] = true
same_flags f (g ∷ gs) = let rest = same_flags f gs in str_eq (flag g) (flag f) && rest

abbrev pub Groups : Type 0
Groups = List (List File) × List (List File)

-- A group goes to the redundant ones, to the conflicting ones, or is alone.
unfoldable pub place : List File → Groups → Groups
unfolding same_flags
place [] r = r
place (f ∷ []) r = r
place (f ∷ g ∷ gs) (redundant, conflicting) =
    if same_flags f (g ∷ gs)
    then ((f ∷ g ∷ gs) ∷ redundant, conflicting)
    else (redundant, (f ∷ g ∷ gs) ∷ conflicting)

unfoldable pub sort_out : Map (List File) → List Str → Groups
unfolding place
sort_out m [] = ([], [])
sort_out m (k ∷ ks) = place (or_nil (get m k)) (sort_out m ks)

-- `Duplicates(files)`: the redundant groups and the conflicting ones
unfoldable pub duplicates : List File → Groups
unfolding by_key sort_out
duplicates fs = let m = by_key fs [] in sort_out m (sort_strings (keys m))

-- The usable files that decide one change, in their order.
unfoldable pub deciding : Str → List File → List File
deciding k [] = []
deciding k (f ∷ fs) =
    let rest = deciding k fs in if usable f && str_eq (ident f) k then f ∷ rest else rest

step :
    (k : Str) (f : File) (m : Map (List File))
    → or_nil (get (if usable f then put m (ident f) (or_nil (get m (ident f)) ++ f ∷ []) else m) k)
      ≡ or_nil (get m k) ++ deciding k (f ∷ [])
unfolding deciding
step k f m = ground (
  arith,
  get-put m (ident f) k (or_nil (get m (ident f)) ++ f ∷ []),
  str_eq_iff (ident f) k,
  append-nil (or_nil (get m k)),
)

deciding-cons :
    (k : Str) (f : File) (fs : List File)
    → deciding k (f ∷ fs) ≡ deciding k (f ∷ []) ++ deciding k fs
unfolding deciding
deciding-cons k f fs = ground arith

pub by_key-deciding :
    (k : Str) (fs : List File) (m : Map (List File))
    → or_nil (get (by_key fs m) k) ≡ or_nil (get m k) ++ deciding k fs
unfolding by_key deciding
by_key-deciding k [] m = sym (append-nil (or_nil (get m k)))
by_key-deciding k (f ∷ fs) m =
    by_key-deciding k fs
      (if usable f then put m (ident f) (or_nil (get m (ident f)) ++ f ∷ []) else m)
    ∙ ap (λ g. g ++ deciding k fs) (step k f m)
    ∙ append_assoc (or_nil (get m k)) (deciding k (f ∷ [])) (deciding k fs)
    ∙ ap (λ g. or_nil (get m k) ++ g) (sym (deciding-cons k f fs))

-- A usable file of a list decides one change.
abbrev pub IsDeciding : List File → Str → File → Type 0
IsDeciding fs k f = In f fs × (usable f ≡ true) × (ident f ≡ k)

pub In-deciding : (fs : List File) (k : Str) (f : File) → In f (deciding k fs) → IsDeciding fs k f
unfolding deciding
In-deciding [] k f h = absurd h
In-deciding (g ∷ gs) k f h =
    split (usable g) (str_eq (ident g) k) refl refl
      (λ t. let (m, u, e) = In-deciding gs k f t in (inr m, u, e)) h
  where
    split :
        (b c : Bool)
        → usable g ≡ b
        → str_eq (ident g) k ≡ c
        → (In f (deciding k gs) → IsDeciding (g ∷ gs) k f)
        → In f (if b && c then g ∷ deciding k gs else deciding k gs)
        → IsDeciding (g ∷ gs) k f
    split true true u e later (inl q) = (inl q, rw q u, rw q ((str_eq_iff (ident g) k).0 e))
    split true true u e later (inr t) = later t
    split true false u e later t = later t
    split false c u e later t = later t

pub deciding-In : (fs : List File) (k : Str) (f : File) → IsDeciding fs k f → In f (deciding k fs)
unfolding deciding
deciding-In [] k f h = absurd h.0
deciding-In (g ∷ gs) k f (inr t, u, e) =
    grow (usable g && str_eq (ident g) k) (deciding-In gs k f (t, u, e))
  where
    grow : (b : Bool) → In f (deciding k gs) → In f (if b then g ∷ deciding k gs else deciding k gs)
    grow true h = inr h
    grow false h = h
deciding-In (g ∷ gs) k f (inl q, u, e) = top (usable g) (str_eq (ident g) k) use_here key_here
  where
    use_here : usable g ≡ true
    use_here = subst (λ x. usable x ≡ true) q u

    key_here : str_eq (ident g) k ≡ true
    key_here = (str_eq_iff (ident g) k).1 (subst (λ x. ident x ≡ k) q e)

    top :
        (b c : Bool)
        → b ≡ true
        → c ≡ true
        → In f (if b && c then g ∷ deciding k gs else deciding k gs)
    top true true x y = inl q
    top true false x y = absurd (ground arith)
    top false c x y = absurd (ground arith)

pub same_flags_lem :
    (f : File) (gs : List File) (g : File) → same_flags f gs ≡ true → In g gs → flag g ≡ flag f
unfolding same_flags
same_flags_lem f [] g h m = absurd m
same_flags_lem f (x ∷ xs) g h (inl q) = rw q ((str_eq_iff (flag x) (flag f)).0 (ground arith))
same_flags_lem f (x ∷ xs) g h (inr t) = same_flags_lem f xs g (ground arith) t

pub same_flags_differs :
    (f : File) (gs : List File) → same_flags f gs ≡ false → (g : File) × In g gs × (flag g ≢ flag f)
unfolding same_flags
same_flags_differs f [] h = absurd (ground arith)
same_flags_differs f (x ∷ xs) h =
    split (str_eq (flag x) (flag f)) refl
      (λ t. let (g, m, d) = same_flags_differs f xs t in (g, inr m, d)) h
  where
    split :
        (b : Bool)
        → str_eq (flag x) (flag f) ≡ b
        → (same_flags f xs ≡ false → (g : File) × In g (x ∷ xs) × (flag g ≢ flag f))
        → (b && same_flags f xs) ≡ false
        → (g : File) × In g (x ∷ xs) × (flag g ≢ flag f)
    split false e later _ = (x, inl refl, λ q. ground (arith, str_eq_iff (flag x) (flag f)))
    split true e later t = later t
