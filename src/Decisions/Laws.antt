-- ===== src/Decisions/Laws.antt =====
-- internal/migdecisions/decisions.go: what the decisions sent by `Applicable` are.
use w17ctl.Base.{
  Str, str_eq, str_eq_iff, Bool, true, false, not, ◌||◌, List, [], ◌∷◌, ◌≡◌, ◌∙◌, refl, sym, ap,
  ◌≢◌, inl, inr, if◌then◌else◌, arith, In, Bool-cases,
}
use w17ctl.Decisions.{File, ident, flag, usable}
use w17ctl.Decisions.Sets.{has, has_iff}
use w17ctl.Decisions.Groups.{duplicates}
use w17ctl.Decisions.Sent.{
  first_idents, unseen, applicable, IsContested, skips-IsContested, IsContested-skips, In-unseen,
}

-- No two of the files decide one change.
abbrev pub IsOnce : List File → Type 0
IsOnce [] = Unit
IsOnce (f ∷ fs) = ((g : File) → In g fs → ident g ≢ ident f) × IsOnce fs

module _ (skip : List Str) where
  fresh :
      (seen : List Str) (f : File) (fs : List File) (g : File)
      → In g (unseen skip (ident f ∷ seen) fs)
      → ident g ≢ ident f
  unfolding has
  fresh seen f fs g t q =
      let (i, u, a, b) = In-unseen skip (ident f ∷ seen) fs g t in
      ground (arith, str_eq_iff (ident f) (ident g))

  unseen-IsOnce : (seen : List Str) (fs : List File) → IsOnce (unseen skip seen fs)
  unfolding unseen
  unseen-IsOnce seen [] = tt
  unseen-IsOnce seen (f ∷ fs) =
      split (not (usable f) || has skip (ident f) || has seen (ident f)) (unseen-IsOnce seen fs)
        (unseen-IsOnce (ident f ∷ seen) fs)
    where
      split :
          (b : Bool)
          → IsOnce (unseen skip seen fs)
          → IsOnce (unseen skip (ident f ∷ seen) fs)
          → IsOnce (if b then unseen skip seen fs else f ∷ unseen skip (ident f ∷ seen) fs)
      split true pass take = pass
      split false pass take = (fresh seen f fs, take)

  unseen-In :
      (seen : List Str) (fs : List File) (f : File)
      → In f fs
      → usable f ≡ true
      → has skip (ident f) ≡ false
      → has seen (ident f) ≡ false
      → (g : File) × In g (unseen skip seen fs) × (ident g ≡ ident f)
  unfolding unseen has
  unseen-In seen [] f h u a b = absurd h
  unseen-In seen (x ∷ xs) f h u a b =
      split (usable x) (has skip (ident x)) (has seen (ident x)) (str_eq (ident x) (ident f)) refl
        refl refl refl (unseen-In seen xs f) (unseen-In (ident x ∷ seen) xs f)
    where
      Found : List File → Type 0
      Found l = (g : File) × In g l × (ident g ≡ ident f)

      apart : str_eq (ident x) (ident f) ≡ false → f ≡ x → ⊥
      apart s k = ground (arith, (str_eq_iff (ident x) (ident f)).1 (sym (ap ident k)))

      behind : (f ≡ x → ⊥) → In f xs
      behind d = elim h [ inl q ↦ absurd (d q) | inr t ↦ t ]

      split :
          (v c d e : Bool)
          → usable x ≡ v
          → has skip (ident x) ≡ c
          → has seen (ident x) ≡ d
          → str_eq (ident x) (ident f) ≡ e
          → (In f xs
              → usable f ≡ true
              → has skip (ident f) ≡ false
              → has seen (ident f) ≡ false
              → Found (unseen skip seen xs))
          → (In f xs
              → usable f ≡ true
              → has skip (ident f) ≡ false
              → has (ident x ∷ seen) (ident f) ≡ false
              → Found (unseen skip (ident x ∷ seen) xs))
          → Found
              (if not v || c || d then unseen skip seen xs else x ∷ unseen skip (ident x ∷ seen) xs)
      split false c d e p q r s pass take =
          pass (behind (λ k. ground (arith, sym (ap usable k) ∙ u))) u a b
      split true true d true p q r s pass take =
          absurd (ground (arith, ap (has skip) ((str_eq_iff (ident x) (ident f)).0 s)))
      split true false true true p q r s pass take =
          absurd (ground (arith, ap (has seen) ((str_eq_iff (ident x) (ident f)).0 s)))
      split true false false true p q r s pass take =
          (x, inl refl, (str_eq_iff (ident x) (ident f)).0 s)
      split true true d false p q r s pass take = pass (behind (apart s)) u a b
      split true false true false p q r s pass take = pass (behind (apart s)) u a b
      split true false false false p q r s pass take =
          let (g, m, k) = take (behind (apart s)) u a (ground arith) in (g, inr m, k)

-- The decisions sent are usable files of the given ones, and no two of them decide one change.
pub applicable-IsOnce :
    (fs : List File)
    → IsOnce (applicable fs) × ((f : File) → In f (applicable fs) → In f fs × (usable f ≡ true))
unfolding applicable
applicable-IsOnce fs =
    let skip = first_idents (duplicates fs).1 in
    (unseen-IsOnce skip [] fs, λ f h. let (m, u, _, _) = In-unseen skip [] fs f h in (m, u))

-- A change that two usable files decide differently is sent no decision: neither file wins.
pub applicable_contested :
    (fs : List File) (f g h : File)
    → In f fs
    → In g fs
    → usable f ≡ true
    → usable g ≡ true
    → ident f ≡ ident g
    → flag f ≢ flag g
    → In h (applicable fs)
    → ident h ≢ ident f
unfolding applicable
applicable_contested fs f g h hf hg uf ug e d t q =
    let skip = first_idents (duplicates fs).1 in
    let (_, _, a, _) = In-unseen skip [] fs h t in
    let skipped = IsContested-skips fs (ident f) (f, g, (hf, uf, refl), (hg, ug, sym e), d) in
    ground (arith, ap (has skip) q, (has_iff skip (ident f)).1 skipped)

-- A usable file whose change no other usable file decides differently is sent: either itself, or a
-- file of the list that decides the same change and renders as the same flag.
pub applicable_settled :
    (fs : List File) (f : File)
    → In f fs
    → usable f ≡ true
    → ((g : File) → In g fs → usable g ≡ true → ident g ≡ ident f → flag g ≡ flag f)
    → (g : File) × In g (applicable fs) × (ident g ≡ ident f) × (flag g ≡ flag f)
unfolding applicable
applicable_settled fs f h u s =
    let skip = first_idents (duplicates fs).1 in
    let (g, m, e) =
      unseen-In skip [] fs f h u
        (elim (Bool-cases (has skip (ident f))) [
          | inr n ↦ n
          | inl y ↦ absurd (settled (skips-IsContested fs (ident f) ((has_iff skip (ident f)).0 y)))
        ])
        (ground arith) in
    let (i, v, _, _) = In-unseen skip [] fs g m in (g, m, e, s g i v e)
  where
    settled : IsContested fs (ident f) → ⊥
    settled (a, b, (ia, ua, ea), (ib, ub, eb), d) = d (s a ia ua ea ∙ sym (s b ib ub eb))
