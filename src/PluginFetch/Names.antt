-- ===== src/PluginFetch/Names.antt =====
-- internal/pluginfetch/pluginfetch.go: which sources `validate` accepts.
use w17ctl.Base.{
  Str, codes, str_eq, str_eq_iff, str_eq_self, has_prefix, has_byte, split, join, rev, rev_onto,
  Bool, true, false, not, ◌&&◌, none, List, [], ◌∷◌, ◌≡◌, refl, sym, ap, ◌∙◌, subst, ◌↔◌, ◌⊎◌, inl,
  inr, if◌then◌else◌, arith,
}
use w17ctl.Base.Cutting.{rev_onto-rev_onto}
use w17ctl.PluginFetch.{
  Source, is_full_sha, up, step_to, kept, reversed, or_dot, or_slash, path_clean, last_element,
  without_slashes, path_base, validate, validate_release,
}

last_element-plain :
    (s acc : Str) → has_byte 47 acc ≡ false → has_byte 47 (last_element s acc) ≡ false
unfolding last_element has_byte
last_element-plain [] acc h = h
last_element-plain (c ∷ s) acc h = ground (arith, last_element-plain s (c ∷ acc))

path_base-IsPlain : (p : Str) → (has_byte 47 (path_base p) ≡ false) ⊎ (path_base p ≡ codes "/")
unfolding path_base has_byte
path_base-IsPlain [] = inl refl
path_base-IsPlain (c ∷ p) =
    split (last_element (without_slashes (rev (c ∷ p))) [])
      (last_element-plain (without_slashes (rev (c ∷ p))) [] refl)
  where
    split :
        (t : Str)
        → has_byte 47 t ≡ false
        → (has_byte 47 (or_slash t) ≡ false) ⊎ (or_slash t ≡ codes "/")
    split [] h = inr refl
    split (d ∷ t) h = inl h

has_byte-rev_onto :
    (s acc : Str)
    → has_byte 47 s ≡ false
    → has_byte 47 acc ≡ false
    → has_byte 47 (rev_onto s acc) ≡ false
unfolding has_byte
has_byte-rev_onto [] acc h k = k
has_byte-rev_onto (c ∷ s) acc h k = has_byte-rev_onto s (c ∷ acc) (ground arith) (ground arith)

without_slashes-plain : (s : Str) → has_byte 47 s ≡ false → without_slashes s ≡ s
unfolding without_slashes has_byte
without_slashes-plain [] h = refl
without_slashes-plain (c ∷ s) h = ground arith

last_element-rev_onto : (s acc : Str) → has_byte 47 s ≡ false → last_element s acc ≡ rev_onto s acc
unfolding last_element has_byte
last_element-rev_onto [] acc h = refl
last_element-rev_onto (c ∷ s) acc h = ground (arith, last_element-rev_onto s (c ∷ acc))

path_base-plain : (p : Str) → str_eq p [] ≡ false → has_byte 47 p ≡ false → path_base p ≡ p
unfolding path_base str_eq rev has_byte
path_base-plain [] n h = absurd (ground arith)
path_base-plain (c ∷ p) n h = ap or_slash (
    ap (λ t. last_element t []) (without_slashes-plain (rev (c ∷ p)) back)
    ∙ last_element-rev_onto (rev (c ∷ p)) [] back
    ∙ rev_onto-rev_onto (c ∷ p) [])
  where
    back : has_byte 47 (rev (c ∷ p)) ≡ false
    back = has_byte-rev_onto (c ∷ p) [] h refl

split-plain : (p : Str) → has_byte 47 p ≡ false → split p 47 ≡ p ∷ []
unfolding split has_byte
split-plain [] h = refl
split-plain (c ∷ p) h = ground (arith, split-plain p)

rejoined : Bool → List Str → Str
unfolding kept reversed
rejoined rooted ss =
    let text = join (reversed (kept rooted ss []) []) (codes "/") in
    or_dot (if rooted then 47 ∷ text else text)

rejoined-plain : (p : Str) → str_eq p [] ≡ false → rejoined false (p ∷ []) ≡ p
unfolding rejoined kept step_to up reversed join str_eq
rejoined-plain [] n = absurd (ground arith)
rejoined-plain (c ∷ p) n =
    ground (arith, str_eq_iff (c ∷ p) (codes "."), str_eq_iff (c ∷ p) (codes ".."))

path_clean-plain : (p : Str) → str_eq p [] ≡ false → has_byte 47 p ≡ false → path_clean p ≡ p
unfolding path_clean rejoined has_byte has_prefix
path_clean-plain [] n h = absurd (ground (arith, str_eq_self []))
path_clean-plain (c ∷ p) n h =
    ap (λ r. rejoined r (split (c ∷ p) 47)) rooted
    ∙ ap (rejoined false) (split-plain (c ∷ p) h)
    ∙ rejoined-plain (c ∷ p) n
  where
    rooted : has_prefix (c ∷ p) (codes "/") ≡ false
    rooted = ground arith

-- What `validate` takes for a plugin's name: some text without a slash, or the one slash alone.
abbrev pub IsName : Str → Type 0
IsName p = ((str_eq p [] ≡ false) × (has_byte 47 p ≡ false)) ⊎ (p ≡ codes "/")

-- One release is named: a full commit, or a version that starts with `v`.
abbrev pub IsOneRelease : Str → Str → Type 0
IsOneRelease version commit =
    ((version ≡ []) × (is_full_sha commit ≡ true))
    ⊎ (commit ≡ []) × (has_prefix version (codes "v") ≡ true)

slash-IsClean :
    (str_eq (codes "/") [] ≡ false)
    × (str_eq (path_clean (codes "/")) (codes "/") ≡ true)
    × (str_eq (path_base (codes "/")) (codes "/") ≡ true)
unfolding str_eq path_clean path_base kept step_to up reversed join split last_element
    without_slashes rev has_prefix
slash-IsClean = (refl, refl, refl)

named_iff :
    (p : Str)
    → ((str_eq p [] ≡ false) × (str_eq (path_clean p) p ≡ true) × (str_eq (path_base p) p ≡ true))
      ↔ IsName p
named_iff p = (forward (path_base-IsPlain p), backward)
  where
    forward :
        (has_byte 47 (path_base p) ≡ false) ⊎ (path_base p ≡ codes "/")
        → (str_eq p [] ≡ false) × (str_eq (path_clean p) p ≡ true) × (str_eq (path_base p) p ≡ true)
        → IsName p
    forward (inl h) (n, c, b) =
        inl (n, subst (λ t. has_byte 47 t ≡ false) ((str_eq_iff (path_base p) p).0 b) h)
    forward (inr h) (n, c, b) = inr (sym ((str_eq_iff (path_base p) p).0 b) ∙ h)

    backward :
        IsName p
        → (str_eq p [] ≡ false) × (str_eq (path_clean p) p ≡ true) × (str_eq (path_base p) p ≡ true)
    backward (inl (n, h)) = (
      n,
      (str_eq_iff (path_clean p) p).1 (path_clean-plain p n h),
      (str_eq_iff (path_base p) p).1 (path_base-plain p n h),
    )
    backward (inr e) =
        subst
          (λ t.
            (str_eq t [] ≡ false)
            × (str_eq (path_clean t) t ≡ true)
            × (str_eq (path_base t) t ≡ true))
          (sym e) slash-IsClean

has_v-some : (v : Str) → has_prefix v (codes "v") ≡ true → str_eq v [] ≡ false
unfolding has_prefix str_eq
has_v-some [] h = cc
has_v-some (c ∷ v) h = refl

pub full-some : (c : Str) → is_full_sha c ≡ true → str_eq c [] ≡ false
unfolding is_full_sha str_eq
full-some [] h = cc
full-some (d ∷ c) h = refl

released_iff :
    (s : Source)
    → (((str_eq s.version [] && str_eq s.commit []) ≡ false)
        × ((not (str_eq s.version []) && not (str_eq s.commit [])) ≡ false)
        × (validate_release s ≡ none))
      ↔ IsOneRelease s.version s.commit
unfolding validate_release
released_iff s = (forward, backward)
  where
    forward :
        ((str_eq s.version [] && str_eq s.commit []) ≡ false)
          × ((not (str_eq s.version []) && not (str_eq s.commit [])) ≡ false)
          × (validate_release s ≡ none)
        → IsOneRelease s.version s.commit
    forward (a, b, c) = ground (
      arith,
      str_eq_iff s.version [],
      str_eq_iff s.commit [],
      has_v-some s.version,
      full-some s.commit,
    )

    backward :
        IsOneRelease s.version s.commit
        → ((str_eq s.version [] && str_eq s.commit []) ≡ false)
          × ((not (str_eq s.version []) && not (str_eq s.commit [])) ≡ false)
          × (validate_release s ≡ none)
    backward h = ground (
      arith,
      str_eq_iff s.version [],
      str_eq_iff s.commit [],
      has_v-some s.version,
      full-some s.commit,
    )

-- A source is accepted exactly when it names a repository, a plugin by a text without a slash (or by
-- the one slash alone), and one release: a full commit or else a version with its `v`.
pub validate_iff :
    (s : Source)
    → (validate s ≡ none)
      ↔ ((str_eq s.repo [] ≡ false) × IsName s.plugin × IsOneRelease s.version s.commit)
unfolding validate
validate_iff s = ground (arith, named_iff s.plugin, released_iff s)
