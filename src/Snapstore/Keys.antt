-- ===== src/Snapstore/Keys.antt =====
-- internal/snapstore/snapstore.go: `branchKey`, the directory name of a branch, over the escaping of a
-- path segment that `url.PathEscape` and `url.PathUnescape` do.
use w17ctl.Base.{
  ℕ, ◌+◌, ◌-◌, ◌*◌, ◌/◌, ◌%◌, ◌<◌, Str, codes, str_eq, str_eq_iff, has_byte, ltb, leb, ◌==◌, Bool,
  true, false, ◌&&◌, ◌||◌, Option, none, some, [], ◌∷◌, ◌≡◌, refl, ap, ◌∙◌, sym, subst, ◌⊎◌, ◌↔◌,
  inl, inr, if◌then◌else◌, arith, All,
}

abbrev pub is_letter_or_digit : ℕ → Bool
is_letter_or_digit c = (leb 97 c && leb c 122) || (leb 65 c && leb c 90) || (leb 48 c && leb c 57)

-- the bytes that a path segment may hold as they are
unfoldable pub is_plain : ℕ → Bool
is_plain c = is_letter_or_digit c || has_byte c (codes "-_.~$&+=:@")

abbrev pub hex : ℕ → ℕ
hex n = if ltb n 10 then 48 + n else 55 + n

abbrev pub unhex : ℕ → Option ℕ
unhex c =
    if leb 48 c && leb c 57
    then some (c - 48)
    else if leb 97 c && leb c 102
    then some (c - 87)
    else if leb 65 c && leb c 70
    then some (c - 55)
    else none

-- `url.PathEscape(s)`
unfoldable pub path_escape : Str → Str
unfolding is_plain
path_escape [] = []
path_escape (c ∷ s) =
    let rest = path_escape s in
    if is_plain c then c ∷ rest else 37 ∷ hex (c / 16) ∷ hex (c % 16) ∷ rest

abbrev pub push : Option ℕ → Option Str → Option Str
push none s = none
push (some c) none = none
push (some c) (some s) = some (c ∷ s)

abbrev pub pair : Option ℕ → Option ℕ → Option ℕ
pair none b = none
pair (some a) none = none
pair (some a) (some b) = some (16 * a + b)

-- `url.PathUnescape(s)`; `none` is its error
unfoldable pub path_unescape : Str → Option Str
path_unescape [] = some []
path_unescape (c ∷ []) = if c == 37 then none else some (c ∷ [])
path_unescape (c ∷ a ∷ []) =
    let rest = path_unescape (a ∷ []) in if c == 37 then none else push (some c) rest
path_unescape (c ∷ a ∷ b ∷ s) =
    let skipped = path_unescape s in
    let rest = path_unescape (a ∷ b ∷ s) in
    if c == 37 then push (pair (unhex a) (unhex b)) skipped else push (some c) rest

-- `branchKey(name)`; `none` is its error
unfoldable pub branch_key : Str → Option Str
unfolding path_escape
branch_key name =
    let key = path_escape name in
    if str_eq key [] || str_eq key (codes ".") || str_eq key (codes "..") || has_byte 47 key
    then none
    else some key

abbrev pub IsBytes : Str → Type 0
IsBytes s = All (λ c. c < 256) s

pair-hex : (c : ℕ) → c < 256 → pair (unhex (hex (c / 16))) (unhex (hex (c % 16))) ≡ some c
pair-hex c l = ground arith

plain_not_percent : (c : ℕ) → is_plain c ≡ true → (c == 37) ≡ false
unfolding is_plain has_byte
plain_not_percent c h = ground arith

unescape-cons :
    (c : ℕ) (s : Str) → (c == 37) ≡ false → path_unescape (c ∷ s) ≡ push (some c) (path_unescape s)
unfolding path_unescape
unescape-cons c [] h = ground arith
unescape-cons c (a ∷ []) h = ground arith
unescape-cons c (a ∷ b ∷ s) h = ground arith

pub path_unescape-path_escape : (s : Str) → IsBytes s → path_unescape (path_escape s) ≡ some s
unfolding path_escape path_unescape
path_unescape-path_escape [] h = refl
path_unescape-path_escape (c ∷ s) (l, h) = split (is_plain c) refl (path_unescape-path_escape s h)
  where
    split :
        (b : Bool)
        → is_plain c ≡ b
        → path_unescape (path_escape s) ≡ some s
        → path_unescape
            (if b then c ∷ path_escape s else 37 ∷ hex (c / 16) ∷ hex (c % 16) ∷ path_escape s)
          ≡ some (c ∷ s)
    split true e ih =
        unescape-cons c (path_escape s) (plain_not_percent c e) ∙ ap (push (some c)) ih
    split false e ih =
        ap (push (pair (unhex (hex (c / 16))) (unhex (hex (c % 16))))) ih
        ∙ ap (λ o. push o (some s)) (pair-hex c l)

plain_not_slash : (c : ℕ) → is_plain c ≡ true → (c == 47) ≡ false
unfolding is_plain has_byte
plain_not_slash c h = ground arith

no_slash : (s : Str) → IsBytes s → has_byte 47 (path_escape s) ≡ false
unfolding path_escape has_byte
no_slash [] h = refl
no_slash (c ∷ s) (l, h) = split (is_plain c) refl (no_slash s h)
  where
    split :
        (b : Bool)
        → is_plain c ≡ b
        → has_byte 47 (path_escape s) ≡ false
        → has_byte 47
            (if b then c ∷ path_escape s else 37 ∷ hex (c / 16) ∷ hex (c % 16) ∷ path_escape s)
          ≡ false
    split true e ih = ground (arith, plain_not_slash c)
    split false e ih = ground arith

escape-injective : (s t : Str) → IsBytes s → IsBytes t → path_escape s ≡ path_escape t → s ≡ t
escape-injective s t hs ht e =
    of_some
      (sym (path_unescape-path_escape s hs) ∙ ap path_unescape e ∙ path_unescape-path_escape t ht)
  where
    of_some : ◌≡◌ {A = Option Str} (some s) (some t) → s ≡ t
    of_some q = ground arith

-- The names with no directory of their own: the empty one and the two that every directory has.
abbrev pub IsReserved : Str → Type 0
IsReserved name = (name ≡ []) ⊎ (name ≡ codes ".") ⊎ (name ≡ codes "..")

-- A name of bytes is refused exactly when it is empty, `.` or `..`. Any other one has a key that is one
-- path component, without a slash and none of those three, and from which the name is read back, so
-- that no two branches share a directory.
pub branch_key_lem :
    (name : Str)
    → IsBytes name
    → ((branch_key name ≡ none) ↔ IsReserved name)
      × ((key : Str)
          → branch_key name ≡ some key
          → ¬ (IsReserved key) × (has_byte 47 key ≡ false) × (path_unescape key ≡ some name))
unfolding branch_key has_byte
branch_key_lem name h = (
  (
    λ e.
        reserved (str_eq key []) (str_eq key (codes ".")) (str_eq key (codes "..")) refl refl refl
          e,
    λ r. ground (
      arith,
      str_eq_iff key [],
      str_eq_iff key (codes "."),
      str_eq_iff key (codes ".."),
      escaped r,
    ),
  ),
  λ k e.
      accepted (str_eq key []) (str_eq key (codes ".")) (str_eq key (codes "..")) k refl refl refl
        e,
)
  where
    key : Str
    key = path_escape name

    back : (t : Str) → IsBytes t → path_escape t ≡ t → str_eq key t ≡ true → name ≡ t
    back t b e q = escape-injective name t h b ((str_eq_iff key t).0 q ∙ sym e)

    escaped : IsReserved name → IsReserved key
    escaped (inl e) = inl (ap path_escape e)
    escaped (inr (inl e)) = inr (inl (ap path_escape e))
    escaped (inr (inr e)) = inr (inr (ap path_escape e))

    reserved :
        (a b c : Bool)
        → str_eq key [] ≡ a
        → str_eq key (codes ".") ≡ b
        → str_eq key (codes "..") ≡ c
        → (if a || b || c || has_byte 47 key then none else some key) ≡ none
        → IsReserved name
    reserved true b c x y z e = inl (back [] tt refl x)
    reserved false true c x y z e = inr (inl (back (codes ".") (ground arith, tt) refl y))
    reserved false false true x y z e =
        inr (inr (back (codes "..") (ground arith, (ground arith, tt)) refl z))
    reserved false false false x y z e = absurd (ground (arith, no_slash name h))

    accepted :
        (a b c : Bool) (k : Str)
        → str_eq key [] ≡ a
        → str_eq key (codes ".") ≡ b
        → str_eq key (codes "..") ≡ c
        → ◌≡◌ {A = Option Str} (if a || b || c || has_byte 47 key then none else some key) (some k)
        → ¬ (IsReserved k) × (has_byte 47 k ≡ false) × (path_unescape k ≡ some name)
    accepted true b c k x y z e = absurd (ground arith)
    accepted false true c k x y z e = absurd (ground arith)
    accepted false false true k x y z e = absurd (ground arith)
    accepted false false false k x y z e =
        subst (λ j. ¬ (IsReserved j) × (has_byte 47 j ≡ false) × (path_unescape j ≡ some name))
          (of_some (ground (arith, no_slash name h)))
          (
            (λ r. ground (
              arith,
              str_eq_iff key [],
              str_eq_iff key (codes "."),
              str_eq_iff key (codes ".."),
            )),
            no_slash name h,
            path_unescape-path_escape name h,
          )
      where
        of_some : ◌≡◌ {A = Option Str} (some key) (some k) → key ≡ k
        of_some q = ground arith
