-- ===== src/Registry/Names.antt =====
-- internal/devconfig/devconfig.go: `ValidateProjectName`, for names of ASCII text.
use w17ctl.Base.{
  ℕ, Str, codes, str_eq, str_eq_iff, Bool, false, ◌||◌, Option, none, some, [], ◌∷◌, ◌≡◌, refl, ◌≢◌,
  ltb, ◌==◌, if◌then◌else◌, has_byte, All, arith, ◌≤◌,
}

pub data NameError : Type 0 where
  empty_name path_component path_separator control_character : NameError

abbrev is_control : ℕ → Bool
is_control r = ltb r 0x20 || (r == 0x7f)

unfoldable pub has_control : Str → Bool
has_control [] = false
has_control (r ∷ s) = is_control r || has_control s

-- `none` is the `nil` error.
unfoldable pub validate_project_name : Str → Option NameError
unfolding has_control has_byte str_eq
validate_project_name name =
    if str_eq name []
    then some empty_name
    else if str_eq name (codes ".") || str_eq name (codes "..")
    then some path_component
    else if has_byte b'/' name || has_byte b'\\' name
    then some path_separator
    else if has_control name
    then some control_character
    else none

-- A byte that a single directory component may hold.
abbrev pub IsNameByte : ℕ → Type 0
IsNameByte c = (c ≢ b'/') × (c ≢ b'\\') × (32 ≤ c) × (c ≢ 127)

-- A name that stays one directory below the directory it is joined to.
pub record IsComponent (name : Str) : Type 0 where
  pub not_empty : name ≢ []
  pub not_dot : name ≢ codes "."
  pub not_dots : name ≢ codes ".."
  pub bytes : All IsNameByte name

plain_bytes :
    (s : Str)
    → has_byte b'/' s ≡ false
    → has_byte b'\\' s ≡ false
    → has_control s ≡ false
    → All IsNameByte s
unfolding has_byte has_control
plain_bytes [] h k l = tt
plain_bytes (c ∷ s) h k l = ground (arith, plain_bytes s)

no_byte : (c : ℕ) (s : Str) → All (λ d. d ≢ c) s → has_byte c s ≡ false
unfolding has_byte
no_byte c [] h = refl
no_byte c (d ∷ s) (hd, hs) = ground (arith, no_byte c s hs)

All-imp : {P Q : ℕ → Type 0} (s : Str) → ((c : ℕ) → P c → Q c) → All P s → All Q s
All-imp [] f h = tt
All-imp (c ∷ s) f (hc, hs) = (f c hc, All-imp s f hs)

no_control : (s : Str) → All IsNameByte s → has_control s ≡ false
unfolding has_control
no_control [] h = refl
no_control (c ∷ s) h = ground (arith, no_control s)

-- A name is accepted exactly when it is one safe path component: not empty, not `.` or `..`, with no
-- separator and no control character.
pub validate_project_name_iff :
    (name : Str)
    → (validate_project_name name ≡ none → IsComponent name)
      × (IsComponent name → validate_project_name name ≡ none)
unfolding validate_project_name
validate_project_name_iff name = (
  λ h. record {
    not_empty = λ e. ground (arith, str_eq_iff name []);
    not_dot = λ e. ground (arith, str_eq_iff name (codes "."));
    not_dots = λ e. ground (arith, str_eq_iff name (codes ".."));
    bytes = plain_bytes name (ground arith) (ground arith) (ground arith);
  },
  λ k. ground (
    arith,
    str_eq_iff name [],
    str_eq_iff name (codes "."),
    str_eq_iff name (codes ".."),
    no_byte b'/' name (All-imp name (λ c b. b.0) k.bytes),
    no_byte b'\\' name (All-imp name (λ c b. b.1) k.bytes),
    no_control name k.bytes,
  ),
)
