-- ===== src/Registry/Pins.antt =====
-- internal/devconfig/pinned.go: the ports that a developer chose, from the environment and `.env`.
-- The process environment is a function, and the file the lines that `bufio.Scanner` gives.
use w17ctl.Base.{
  ℕ, ◌≤◌, Str, codes, str_eq, str_eq_iff, trim_space, trim_prefix, has_prefix, cut, ℤ, pos, negsuc,
  atoi, Bool, true, false, ◌&&◌, ◌||◌, Option, none, some, List, [], ◌∷◌, ◌≡◌, refl, inl, inr,
  if◌then◌else◌, ltb, leb, ◌==◌, is_some, arith, ap, Bool-cases,
}
use w17ctl.Base.Assoc.{Map, get, put, get-put}
use w17ctl.Base.Sort.{last}
use w17ctl.Registry.Ports.{Slot, wanted}
use w17ctl.Registry.Ports.Pinning.{IsWanted}

abbrev init : Str → Str
init [] = []
init (c ∷ []) = []
init (c ∷ d ∷ s) = c ∷ init (d ∷ s)

abbrev is_byte : Option ℕ → ℕ → Bool
is_byte none c = false
is_byte (some d) c = d == c

-- the quotes round a value of two bytes or more
unfoldable pub unquote : Str → Str
unfolding last
unquote [] = []
unquote (c ∷ []) = c ∷ []
unquote (c ∷ d ∷ s) =
    if ((c == 34) || (c == 39)) && is_byte (last (d ∷ s)) c then init (d ∷ s) else c ∷ d ∷ s

abbrev assignment : Str × Str × Bool → Option (Str × Str)
assignment (k, v, false) = none
assignment (k, v, true) =
    if str_eq (trim_space k) [] then none else some (trim_space k, unquote (trim_space v))

-- one line of the file
unfoldable pub read_line : Str → Option (Str × Str)
unfolding unquote trim_space trim_prefix has_prefix cut str_eq
read_line raw =
    let line = trim_space raw in
    if str_eq line [] || has_prefix line (codes "#")
    then none
    else assignment (cut (trim_prefix line (codes "export ")) b'=')

abbrev add_line : Option (Str × Str) → Map Str → Map Str
add_line none m = m
add_line (some (k, v)) m = put m k v

read_lines : Map Str → List Str → Map Str
unfolding read_line
read_lines out [] = out
read_lines out (l ∷ ls) = read_lines (add_line (read_line l) out) ls

-- `readDotEnv`; without the file there are no lines.
unfoldable pub read_dot_env : List Str → Map Str
unfolding read_lines
read_dot_env lines = read_lines [] lines

-- the environment's value, unless it is blank, before the file's
unfoldable pub chosen : (Str → Option Str) → Map Str → Str → Option Str
chosen env from_file key = elim (env key) [
  | none ↦ get from_file key
  | some raw ↦ if str_eq (trim_space raw) [] then get from_file key else some raw
]

abbrev in_range : Option ℤ → Option ℤ
in_range none = none
in_range (some (pos n)) = if leb n 0 || ltb 65535 n then none else some (pos n)
in_range (some (negsuc n)) = none

-- a value that is a port
unfoldable pub port_of : Option Str → Option ℤ
port_of none = none
port_of (some raw) = in_range (atoi (trim_space raw))

abbrev add_port : Str → Option ℤ → Map ℤ → Map ℤ
add_port key none out = out
add_port key (some n) out = put out key n

pin_ports : (Str → Option Str) → Map Str → Map ℤ → List Slot → Map ℤ
unfolding chosen port_of
pin_ports env from_file out [] = out
pin_ports env from_file out (s ∷ ss) =
    pin_ports env from_file (add_port s.key (port_of (chosen env from_file s.key)) out) ss

-- `PinnedPorts`
unfoldable pub pinned_ports : (Str → Option Str) → List Str → List Slot → Map ℤ
unfolding pin_ports read_dot_env
pinned_ports env lines slots = pin_ports env (read_dot_env lines) [] slots

-- A port number.
abbrev pub IsPort : ℤ → Type 0
IsPort v = (n : ℕ) × (v ≡ pos n) × (1 ≤ n) × (n ≤ 65535)

in_range-IsPort : (o : Option ℤ) (v : ℤ) → in_range o ≡ some v → IsPort v
in_range-IsPort none v h = cc
in_range-IsPort (some (negsuc n)) v h = cc
in_range-IsPort (some (pos n)) v h = (n, ground arith, ground arith, ground arith)

port_of-IsPort : (o : Option Str) (v : ℤ) → port_of o ≡ some v → IsPort v
unfolding port_of
port_of-IsPort none v h = cc
port_of-IsPort (some raw) v h = in_range-IsPort (atoi (trim_space raw)) v h

abbrev over : Option ℤ → Option ℤ → Option ℤ
over none old = old
over (some n) old = some n

get-add_port :
    (key k : Str) (o : Option ℤ) (out : Map ℤ)
    → get (add_port key o out) k ≡ (if str_eq key k then over o (get out k) else get out k)
get-add_port key k none out = ground arith
get-add_port key k (some n) out = get-put out key k n

over_idem : (o old : Option ℤ) → over o (over o old) ≡ over o old
over_idem none old = refl
over_idem (some n) old = refl

-- Each slot is written what its own value says; other keys are not written.
get-pin_ports :
    (env : Str → Option Str) (file : Map Str) (slots : List Slot) (out : Map ℤ) (k : Str)
    → get (pin_ports env file out slots) k ≡ (
        if is_some (get (wanted slots) k)
        then over (port_of (chosen env file k)) (get out k)
        else get out k)
unfolding pin_ports wanted
get-pin_ports env file [] out k = unfold get in refl
get-pin_ports env file (s ∷ ss) out k =
    let o = port_of (chosen env file s.key) in
    elim (Bool-cases (str_eq s.key k)) [
      | inl e ↦
          let same : s.key ≡ k = (str_eq_iff s.key k).0 e in
          ground (
            arith,
            get-pin_ports env file ss (add_port s.key o out) k,
            get-add_port s.key k o out,
            get-put (wanted ss) s.key k true,
            over_idem o (get out k),
            ap (λ j. port_of (chosen env file j)) same,
          )
      | inr n ↦ ground (
        arith,
        get-pin_ports env file ss (add_port s.key o out) k,
        get-add_port s.key k o out,
        get-put (wanted ss) s.key k true,
      )
    ]

over_nil : (o : Option ℤ) (k : Str) → over o (get {V = ℤ} [] k) ≡ o
unfolding get
over_nil none k = refl
over_nil (some n) k = refl

-- The pins are the slots' own values, the environment before the file, that are port numbers: every
-- pin is a slot of the project and lies between 1 and 65535.
pub pinned_ports_lem :
    (env : Str → Option Str) (lines : List Str) (slots : List Slot) (k : Str)
    → (IsWanted slots k
        → get (pinned_ports env lines slots) k ≡ port_of (chosen env (read_dot_env lines) k))
      × ((v : ℤ) → get (pinned_ports env lines slots) k ≡ some v → IsWanted slots k × IsPort v)
unfolding pinned_ports
pinned_ports_lem env lines slots k =
    let o = port_of (chosen env (read_dot_env lines) k) in
    let e = get-pin_ports env (read_dot_env lines) slots [] k in
    (
      λ w. ground (arith, e, over_nil o k),
      λ v h. elim (Bool-cases (is_some (get (wanted slots) k))) [
        | inl w ↦ (
          w,
          port_of-IsPort (chosen env (read_dot_env lines) k) v (ground (arith, e, over_nil o k)),
        )
        | inr n ↦ absurd (unfold get in ground (arith, e))
      ],
    )
