-- ===== src/Decisions.antt =====
-- internal/migdecisions/decisions.go: the decision files of a project, how one is read, what it
-- sends, and which of them are sent. The YAML parser is a parameter: `unmarshal`.
mod Tests
pub mod Reading
pub mod Sets
pub mod Groups
pub mod Sent
pub mod Laws
pub mod Payload
use w17ctl.Base.{
  ℕ, Str, codes, str_eq, trim_space, ◌==◌, length, Bool, true, false, not, ◌&&◌, ◌||◌, Option, none,
  some, List, [], ◌∷◌, ◌++◌, ◌⊎◌, inl, inr, if◌then◌else◌,
}
use w17ctl.Base.Assoc.{Map, get}

-- Why a file cannot be applied: the messages of `Problem`, with what they quote.
pub data Problem : Type 0 where
  unreadable : Str → Problem
  not_yaml : Str → Problem
  no_finding : Problem
  no_base : Problem
  no_id : Problem
  none_left : Problem
  several_left : ℕ → Problem
  no_strategy : Problem

-- `File`; an empty `Problem` is `none`.
pub record File : Type 0 where
  path : Str
  key : Str
  choice : Str
  custom_path : Str
  base : Str
  id : Str
  change : Str
  table : Str
  unbound : Bool
  undecided : Bool
  problem : Option Problem

-- A node of the list `choose`: a scalar, a mapping with what decoding it into a map of strings gives,
-- or anything else.
pub data Node : Type 0 where
  scalar : Str → Node
  mapping : Option (Map Str) → Node
  other : Node

pub record OnDisk : Type 0 where
  finding : Str
  id : Str
  base : Str
  change : Str
  table : Str
  choose : List Node

-- `Bind(key, id)`
unfoldable pub bind : Str → Str → Str
bind key id = if str_eq id [] then key else key ++ codes "@" ++ id

-- `File.Ident`
unfoldable pub ident : File → Str
unfolding bind
ident f = bind f.key f.id

abbrev pub custom : Str
custom = codes "custom"

-- `File.Flag`
unfoldable pub flag : File → Str
unfolding ident
flag f =
    if str_eq f.choice custom
    then ident f ++ codes "=custom:" ++ f.custom_path
    else ident f ++ codes "=" ++ f.choice

-- `BaseName`
unfoldable pub base_name : Str → Str
base_name b = if str_eq b [] then codes "none" else b

-- The option that one node holds: its strategy and the path beside `custom`.
unfoldable pub option_of : Node → Str × Str
option_of (scalar v) = (trim_space v, [])
option_of (mapping none) = ([], [])
option_of (mapping (some m)) = elim (get m custom) [
  | none ↦ ([], [])
  | some v ↦
      if (length m == 1) && not (str_eq (trim_space v) []) then (custom, trim_space v) else ([], [])
]
option_of other = ([], [])

-- `readChoice`
unfoldable pub read_choice : File → List Node → File
unfolding option_of
read_choice f [] = record f { undecided = true; problem = some none_left }
read_choice f (n ∷ []) =
    let (c, p) = option_of n in
    record f {
      choice = c;
      custom_path = p;
      problem = if str_eq c [] then some no_strategy else f.problem;
    }
read_choice f (n ∷ m ∷ ns) = record f {
  undecided = true;
  problem = some (several_left (length (n ∷ m ∷ ns)));
}

-- `File{Path: path}`
abbrev pub blank : Str → File
blank p = record {
  path = p;
  key = [];
  choice = [];
  custom_path = [];
  base = [];
  id = [];
  change = [];
  table = [];
  unbound = false;
  undecided = false;
  problem = none;
}

abbrev pub asked_again : File → File
asked_again f = record f { unbound = true; undecided = false; problem = some no_id }

-- the end of `readOne`: a file without `id:` is never sent
unfoldable pub demand_id : File → File
demand_id f = if str_eq f.id [] then asked_again f else f

-- the file once its finding and its base are known to be there
unfoldable pub read_rest : File → OnDisk → File
unfolding read_choice demand_id
read_rest f d = demand_id (
    read_choice
      (record f { id = trim_space d.id; change = trim_space d.change; table = trim_space d.table })
      d.choose)

abbrev pub started : Str → OnDisk → File
started p d = record (blank p) { key = trim_space d.finding; base = trim_space d.base }

abbrev pub failed : File → Problem → File
failed f e = record f { problem = some e }

-- `readOne` past the parser
unfoldable pub read_parsed : Str → OnDisk → File
unfolding read_rest
read_parsed p d =
    let f = started p d in
    if str_eq f.key []
    then failed f no_finding
    else if str_eq f.base []
    then failed f no_base
    else read_rest f d

-- `readOne(path)`, given what reading the file gives: an error's text, or its bytes.
unfoldable pub read_one : (Str → Str ⊎ OnDisk) → Str → Str ⊎ Str → File
unfolding read_parsed
read_one unmarshal p (inl e) = failed (blank p) (unreadable e)
read_one unmarshal p (inr body) = elim (unmarshal body) [
  | inl e ↦ failed (blank p) (not_yaml e)
  | inr d ↦ read_parsed p d
]

-- `f.Problem == ""`
abbrev pub usable : File → Bool
usable f = elim f.problem [ none ↦ true | some _ ↦ false ]

-- `ReplacedFor`: of the files that a new question replaces, those it quotes. The finding's key and
-- table are its first two arguments.
unfoldable pub replaced_for : Str → Str → List File → List File
replaced_for key table [] = []
replaced_for key table (e ∷ es) =
    let rest = replaced_for key table es in
    if not (str_eq e.key key)
    then rest
    else if str_eq e.table [] || str_eq table [] || str_eq e.table table
    then e ∷ rest
    else rest
