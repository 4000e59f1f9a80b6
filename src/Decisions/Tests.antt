-- ===== src/Decisions/Tests.antt =====
-- Three decision files of which two contradict each other, and the theorems at them.
use w17ctl.Base.{
  Str, codes, str_eq, str_eq_iff, trim_space, has_prefix, Bool, true, false, Option, none, some,
  List, [], ◌∷◌, ◌++◌, ◌≡◌, refl, ◌≢◌, ◌⊎◌, inl, inr, In, arith, map, ap, sym, subst, split, ◌∙◌,
  ◌&&◌, if◌then◌else◌, str_compare,
}
use w17ctl.Base.Assoc.{get, put, keys}
use w17ctl.Base.Sort.{sort, sort_strings}
use w17ctl.Decisions.{
  File, scalar, OnDisk, ident, flag, bind, usable, read_one, read_parsed, read_rest, read_choice,
  option_of, demand_id,
}
use w17ctl.Decisions.Reading.{IsComplete, read_one-IsComplete}
use w17ctl.Decisions.Sent.{applicable, unseen, first_idents}
use w17ctl.Decisions.Sets.{has}
use w17ctl.Decisions.Groups.{duplicates, by_key, sort_out, place, same_flags}
use w17ctl.Decisions.Laws.{applicable_contested, applicable_settled}
use w17ctl.Decisions.Payload.{
  FileSystem, payload, payload_onto, custom_sql, inside_root, within, judge, climbs, IsInside,
  IsClean, IsRel, IsJoin, payload-IsInside,
}

abbrev decision : Str → Str → Str → File
decision key choice sql = record {
  path = key;
  key = key;
  choice = choice;
  custom_path = sql;
  base = codes "b1";
  id = codes "7";
  change = [];
  table = [];
  unbound = false;
  undecided = false;
  problem = none;
}

abbrev safe : File
safe = decision (codes "users.email:type") (codes "safe") []

abbrev drops : File
drops = decision (codes "users.email:type") (codes "drop_and_create") []

abbrev by_sql : File
by_sql = decision (codes "users.age:type") (codes "custom") (codes "age.sql")

abbrev three_files : List File
three_files = safe ∷ drops ∷ by_sql ∷ []

differ : flag safe ≢ flag drops
unfolding flag ident bind str_eq
differ h = absurd (ground arith)

apart_here :
    (g : File) → In g three_files → usable g ≡ true → ident g ≡ ident by_sql → flag g ≡ flag by_sql
unfolding ident bind str_eq
apart_here g (inl q) u e = absurd (other safe q (λ k. ground arith) e)
  where
    other : (f : File) → g ≡ f → (ident f ≡ ident by_sql → ⊥) → ident g ≡ ident by_sql → ⊥
    other f r n = rw r n
apart_here g (inr (inl q)) u e = absurd (other drops q (λ k. ground arith) e)
  where
    other : (f : File) → g ≡ f → (ident f ≡ ident by_sql → ⊥) → ident g ≡ ident by_sql → ⊥
    other f r n = rw r n
apart_here g (inr (inr (inl q))) u e = rw q refl
apart_here g (inr (inr (inr q))) u e = absurd q

-- The file with the custom SQL is the one that is sent.
sql_is_sent : In by_sql (applicable three_files)
unfolding applicable unseen first_idents duplicates by_key sort_out place same_flags ident flag bind
    has str_eq str_compare sort sort_strings get put keys
sql_is_sent = inl refl

applicable_contested_example : ident by_sql ≢ ident safe
unfolding ident bind
applicable_contested_example =
    applicable_contested three_files safe drops by_sql (inl refl) (inr (inl refl)) refl refl refl
      differ sql_is_sent

applicable_settled_example :
    (g : File) × In g (applicable three_files) × (ident g ≡ ident by_sql) × (flag g ≡ flag by_sql)
applicable_settled_example =
    applicable_settled three_files by_sql (inr (inr (inl refl))) refl apart_here

-- A parser that makes one file of everything.
abbrev unmarshal_it : Str → Str ⊎ OnDisk
unmarshal_it body = inr (record {
  finding = codes "users.email:type ";
  id = codes "7";
  base = codes "b1";
  change = [];
  table = [];
  choose = scalar (codes " safe") ∷ [];
})

is_usable : usable (read_one unmarshal_it [] (inr [])) ≡ true
unfolding read_one read_parsed read_rest read_choice option_of demand_id trim_space str_eq
is_usable = refl

read_one-IsComplete_example : IsComplete (read_one unmarshal_it [] (inr []))
read_one-IsComplete_example = read_one-IsComplete unmarshal_it [] (inr []) is_usable

abbrev root_dir : Str
root_dir = codes "/p"

abbrev sql_path : Str
sql_path = codes "/p/age.sql"

-- A file system with the root `/p` and one file in it.
abbrev one_file : FileSystem
one_file = record {
  eval_symlinks = λ p. inr p;
  read_file = λ p. inr (codes "ALTER");
  join = λ a b. a ++ codes "/" ++ b;
  rel = λ base target.
      if str_eq base root_dir && str_eq target sql_path then some (codes "age.sql") else none;
}

age_sql-IsClean : IsClean (codes "age.sql")
unfolding has_prefix split
age_sql-IsClean = (refl, λ i. elim i [ inl e ↦ cc | inr n ↦ absurd n ])

one_file-IsRel : IsRel one_file root_dir
one_file-IsRel x y base target r f g h =
    at (str_eq base root_dir) (str_eq target sql_path) refl refl h
  where
    of_some : ◌≡◌ {A = Option Str} (some (codes "age.sql")) (some r) → r ≡ codes "age.sql"
    of_some k = ground arith

    at :
        (a b : Bool)
        → str_eq base root_dir ≡ a
        → str_eq target sql_path ≡ b
        → if◌then◌else◌ {A = Option Str} (a && b) (some (codes "age.sql")) none ≡ some r
        → (one_file.join base r ≡ target) × IsClean r
    at false b e q k = absurd (ground arith)
    at true false e q k = absurd (ground arith)
    at true true e q k = (
      ap (λ z. z ++ codes "/" ++ r) ((str_eq_iff base root_dir).0 e)
          ∙ ap (λ z. root_dir ++ codes "/" ++ z) (of_some k)
          ∙ sym ((str_eq_iff target sql_path).0 q),
      subst IsClean (sym (of_some k)) age_sql-IsClean,
    )

one_file-IsJoin : IsJoin one_file root_dir
one_file-IsJoin x base r f down = inr (r, down, inl refl)

sent :
    payload one_file root_dir (by_sql ∷ [])
    ≡ inr (codes "users.age:type@7=custom:age.sql" ∷ [], (codes "age.sql", codes "ALTER") ∷ [])
unfolding payload payload_onto custom_sql inside_root within judge climbs flag ident bind has_prefix
    str_eq put
sent = refl

payload-IsInside_example :
    (codes "users.age:type@7=custom:age.sql" ∷ [] ≡ map flag (by_sql ∷ []))
    × ((p b : Str)
        → get ((codes "age.sql", codes "ALTER") ∷ []) p ≡ some b
        → IsInside one_file root_dir p b)
payload-IsInside_example =
    payload-IsInside one_file root_dir one_file-IsRel one_file-IsJoin (by_sql ∷ [])
      (codes "users.age:type@7=custom:age.sql" ∷ [], (codes "age.sql", codes "ALTER") ∷ []) sent
