-- ===== src/Decisions/Sets.antt =====
-- A Go `map[string]bool` used as a set: the list of its keys.
use w17ctl.Base.{
  Str, str_eq, str_eq_iff, Bool, true, false, ◌||◌, List, [], ◌∷◌, ◌≡◌, ◌↔◌, arith, In,
}

unfoldable pub has : List Str → Str → Bool
has [] k = false
has (j ∷ js) k = str_eq j k || has js k

pub has_iff : (js : List Str) (k : Str) → (has js k ≡ true) ↔ In k js
unfolding has
has_iff [] k = ground arith
has_iff (j ∷ js) k = ground (arith, str_eq_iff j k, has_iff js k)
