-- ===== src/Base/Assoc.antt =====
-- A Go `map[string]V` as an association list with each key once. The order of the list is the one
-- that a `range` over the map happens to take.
use mathlib.Core.Path.{◌≡◌, refl}
use mathlib.Core.Bool.{Bool, true, false}
use mathlib.Core.Option.{Option, none, some}
use mathlib.Core.List.{List, [], ◌∷◌}
use native.Mathlib.Omega.{arith}
use w17ctl.Base.Bytes.{Str, str_eq, str_eq_iff}
use w17ctl.Base.Tests.{if◌then◌else◌, In, is_some}

abbrev pub Map : Type 0 → Type 0
Map V = List (Str × V)

module _ {V : Type 0} where
  -- `v, ok := m[k]`
  unfoldable pub get : Map V → Str → Option V
  get [] k = none
  get ((j, v) ∷ m) k = if str_eq j k then some v else get m k

  -- `m[k] = v`
  unfoldable pub put : Map V → Str → V → Map V
  put [] k v = (k, v) ∷ []
  put ((j, w) ∷ m) k v = if str_eq j k then (j, v) ∷ m else (j, w) ∷ put m k v

  -- `delete(m, k)`
  unfoldable pub delete : Map V → Str → Map V
  delete [] k = []
  delete ((j, w) ∷ m) k = let rest = delete m k in if str_eq j k then rest else (j, w) ∷ rest

  unfoldable pub keys : Map V → List Str
  keys [] = []
  keys ((j, w) ∷ m) = j ∷ keys m

  unfoldable pub values : Map V → List V
  values [] = []
  values ((j, w) ∷ m) = w ∷ values m

  -- The entries whose key passes a test: a loop that deletes the others.
  unfoldable pub keep_keys : (Str → Bool) → Map V → Map V
  keep_keys p [] = []
  keep_keys p ((j, w) ∷ m) = let rest = keep_keys p m in if p j then (j, w) ∷ rest else rest

  pub get-put :
      (m : Map V) (k j : Str) (v : V) → get (put m k v) j ≡ (if str_eq k j then some v else get m j)
  unfolding get put
  get-put [] k j v = refl
  get-put ((i, w) ∷ m) k j v =
      ground (arith, str_eq_iff k j, str_eq_iff i k, str_eq_iff i j, get-put m k j v)

  pub get-delete :
      (m : Map V) (k j : Str) → get (delete m k) j ≡ (if str_eq k j then none else get m j)
  unfolding get delete
  get-delete [] k j = ground arith
  get-delete ((i, w) ∷ m) k j =
      ground (arith, str_eq_iff k j, str_eq_iff i k, str_eq_iff i j, get-delete m k j)

  pub get-keep_keys :
      (p : Str → Bool) (m : Map V) (j : Str)
      → get (keep_keys p m) j ≡ (if p j then get m j else none)
  unfolding get keep_keys
  get-keep_keys p [] j = ground arith
  get-keep_keys p ((i, w) ∷ m) j = ground (arith, str_eq_iff i j, get-keep_keys p m j)

  pub get-In-keys : (m : Map V) (k : Str) → is_some (get m k) ≡ true → In k (keys m)
  unfolding get keys
  get-In-keys [] k h = cc
  get-In-keys ((j, w) ∷ m) k h = ground (arith, str_eq_iff j k, get-In-keys m k)

  pub In-keys-get : (m : Map V) (k : Str) → In k (keys m) → is_some (get m k) ≡ true
  unfolding get keys
  In-keys-get [] k h = absurd h
  In-keys-get ((j, w) ∷ m) k h = ground (arith, str_eq_iff j k, In-keys-get m k)

-- No key stands twice.
abbrev pub IsKeyed : {V : Type 0} → Map V → Type 0
IsKeyed [] = Unit
IsKeyed ((k, v) ∷ m) = (get m k ≡ none) × IsKeyed m

module _ {V : Type 0} where
  get-put-none :
      (m : Map V) (k j : Str) (v : V)
      → get m j ≡ none
      → str_eq k j ≡ false
      → get (put m k v) j ≡ none
  get-put-none m k j v h n = ground (arith, get-put m k j v)

  pub put-IsKeyed : (m : Map V) (k : Str) (v : V) → IsKeyed m → IsKeyed (put m k v)
  unfolding put get
  put-IsKeyed [] k v h = (refl, tt)
  put-IsKeyed ((j, w) ∷ m) k v (hj, hm) =
      ground (arith, put-IsKeyed m k v, get-put-none m k j v, str_eq_iff j k, str_eq_iff k j)

  pub keep_keys-IsKeyed : (p : Str → Bool) (m : Map V) → IsKeyed m → IsKeyed (keep_keys p m)
  unfolding keep_keys
  keep_keys-IsKeyed p [] h = tt
  keep_keys-IsKeyed p ((j, w) ∷ m) (hj, hm) =
      ground (arith, keep_keys-IsKeyed p m, get-keep_keys p m j)

pub ruleset map_laws = (get-put, get-delete, get-keep_keys)
