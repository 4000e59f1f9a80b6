-- ===== src/Registry/Lookup.antt =====
-- internal/devconfig/devconfig.go: `FindByPath` and `DuplicatePaths`.
use w17ctl.Base.{
  Str, str_eq, str_eq_iff, str_compare, true, Option, none, some, List, [], ◌∷◌, ◌≡◌, refl, ◌≢◌,
  inl, inr, ltb, if◌then◌else◌, is_some, In, arith, length, ◌<◌, Option-cases, sym, ◌∙◌,
}
use w17ctl.Base.Order.{str_compare-IsOrder, str_compare-eq}
use w17ctl.Base.Sort
use w17ctl.Base.Sort.{sort, sort_strings, Leq, In-sort, sort-In, sort-IsSorted, IsSorted, In-All}
use w17ctl.Base.Assoc.{Map, get, keys, get-In-keys}
use w17ctl.Registry.{Project, Config}

-- the entry, if it is at this path
abbrev at_path : Option Project → Str → Option Project
at_path none path = none
at_path (some p) path = if str_eq p.path path then some p else none

-- the loop over the sorted names
unfoldable pub find_in : Map Project → List Str → Str → Option (Str × Project)
find_in m [] path = none
find_in m (n ∷ ns) path =
    let rest = find_in m ns path in
    elim (at_path (get m n) path) [ none ↦ rest | some p ↦ some (n, p) ]

-- `FindByPath`; `none` is `"", nil`.
unfoldable pub find_by_path : Config → Str → Option (Str × Project)
unfolding find_in
find_by_path c path = find_in c.projects (sort_strings (keys c.projects)) path

-- The names registered for one path, in the order of the `range`.
unfoldable pub names_at : Map Project → Str → List Str
names_at [] path = []
names_at ((n, p) ∷ m) path =
    let rest = names_at m path in if str_eq p.path path then n ∷ rest else rest

-- `DuplicatePaths()[path]`, which every caller reads at one path: the sorted names, where the path
-- is not empty and has more than one.
unfoldable pub duplicates_at : Config → Str → Option (List Str)
unfolding names_at
duplicates_at c path =
    let names = names_at c.projects path in
    if str_eq path []
    then none
    else if ltb 1 (length names)
    then some (sort_strings names)
    else none

-- An entry of the registry at a path.
abbrev pub IsAt : Map Project → Str → Str → Project → Type 0
IsAt m path n p = (get m n ≡ some p) × (p.path ≡ path)

at_path_sound :
    (o : Option Project) (path : Str) (p : Project)
    → at_path o path ≡ some p
    → (o ≡ some p) × (p.path ≡ path)
at_path_sound none path p h = cc
at_path_sound (some q) path p h = ground (arith, str_eq_iff q.path path)

at_path_complete :
    (o : Option Project) (path : Str) (p : Project)
    → o ≡ some p
    → p.path ≡ path
    → at_path o path ≡ some p
at_path_complete o path p h e = rw h (ground (arith, str_eq_iff p.path path))

find_in_sound :
    (m : Map Project) (ns : List Str) (path n : Str) (p : Project)
    → find_in m ns path ≡ some (n, p)
    → IsAt m path n p × In n ns
unfolding find_in
find_in_sound m [] path n p h = cc
find_in_sound m (k ∷ ns) path n p h =
    ground (arith, at_path_sound (get m k) path p, find_in_sound m ns path n p)

find_in_complete :
    (m : Map Project) (ns : List Str) (path n : Str) (p : Project)
    → In n ns
    → IsAt m path n p
    → is_some (find_in m ns path) ≡ true
unfolding find_in
find_in_complete m [] path n p i h = absurd i
find_in_complete m (k ∷ ns) path n p i (h, e) =
    ground (arith, at_path_complete (get m k) path p, find_in_complete m ns path n p)

-- The name found comes no later than any other name of the path.
find_in_least :
    (m : Map Project) (ns : List Str) (path n : Str) (p : Project)
    → IsSorted str_compare ns
    → find_in m ns path ≡ some (n, p)
    → (j : Str) (q : Project) → In j ns
    → IsAt m path j q
    → Leq str_compare n j
unfolding find_in
find_in_least m [] path n p s h j q i e = absurd i
find_in_least m (k ∷ ns) path n p (sk, s) h j q i e = elim (Option-cases (at_path (get m k) path)) [
  | inl o ↦ elim i [
    | inl here ↦ absurd (ground (arith, at_path_complete (get m k) path q))
    | inr there ↦ find_in_least m ns path n p s (ground arith) j q there e
  ]
  | inr (r, o) ↦
      let same : n ≡ k = ground arith in
      rw same (elim i [
        | inl here ↦ rw here (Sort.Leq-refl str_compare str_compare-IsOrder k)
        | inr there ↦ In-All str_compare _ ns sk j there
      ])
]

IsSorted-names : (m : Map Project) → IsSorted str_compare (sort_strings (keys m))
unfolding sort_strings
IsSorted-names m = sort-IsSorted str_compare str_compare-IsOrder (keys m)

In-sorted_names :
    (m : Map Project) (n : Str) (p : Project) → get m n ≡ some p → In n (sort_strings (keys m))
unfolding sort_strings
In-sorted_names m n p h = sort-In str_compare n (keys m) (get-In-keys m n (rw h))

-- `FindByPath` returns an entry that is registered at the path, under the least of the names that
-- are; it returns nothing only when no entry is.
pub find_by_path_lem :
    (c : Config) (path : Str)
    → ((n : Str) (p : Project)
        → find_by_path c path ≡ some (n, p)
        → IsAt c.projects path n p
          × ((j : Str) (q : Project) → IsAt c.projects path j q → Leq str_compare n j))
      × (find_by_path c path ≡ none → (j : Str) (q : Project) → ¬ (IsAt c.projects path j q))
unfolding find_by_path
find_by_path_lem c path = (
  λ n p h. (
    (find_in_sound c.projects (sort_strings (keys c.projects)) path n p h).0,
    λ j q e.
        find_in_least c.projects (sort_strings (keys c.projects)) path n p
          (IsSorted-names c.projects) h j q (In-sorted_names c.projects j q e.0) e,
  ),
  λ h j q e. ground (
    arith,
    find_in_complete c.projects (sort_strings (keys c.projects)) path j q
        (In-sorted_names c.projects j q e.0) e,
  ),
)

Leq-antisym : (a b : Str) → Leq str_compare a b → Leq str_compare b a → a ≡ b
Leq-antisym a b h k = ground (arith, str_compare-IsOrder.flipped a b, str_compare-eq a b)

-- The answer depends on what the registry holds and not on the order in which Go's `range` meets it:
-- two registries with the same entry under every name give the same answer.
pub find_by_path_order :
    (c d : Config) (path : Str)
    → ((k : Str) → get c.projects k ≡ get d.projects k)
    → find_by_path c path ≡ find_by_path d path
find_by_path_order c d path h = both (find_by_path c path) (find_by_path d path) refl refl
  where
    both :
        (x y : Option (Str × Project)) → find_by_path c path ≡ x → find_by_path d path ≡ y → x ≡ y
    both none none e f = refl
    both none (some (n, p)) e f =
        let (at, _) = (find_by_path_lem d path).0 n p f in
        absurd ((find_by_path_lem c path).1 e n p (h n ∙ at.0, at.1))
    both (some (n, p)) none e f =
        let (at, _) = (find_by_path_lem c path).0 n p e in
        absurd ((find_by_path_lem d path).1 f n p (sym (h n) ∙ at.0, at.1))
    both (some (n, p)) (some (j, q)) e f =
        let (at, least) = (find_by_path_lem c path).0 n p e in
        let (at', least') = (find_by_path_lem d path).0 j q f in
        let same : n ≡ j =
          Leq-antisym n j (least j q (h j ∙ at'.0, at'.1)) (least' n p (sym (h n) ∙ at.0, at.1)) in
        cc (h j)

In-names_at :
    (m : Map Project) (path n : Str) (p : Project) → IsAt m path n p → In n (names_at m path)
unfolding get names_at
In-names_at [] path n p (h, e) = cc
In-names_at ((k, q) ∷ m) path n p (h, e) =
    ground (arith, str_eq_iff k n, str_eq_iff q.path path, In-names_at m path n p)

two_In : (l : List Str) (a b : Str) → a ≢ b → In a l → In b l → 1 < length l
two_In [] a b n i j = absurd i
two_In (x ∷ []) a b n i j = absurd (ground arith)
two_In (x ∷ y ∷ l) a b n i j = omega arith

-- Two entries at one path, under different names, are reported.
pub duplicates_at_complete :
    (c : Config) (path n j : Str) (p q : Project)
    → path ≢ []
    → n ≢ j
    → IsAt c.projects path n p
    → IsAt c.projects path j q
    → is_some (duplicates_at c path) ≡ true
unfolding duplicates_at
duplicates_at_complete c path n j p q ne d at at' = ground (
  arith,
  str_eq_iff path [],
  two_In (names_at c.projects path) n j d (In-names_at c.projects path n p at)
      (In-names_at c.projects path j q at'),
)
