-- ===== src/Registry/Ports/Laws.antt =====
-- What an allocation leaves in the registry.
use w17ctl.Base.{
  ℕ, ◌≤◌, Str, str_eq_iff, str_compare, ℤ, pos, int_eq_iff, Bool, true, false, Option, none, some,
  List, [], ◌∷◌, ◌++◌, ◌≡◌, refl, ◌≢◌, inl, inr, sym, ◌∙◌, if◌then◌else◌, is_some, arith,
  Option-cases, Bool-cases,
}
use w17ctl.Base.Assoc.{Map, get, put, keys, values, get-keep_keys, In-keys-get, get-In-keys}
use w17ctl.Base.Sort.{sort_strings, In-sort, sort-In}
use w17ctl.Registry.{Project, Config, effective_port_base}
use w17ctl.Registry.Ports.{
  Slot, PortPin, Pinned, contains, assign, wanted, prune, any_gone, pin_slots, others_ports, store,
  allocate_for,
}
use w17ctl.Registry.Ports.Pinning.{
  IsWanted, pin_slots_pinned, pin_slots_unpinned, pin_slots-IsWanted,
}
use w17ctl.Registry.Ports.Assign.{Assigned, assign-Assigned, IsInjective, Covers}

contains-append_left :
    (xs ys : List ℤ) (v : ℤ) → contains xs v ≡ true → contains (xs ++ ys) v ≡ true
unfolding contains
contains-append_left [] ys v h = cc
contains-append_left (x ∷ xs) ys v h = ground (arith, contains-append_left xs ys v)

contains-append_right :
    (xs ys : List ℤ) (v : ℤ) → contains ys v ≡ true → contains (xs ++ ys) v ≡ true
unfolding contains
contains-append_right [] ys v h = h
contains-append_right (x ∷ xs) ys v h = ground (arith, contains-append_right xs ys v h)

pub contains-values :
    (m : Map ℤ) (k : Str) (v : ℤ) → get m k ≡ some v → contains (values m) v ≡ true
unfolding contains values get
contains-values [] k v h = cc
contains-values ((j, w) ∷ m) k v h = ground (arith, contains-values m k v, int_eq_iff w v)

-- The port of another project is among those that the scan avoids.
pub contains-others_ports :
    (m : Map Project) (name n : Str) (p : Project) (k : Str) (v : ℤ)
    → n ≢ name
    → get m n ≡ some p
    → get p.ports k ≡ some v
    → contains (others_ports m name) v ≡ true
unfolding others_ports get
contains-others_ports [] name n p k v ne e h = cc
contains-others_ports ((j, q) ∷ m) name n p k v ne e h = ground (
  arith,
  contains-others_ports m name n p k v ne,
  contains-append_left (values q.ports) (others_ports m name) v,
  contains-append_right (values q.ports) (others_ports m name) v,
  contains-values q.ports k v,
  str_eq_iff j n,
  str_eq_iff j name,
)

-- What an allocation promises of the project's ports, before and after it.
pub record IsAllocation (in_use : ℕ → Bool) (c : Config) (name : Str) (p : Project)
    (slots : List Slot) (pinned ports' : Map ℤ) : Type 0 where
  pub exact : (k : Str) → is_some (get ports' k) ≡ is_some (get (wanted slots) k)
  pub honoured :
      (k : Str) (v : ℤ) → IsWanted slots k → get pinned k ≡ some v → get ports' k ≡ some v
  pub sticky :
      (k : Str) (v : ℤ)
      → IsWanted slots k
      → get pinned k ≡ none
      → get p.ports k ≡ some v
      → get ports' k ≡ some v
  pub fresh :
      (k : Str) (v : ℤ)
      → get pinned k ≡ none
      → get p.ports k ≡ none
      → get ports' k ≡ some v
      → (n : ℕ) × (v ≡ pos n)
        × (effective_port_base c ≤ n)
        × (in_use n ≡ false)
        × ((j : Str) (q : Project) (l : Str)
            → j ≢ name
            → get c.projects j ≡ some q
            → get q.ports l ≢ some v)

module _ (in_use : ℕ → Bool) (c : Config) (name : Str) (p : Project) (slots : List Slot)
    (pinned : Map ℤ) where
  -- the state that the loop over the sorted keys starts with
  abbrev start : Pinned
  start = pin_slots c.projects name pinned slots (record {
    ports = prune (wanted slots) p.ports;
    changed = any_gone (wanted slots) (keys p.ports);
    moved = [];
  })

  abbrev taken : List ℤ
  taken = others_ports c.projects name ++ values start.ports

  start_unpinned :
      (k : Str)
      → get pinned k ≡ none
      → get start.ports k ≡ (if is_some (get (wanted slots) k) then get p.ports k else none)
  unfolding prune
  start_unpinned k e =
      pin_slots_unpinned c.projects name pinned slots _ k e
      ∙ get-keep_keys (λ j. is_some (get (wanted slots) j)) p.ports k

  start-IsWanted : (k : Str) → is_some (get start.ports k) ≡ true → IsWanted slots k
  unfolding prune
  start-IsWanted k h = elim (pin_slots-IsWanted c.projects name pinned slots _ k h) [
    | inl old ↦
        ground (arith, get-keep_keys (λ (j : Str). is_some (get (wanted slots) j)) p.ports k)
    | inr w ↦ w
  ]

  pub start-Covers : Covers taken start.ports
  start-Covers k v h =
      contains-append_right (others_ports c.projects name) (values start.ports) v
        (contains-values start.ports k v h)

  allocated :
      (ports' : Map ℤ)
      → Assigned in_use
          (sort_strings (keys (wanted slots)))
          start.ports
          taken
          (effective_port_base c)
          ports'
      → IsAllocation in_use c name p slots pinned ports'
  unfolding sort_strings
  allocated ports' a = record {
    exact = λ k. elim (Bool-cases (is_some (get (wanted slots) k))) [
      | inl w ↦ a.complete k (sort-In str_compare k _ (get-In-keys (wanted slots) k w)) ∙ sym w
      | inr w ↦ elim (Option-cases (get ports' k)) [
        | inl e ↦ rw (e, w)
        | inr (v, e) ↦ absurd (elim (a.origin k v e) [
          | inl old ↦ ground (arith, start-IsWanted k)
          | inr (i, _, _, _) ↦
              ground (arith, In-keys-get (wanted slots) k (In-sort str_compare k _ i))
        ])
      ]
    ];
    honoured =
        λ k v w e. a.kept k v (pin_slots_pinned c.projects name pinned slots _ k v e (inl w));
    sticky = λ k v w e h. a.kept k v (ground (arith, start_unpinned k e));
    fresh = λ k v e h g. elim (a.origin k v g) [
      | inl old ↦ absurd (ground (arith, start_unpinned k e))
      | inr (i, n, q, f) ↦ (
        n,
        q,
        f.0,
        f.2,
        λ j r l ne at held.
            let there =
              contains-append_left (others_ports c.projects name) (values start.ports) v
                (contains-others_ports c.projects name j r l v ne at held) in
            cc (there, f.1, q),
      )
    ];
  }

  -- A run for a project that is registered stores an allocation of its ports, and nothing else.
  pub allocate_for_lem :
      (fuel : ℕ) (c' : Config) (changed : Bool) (moved : List PortPin)
      → allocate_for in_use fuel c name p slots pinned ≡ some (c', changed, moved)
      → (ports' : Map ℤ) × (c'
          ≡ record c { projects = put c.projects name (record p { ports = ports' }) })
        × IsAllocation in_use c name p slots pinned ports'
        × (Covers taken start.ports → IsInjective start.ports → IsInjective ports')
  unfolding allocate_for
  allocate_for_lem fuel c' changed moved h =
      stored
        (assign in_use fuel (sort_strings (keys (wanted slots))) start.ports taken
          (effective_port_base c) start.changed)
        refl h
    where
      stored :
          (r : Option (Map ℤ × Bool))
          → assign in_use fuel
              (sort_strings (keys (wanted slots)))
              start.ports
              taken
              (effective_port_base c)
              start.changed
            ≡ r
          → store in_use c name p start.moved r ≡ some (c', changed, moved)
          → (ports' : Map ℤ) × (c'
              ≡ record c { projects = put c.projects name (record p { ports = ports' }) })
            × IsAllocation in_use c name p slots pinned ports'
            × (Covers taken start.ports → IsInjective start.ports → IsInjective ports')
      stored none e g = cc
      stored (some (ports', ch)) e g =
          let a =
            assign-Assigned in_use fuel _ start.ports taken (effective_port_base c) start.changed
              ports' ch e in
          (ports', ground arith, allocated ports' a, a.injective)
