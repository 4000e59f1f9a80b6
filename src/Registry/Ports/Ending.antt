-- ===== src/Registry/Ports/Ending.antt =====
-- When the scan for free ports ends, and that a second allocation changes nothing.
use w17ctl.Base.{
  ℕ, suc, ◌+◌, ◌≤◌, ◌<◌, Str, str_compare, ℤ, pos, int_eq, int_eq_iff, Bool, true, false, ◌||◌,
  Option, none, some, List, [], ◌∷◌, ◌++◌, ◌≡◌, refl, inl, inr, ◌∙◌, ap, is_some, length, arith,
  Option-cases, Bool-cases,
}
use w17ctl.Base.Assoc.{Map, get, put, keys, values, keep_keys}
use w17ctl.Base.Sort
use w17ctl.Base.Sort.{sort, sort_strings, In-sort}
use w17ctl.Registry.{Project, Config, effective_port_base}
use w17ctl.Registry.Ports.{
  Slot, PortPin, Pinned, contains, wanted, prune, any_gone, pin_slots, pin_slot, next_free, assign,
  store, allocate_for, allocate_ports, others_ports,
}
use w17ctl.Registry.Ports.Pinning.{IsWanted}
use w17ctl.Registry.Ports.Assign.{IsFree, next_free-IsFree, next_free-total, next_free-least}
use w17ctl.Registry.Ports.Laws.{contains-values}
use w17ctl.Registry.Ports.Allocate.{allocate_ports_lem}

module _ (in_use : ℕ → Bool) where
  -- Where every port from the base up is taken on the machine - as it is for a base above 65535, which
  -- no probe can bind - an allocation that has a new slot to serve does not end, on any fuel.
  pub allocate_ports_stuck :
      (fuel : ℕ) (c : Config) (name : Str) (p : Project) (slots : List Slot) (pinned : Map ℤ)
      (k : Str)
      → get c.projects name ≡ some p
      → ((n : ℕ) → effective_port_base c ≤ n → in_use n ≡ true)
      → IsWanted slots k
      → get p.ports k ≡ none
      → get pinned k ≡ none
      → allocate_ports in_use fuel c name slots pinned ≡ none
  allocate_ports_stuck fuel c name p slots pinned k at full w new unpinned =
      elim (Option-cases (allocate_ports in_use fuel c name slots pinned)) [
        | inl e ↦ e
        | inr ((c', changed, moved), e) ↦
            let r = allocate_ports_lem in_use fuel c name p slots pinned at c' changed moved e in
            elim (Option-cases (get r.ports' k)) [
              | inl gone ↦ absurd (ground (arith, r.allocation.exact k))
              | inr (v, got) ↦
                  let (n, _, above, idle, _) = r.allocation.fresh k v unpinned new got in
                  absurd (ground (arith, full n above))
            ]
      ]

  -- A run of ports that nothing holds.
  abbrev pub IsFreeRun : List ℤ → ℕ → ℕ → Type 0
  IsFreeRun used from size =
      (n : ℕ) → from ≤ n → n < from + size → (contains used (pos n) ≡ false) × (in_use n ≡ false)

  module _ (fuel : ℕ) (k : Str) (ks : List Str) (ports : Map ℤ) (used : List ℤ) (next : ℕ)
      (changed : Bool) where
    pub assign_old :
        (v : ℤ)
        → get ports k ≡ some v
        → assign in_use fuel (k ∷ ks) ports used next changed
          ≡ assign in_use fuel ks ports used next changed
    unfolding assign
    assign_old v h = ground (arith, h)

    assign_new :
        (port : ℕ)
        → get ports k ≡ none
        → next_free in_use fuel used next ≡ some port
        → assign in_use fuel (k ∷ ks) ports used next changed
          ≡ assign in_use fuel ks (put ports k (pos port)) (pos port ∷ used) (suc port) true
    unfolding assign
    assign_new port h g = ground (arith, h, g)

  assign_total :
      (fuel : ℕ) (ks : List Str) (ports : Map ℤ) (used : List ℤ) (next from : ℕ) (changed : Bool)
      → IsFreeRun used from (length ks)
      → next ≤ from
      → from + length ks ≤ next + fuel
      → is_some (assign in_use fuel ks ports used next changed) ≡ true
  unfolding assign contains
  assign_total fuel [] ports used next from changed free le room = refl
  assign_total fuel (k ∷ ks) ports used next from changed free le room =
      elim (Option-cases (get ports k)) [
        | inr (v, old) ↦ rw (assign_old fuel k ks ports used next changed v old) (
            assign_total fuel ks ports used next from changed (λ n a b. free n a (omega arith)) le
              (omega arith))
        | inl new ↦
            let (idle, unbound) = free from (omega arith) (omega arith) in
            let here : IsFree in_use used next from = (le, idle, unbound) in
            elim (Option-cases (next_free in_use fuel used next)) [
              | inl stuck ↦
                  absurd
                    (ground (arith, next_free-total in_use fuel used next from here (omega arith)))
              | inr (port, found) ↦
                  let low = next_free-least in_use fuel used next port from found here in
                  rw (assign_new fuel k ks ports used next changed port new found) (
                    assign_total fuel ks (put ports k (pos port)) (pos port ∷ used) (suc port)
                      (suc from) true (λ n a b. ground (arith, free n (omega arith) (omega arith)))
                      (omega arith)
                      (omega (arith, (next_free-IsFree in_use fuel used next port found).0)))
            ]
      ]

contains-append :
    (xs ys : List ℤ) (v : ℤ) → contains (xs ++ ys) v ≡ (contains xs v || contains ys v)
unfolding contains
contains-append [] ys v = refl
contains-append (x ∷ xs) ys v = ground (arith, contains-append xs ys v)

-- every port of the registry
unfoldable pub registry_ports : Map Project → List ℤ
registry_ports [] = []
registry_ports ((n, p) ∷ m) = values p.ports ++ registry_ports m

others-registry :
    (m : Map Project) (name : Str) (v : ℤ)
    → contains (registry_ports m) v ≡ false
    → contains (others_ports m name) v ≡ false
unfolding others_ports registry_ports contains
others-registry [] name v h = refl
others-registry ((n, p) ∷ m) name v h = ground (
  arith,
  others-registry m name v,
  contains-append (values p.ports) (registry_ports m) v,
  contains-append (values p.ports) (others_ports m name) v,
)

own-registry :
    (m : Map Project) (name : Str) (p : Project) (v : ℤ)
    → get m name ≡ some p
    → contains (registry_ports m) v ≡ false
    → contains (values p.ports) v ≡ false
unfolding registry_ports get
own-registry [] name p v e h = cc
own-registry ((n, q) ∷ m) name p v e h =
    ground (arith, own-registry m name p v, contains-append (values q.ports) (registry_ports m) v)

values-keep_keys :
    (t : Str → Bool) (m : Map ℤ) (v : ℤ)
    → contains (values m) v ≡ false
    → contains (values (keep_keys t m)) v ≡ false
unfolding keep_keys values contains
values-keep_keys t [] v h = refl
values-keep_keys t ((k, w) ∷ m) v h = ground (arith, values-keep_keys t m v)

values-put :
    (m : Map ℤ) (k : Str) (w v : ℤ)
    → contains (values m) v ≡ false
    → int_eq w v ≡ false
    → contains (values (put m k w)) v ≡ false
unfolding put values contains
values-put [] k w v h n = ground arith
values-put ((j, u) ∷ m) k w v h n = ground (arith, values-put m k w v)

values-pin_slot :
    (m : Map Project) (name key : Str) (o : Option ℤ) (st : Pinned) (v : ℤ)
    → contains (values st.ports) v ≡ false
    → ((now : ℤ) → o ≡ some now → int_eq now v ≡ false)
    → contains (values (pin_slot m name key o st).ports) v ≡ false
unfolding pin_slot
values-pin_slot m name key none st v h f = h
values-pin_slot m name key (some now) st v h f = elim (Option-cases (get st.ports key)) [
  | inl e ↦ ground (arith, e, values-put st.ports key now v h (f now refl))
  | inr (w, e) ↦ ground (arith, e, values-put st.ports key now v h (f now refl))
]

values-pin_slots :
    (m : Map Project) (name : Str) (pinned : Map ℤ) (slots : List Slot) (st : Pinned) (v : ℤ)
    → contains (values st.ports) v ≡ false
    → contains (values pinned) v ≡ false
    → contains (values (pin_slots m name pinned slots st).ports) v ≡ false
unfolding pin_slots
values-pin_slots m name pinned [] st v h f = h
values-pin_slots m name pinned (s ∷ ss) st v h f =
    values-pin_slots m name pinned ss (pin_slot m name s.key (get pinned s.key) st) v
      (values-pin_slot m name s.key (get pinned s.key) st v h (λ now e.
        elim (Bool-cases (int_eq now v)) [
          | inr n ↦ n
          | inl y ↦ absurd (ground (arith, contains-values pinned s.key now e, int_eq_iff now v))
        ]))
      f

length-insert : (x : Str) (l : List Str) → length (Sort.insert str_compare x l) ≡ suc (length l)
unfolding Sort.insert
length-insert x [] = refl
length-insert x (y ∷ ys) = ground (arith, length-insert x ys)

length-sort_strings : (l : List Str) → length (sort_strings l) ≡ length l
unfolding sort_strings
length-sort_strings [] = refl
length-sort_strings (x ∷ xs) =
    length-insert x (sort str_compare xs) ∙ ap suc (length-sort_strings xs)

length-put : (m : Map Bool) (k : Str) (b : Bool) → length (keys (put m k b)) ≤ suc (length (keys m))
unfolding put keys
length-put [] k b = omega arith
length-put ((j, w) ∷ m) k b = ground (arith, length-put m k b)

length-wanted : (slots : List Slot) → length (keys (wanted slots)) ≤ length slots
unfolding wanted keys
length-wanted [] = omega arith
length-wanted (s ∷ ss) = omega (arith, length-wanted ss, length-put (wanted ss) s.key true)

pub registered :
    (in_use : ℕ → Bool) (fuel : ℕ) (c : Config) (name : Str) (slots : List Slot) (pinned : Map ℤ)
    (p : Project)
    → get c.projects name ≡ some p
    → allocate_ports in_use fuel c name slots pinned
      ≡ allocate_for in_use fuel c name p slots pinned
unfolding allocate_ports
registered in_use fuel c name slots pinned p e = ground (arith, e)

is_some-store :
    (in_use : ℕ → Bool) (c : Config) (name : Str) (p : Project) (moved : List PortPin)
    (r : Option (Map ℤ × Bool))
    → is_some r ≡ true
    → is_some (store in_use c name p moved r) ≡ true
is_some-store in_use c name p moved none h = cc
is_some-store in_use c name p moved (some (ports, changed)) h = refl

module _ (in_use : ℕ → Bool) (fuel : ℕ) (c : Config) (name : Str) (slots : List Slot)
    (pinned : Map ℤ) (from : ℕ)
    (free : (n : ℕ)
      → from ≤ n
      → n < from + length slots
      → (contains (registry_ports c.projects) (pos n) ≡ false)
        × (contains (values pinned) (pos n) ≡ false)
        × (in_use n ≡ false)) where
  run_is_free :
      (p : Project) (st : Pinned)
      → get c.projects name ≡ some p
      → ((v : ℤ)
          → contains (values p.ports) v ≡ false
          → contains (values pinned) v ≡ false
          → contains (values st.ports) v ≡ false)
      → IsFreeRun in_use
          (others_ports c.projects name ++ values st.ports)
          from
          (length (sort_strings (keys (wanted slots))))
  run_is_free p st e kept n a b =
      let few = length-sort_strings (keys (wanted slots)) in
      let (idle, unpinned, unbound) = free n a (omega (arith, few, length-wanted slots)) in
      (
        contains-append (others_ports c.projects name) (values st.ports) (pos n)
            ∙ ground (
              arith,
              others-registry c.projects name (pos n) idle,
              kept (pos n) (own-registry c.projects name p (pos n) e idle) unpinned,
            ),
        unbound,
      )

  allocate_for_total :
      (p : Project)
      → get c.projects name ≡ some p
      → effective_port_base c ≤ from
      → from + length slots ≤ effective_port_base c + fuel
      → is_some (allocate_for in_use fuel c name p slots pinned) ≡ true
  unfolding allocate_for prune
  allocate_for_total p e le room =
      let few = length-sort_strings (keys (wanted slots)) in
      let before : Pinned = record {
        ports = prune (wanted slots) p.ports;
        changed = any_gone (wanted slots) (keys p.ports);
        moved = [];
      } in
      let st = pin_slots c.projects name pinned slots before in
      is_some-store in_use c name p st.moved _ (
        assign_total in_use fuel _ st.ports _ _ from st.changed
          (run_is_free p st e (λ v h k.
            values-pin_slots c.projects name pinned slots before v (values-keep_keys _ p.ports v h)
              k))
          le (omega (arith, few, length-wanted slots)))

-- With as many consecutive ports from the base up as there are slots, none of them in the registry, in
-- a pin or in use on the machine, and fuel to reach them, an allocation ends with a result.
pub allocate_ports_total :
    (in_use : ℕ → Bool) (fuel : ℕ) (c : Config) (name : Str) (slots : List Slot) (pinned : Map ℤ)
    (from : ℕ)
    → ((n : ℕ)
        → from ≤ n
        → n < from + length slots
        → (contains (registry_ports c.projects) (pos n) ≡ false)
          × (contains (values pinned) (pos n) ≡ false)
          × (in_use n ≡ false))
    → effective_port_base c ≤ from
    → from + length slots ≤ effective_port_base c + fuel
    → is_some (allocate_ports in_use fuel c name slots pinned) ≡ true
allocate_ports_total in_use fuel c name slots pinned from free le room =
    elim (Option-cases (get c.projects name)) [
      | inl e ↦ unfold allocate_ports in ground (arith, e)
      | inr (p, e) ↦
          rw (registered in_use fuel c name slots pinned p e)
            (allocate_for_total in_use fuel c name slots pinned from free p e le room)
    ]
