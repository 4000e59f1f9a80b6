-- ===== src/Registry/Ports/Allocate.antt =====
-- `AllocatePorts` and `AllocatePortsPinned` as a whole.
use w17ctl.Base.{
  ℕ, Str, str_eq, str_eq_iff, ℤ, Bool, Option, none, some, List, [], ◌≡◌, refl, ◌≢◌, ◌⊎◌, inl, inr,
  sym, ◌∙◌, ap, is_some, arith, Option-cases, Bool-cases,
}
use w17ctl.Base.Assoc.{Map, get, put, keys, get-put, get-keep_keys}
use w17ctl.Registry.{Project, Config}
use w17ctl.Registry.Ports.{
  Slot, PortPin, wanted, prune, any_gone, pin_slots, allocate_for, allocate_ports,
}
use w17ctl.Registry.Ports.Pinning.{pin_slots-nil}
use w17ctl.Registry.Ports.Assign.{IsInjective}
use w17ctl.Registry.Ports.Laws.{IsAllocation, start-Covers, allocate_for_lem}

-- What an allocation does to the registry: the project's ports are an allocation, and no other
-- project and no other field changes.
pub record IsAllocated (in_use : ℕ → Bool) (c c' : Config) (name : Str) (p : Project)
    (slots : List Slot) (pinned : Map ℤ) : Type 0 where
  pub ports' : Map ℤ
  pub stored : c' ≡ record c { projects = put c.projects name (record p { ports = ports' }) }
  pub allocation : IsAllocation in_use c name p slots pinned ports'

module _ (in_use : ℕ → Bool) (fuel : ℕ) (c : Config) (name : Str) (p : Project) (slots : List Slot)
    (pinned : Map ℤ) (at : get c.projects name ≡ some p) (c' : Config) (changed : Bool)
    (moved : List PortPin) where
  run_for :
      allocate_ports in_use fuel c name slots pinned ≡ some (c', changed, moved)
      → allocate_for in_use fuel c name p slots pinned ≡ some (c', changed, moved)
  unfolding allocate_ports
  run_for h = ground (arith, at)

  -- When the allocation for a registered project ends, exactly the project's slots have a port; a
  -- pinned slot has its pin; an unpinned slot that had a port keeps it; a new port is at least the
  -- base, free on the machine, and no port of another project. The rest of the registry is as before.
  pub allocate_ports_lem :
      allocate_ports in_use fuel c name slots pinned ≡ some (c', changed, moved)
      → IsAllocated in_use c c' name p slots pinned
  allocate_ports_lem h =
      let (ports', e, a, _) =
        allocate_for_lem in_use c name p slots pinned fuel c' changed moved (run_for h) in
      record { ports' = ports'; stored = e; allocation = a }

-- No host port stands twice in the registry.
abbrev pub IsClashFree : Config → Type 0
IsClashFree c =
    (n j : Str) (p q : Project) (k l : Str) (v : ℤ)
    → get c.projects n ≡ some p
    → get c.projects j ≡ some q
    → get p.ports k ≡ some v
    → get q.ports l ≡ some v
    → (n ≡ j) × (k ≡ l)

module _ (in_use : ℕ → Bool) (c : Config) (name : Str) (p : Project) (slots : List Slot)
    (ports' : Map ℤ) (at : get c.projects name ≡ some p) (free : IsClashFree c)
    (a : IsAllocation in_use c name p slots [] ports') where
  no_pin : (k : Str) → get {V = ℤ} [] k ≡ none
  unfolding get
  no_pin k = refl

  no_clash_with_other :
      (j : Str) (q : Project) (k l : Str) (v : ℤ)
      → j ≢ name
      → get c.projects j ≡ some q
      → get ports' k ≡ some v
      → get q.ports l ≢ some v
  no_clash_with_other j q k l v ne e h g = elim (Option-cases (get p.ports k)) [
    | inl new ↦ let (n, _, _, _, others) = a.fresh k v (no_pin k) new h in others j q l ne e g
    | inr (w, old) ↦
        let kept = a.sticky k w (ground (arith, a.exact k)) (no_pin k) old in
        let same : w ≡ v = ground arith in
        ne (sym (free name j p q k l v at e (old ∙ ap some same) g).0)
  ]

-- An entry after a write is the written one or an older one under another name.
put_entry :
    (m : Map Project) (name n : Str) (p q : Project)
    → get (put m name p) n ≡ some q
    → ((n ≡ name) × (q ≡ p)) ⊎ ((n ≢ name) × (get m n ≡ some q))
put_entry m name n p q h = elim (Bool-cases (str_eq name n)) [
  | inl e ↦ inl (sym ((str_eq_iff name n).0 e), ground (arith, get-put m name n p))
  | inr e ↦ inr (λ f. ground (arith, str_eq_iff name n), ground (arith, get-put m name n p))
]

module _ (in_use : ℕ → Bool) (c : Config) (name : Str) (p : Project) (slots : List Slot)
    (ports' : Map ℤ) (at : get c.projects name ≡ some p) (free : IsClashFree c)
    (a : IsAllocation in_use c name p slots [] ports') (inj : IsInjective ports') where
  abbrev with_ports : Project
  with_ports = record p { ports = ports' }

  stored-IsClashFree : IsClashFree (record c { projects = put c.projects name with_ports })
  stored-IsClashFree n j q r k l v en ej hq hr =
      cases (put_entry c.projects name n with_ports q en)
        (put_entry c.projects name j with_ports r ej)
    where
      Entry : Str → Project → Type 0
      Entry i o = ((i ≡ name) × (o ≡ with_ports)) ⊎ ((i ≢ name) × (get c.projects i ≡ some o))

      cases : Entry n q → Entry j r → (n ≡ j) × (k ≡ l)
      cases (inl (e, f)) (inl (e', f')) = (
        e ∙ sym e',
        inj k l v (ap (λ o. get o.ports k) (sym f) ∙ hq) (ap (λ o. get o.ports l) (sym f') ∙ hr),
      )
      cases (inl (e, f)) (inr (ne, g)) = absurd (
          no_clash_with_other in_use c name p slots ports' at free a j r k l v ne g
            (ap (λ o. get o.ports k) (sym f) ∙ hq) hr)
      cases (inr (ne, g)) (inl (e, f)) = absurd (
          no_clash_with_other in_use c name p slots ports' at free a n q l k v ne g
            (ap (λ o. get o.ports l) (sym f) ∙ hr) hq)
      cases (inr (_, g)) (inr (_, g')) = free n j q r k l v g g' hq hr

module _ (in_use : ℕ → Bool) (fuel : ℕ) (c : Config) (name : Str) (slots : List Slot) (c' : Config)
    (changed : Bool) (moved : List PortPin) where
  unregistered :
      get c.projects name ≡ none
      → allocate_ports in_use fuel c name slots [] ≡ some (c', changed, moved)
      → c ≡ c'
  unfolding allocate_ports
  unregistered e h = ground (arith, e)

  start_IsInjective :
      (p : Project)
      → get c.projects name ≡ some p
      → IsClashFree c
      → IsInjective
          (pin_slots c.projects name [] slots (record {
            ports = prune (wanted slots) p.ports;
            changed = any_gone (wanted slots) (keys p.ports);
            moved = [];
          })).ports
  unfolding prune
  start_IsInjective p at free j k v = rw pin_slots-nil (λ h g.
      (free name name p p j k v at at
        (ground (arith, get-keep_keys (λ (i : Str). is_some (get (wanted slots) i)) p.ports j))
        (ground (arith, get-keep_keys (λ (i : Str). is_some (get (wanted slots) i)) p.ports k))).1)

  -- Without pins, a registry in which no host port stands twice - not in two projects, not in two slots
  -- of one - stays so.
  pub allocate_ports-IsClashFree :
      IsClashFree c
      → allocate_ports in_use fuel c name slots [] ≡ some (c', changed, moved)
      → IsClashFree c'
  allocate_ports-IsClashFree free h = split (get c.projects name) refl
    where
      split : (o : Option Project) → get c.projects name ≡ o → IsClashFree c'
      split none e = rw (← unregistered e h) free
      split (some p) at =
          let (ports', e, a, i) =
            allocate_for_lem in_use c name p slots [] fuel c' changed moved
              (run_for in_use fuel c name p slots [] at c' changed moved h) in
          rw e (
            stored-IsClashFree in_use c name p slots ports' at free a
              (i (start-Covers in_use c name p slots []) (start_IsInjective p at free)))
