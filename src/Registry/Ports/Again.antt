-- ===== src/Registry/Ports/Again.antt =====
-- A second allocation with the same slots and pins.
use w17ctl.Base.{
  ℕ, Str, str_eq_self, str_compare, ℤ, int_eq_iff, Bool, true, false, Option, none, some, List, [],
  ◌∷◌, ◌++◌, ◌≡◌, refl, inl, inr, sym, ◌∙◌, is_some, In, arith, Option-cases,
}
use w17ctl.Base.Assoc.{Map, get, put, keys, values, get-put, keep_keys, In-keys-get}
use w17ctl.Base.Sort.{sort_strings, In-sort}
use w17ctl.Registry.{Project, Config, effective_port_base}
use w17ctl.Registry.Ports.{
  Slot, PortPin, Pinned, wanted, prune, any_gone, pin_slots, pin_slot, assign, allocate_for,
  allocate_ports, others_ports,
}
use w17ctl.Registry.Ports.Pinning.{IsWanted}
use w17ctl.Registry.Ports.Laws.{IsAllocation}
use w17ctl.Registry.Ports.Allocate.{allocate_ports_lem}
use w17ctl.Registry.Ports.Ending.{assign_old, registered}

put_same : (m : Map Project) (k : Str) (p : Project) → get m k ≡ some p → put m k p ≡ m
unfolding get put
put_same [] k p h = cc
put_same ((j, q) ∷ m) k p h = ground (arith, put_same m k p)

prune_same : (want : Map Bool) (m : Map ℤ) → any_gone want (keys m) ≡ false → prune want m ≡ m
unfolding prune keep_keys any_gone keys
prune_same want [] h = refl
prune_same want ((k, v) ∷ m) h = ground (arith, prune_same want m)

none_gone :
    (want : Map Bool) (ks : List Str)
    → ((k : Str) → In k ks → is_some (get want k) ≡ true)
    → any_gone want ks ≡ false
unfolding any_gone
none_gone want [] h = refl
none_gone want (k ∷ ks) h = ground (arith, h k (inl refl), none_gone want ks (λ j i. h j (inr i)))

assign_present :
    (in_use : ℕ → Bool) (fuel : ℕ) (ks : List Str) (ports : Map ℤ) (used : List ℤ) (next : ℕ)
    (changed : Bool)
    → ((k : Str) → In k ks → is_some (get ports k) ≡ true)
    → assign in_use fuel ks ports used next changed ≡ some (ports, changed)
assign_present in_use fuel [] ports used next changed h = unfold assign in refl
assign_present in_use fuel (k ∷ ks) ports used next changed h = elim (Option-cases (get ports k)) [
  | inl e ↦ absurd (ground (arith, h k (inl refl)))
  | inr (v, e) ↦
      assign_old in_use fuel k ks ports used next changed v e
      ∙ assign_present in_use fuel ks ports used next changed (λ j i. h j (inr i))
]

pin_slot_same :
    (m : Map Project) (name key : Str) (o : Option ℤ) (st : Pinned)
    → ((v : ℤ) → o ≡ some v → get st.ports key ≡ some v)
    → pin_slot m name key o st ≡ st
unfolding pin_slot
pin_slot_same m name key none st h = refl
pin_slot_same m name key (some v) st h = ground (arith, h v refl, int_eq_iff v v)

pin_slots_same :
    (m : Map Project) (name : Str) (pinned : Map ℤ) (slots : List Slot) (st : Pinned)
    → ((k : Str) (v : ℤ) → IsWanted slots k → get pinned k ≡ some v → get st.ports k ≡ some v)
    → pin_slots m name pinned slots st ≡ st
unfolding pin_slots wanted
pin_slots_same m name pinned [] st h = refl
pin_slots_same m name pinned (s ∷ ss) st h =
    rw
      (pin_slot_same m name s.key (get pinned s.key) st (λ v e.
        h s.key v (ground (arith, get-put (wanted ss) s.key s.key true, str_eq_self s.key)) e))
      (pin_slots_same m name pinned ss st
        (λ k v w e. h k v (ground (arith, get-put (wanted ss) s.key k true)) e))

module _ (in_use : ℕ → Bool) (c : Config) (name : Str) (p : Project) (slots : List Slot)
    (pinned : Map ℤ) (q : Project) (a : IsAllocation in_use c name p slots pinned q.ports) where
  none_gone_after : any_gone (wanted slots) (keys q.ports) ≡ false
  none_gone_after =
      none_gone (wanted slots) (keys q.ports) (λ k i. sym (a.exact k) ∙ In-keys-get q.ports k i)

  abbrev settled : Pinned
  settled = record { ports = q.ports; changed = false; moved = [] }

  pinned_after : (m : Map Project) → pin_slots m name pinned slots settled ≡ settled
  pinned_after m = pin_slots_same m name pinned slots settled (λ k v w e. a.honoured k v w e)

  all_present :
      (k : Str) → In k (sort_strings (keys (wanted slots))) → is_some (get q.ports k) ≡ true
  unfolding sort_strings
  all_present k i = a.exact k ∙ In-keys-get (wanted slots) k (In-sort str_compare k _ i)

  again_for :
      (probe : ℕ → Bool) (d : Config) (fuel : ℕ)
      → get d.projects name ≡ some q
      → allocate_for probe fuel d name q slots pinned ≡ some (d, false, [])
  unfolding allocate_for
  again_for probe d fuel at =
      rw
        (
          prune_same (wanted slots) q.ports none_gone_after,
          none_gone_after,
          pinned_after d.projects,
        )
        (rw (
          assign_present probe fuel (sort_strings (keys (wanted slots))) q.ports
              (others_ports d.projects name ++ values q.ports) (effective_port_base d) false
              all_present,
          put_same d.projects name q at,
        ))

-- Allocating again, with the same slots and the same pins, changes nothing, reports no change and no
-- moved pin - whatever has become of the machine's ports and with no port left to scan.
pub allocate_ports_again :
    (in_use in_use' : ℕ → Bool) (fuel fuel' : ℕ) (c c' : Config) (name : Str) (p : Project)
    (slots : List Slot) (pinned : Map ℤ) (changed : Bool) (moved : List PortPin)
    → get c.projects name ≡ some p
    → allocate_ports in_use fuel c name slots pinned ≡ some (c', changed, moved)
    → allocate_ports in_use' fuel' c' name slots pinned ≡ some (c', false, [])
allocate_ports_again in_use in_use' fuel fuel' c c' name p slots pinned changed moved at h =
    let r = allocate_ports_lem in_use fuel c name p slots pinned at c' changed moved h in
    let q : Project = record p { ports = r.ports' } in
    let at' : get (put c.projects name q) name ≡ some q =
      get-put c.projects name name q ∙ rw (str_eq_self name) in
    rw r.stored (
      registered in_use' fuel' _ name slots pinned q at'
      ∙ again_for in_use c name p slots pinned q r.allocation in_use' _ fuel' at')
