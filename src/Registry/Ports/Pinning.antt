-- ===== src/Registry/Ports/Pinning.antt =====
-- What the loop over the explicit choices does to the ports, and what it reports.
use w17ctl.Base.{
  Str, str_eq, str_eq_iff, ℤ, int_eq_iff, true, Option, none, some, List, [], ◌∷◌, ◌≡◌, refl, ◌⊎◌,
  inl, inr, if◌then◌else◌, is_some, Option-cases, arith,
}
use w17ctl.Base.Assoc.{Map, get, get-put}
use w17ctl.Registry.{Project}
use w17ctl.Registry.Ports.{Slot, Pinned, pin_slot, pin_slots, wanted}

-- The slot is one that the project has.
abbrev pub IsWanted : List Slot → Str → Type 0
IsWanted slots k = is_some (get (wanted slots) k) ≡ true

-- the registry's port, replaced by the choice where there is one
abbrev choose : Option ℤ → Option ℤ → Option ℤ
choose none old = old
choose (some now) old = some now

module _ (m : Map Project) (name : Str) where
  get-pin_slot :
      (key k : Str) (o : Option ℤ) (st : Pinned)
      → get (pin_slot m name key o st).ports k
        ≡ (if str_eq key k then choose o (get st.ports k) else get st.ports k)
  unfolding pin_slot
  get-pin_slot key k none st = ground arith
  get-pin_slot key k (some now) st = elim (Option-cases (get st.ports key)) [
    | inl e ↦ ground (arith, get-put st.ports key k now)
    | inr (v, e) ↦ ground (arith, get-put st.ports key k now, str_eq_iff key k, int_eq_iff v now)
  ]

  -- A slot with an explicit choice gets it.
  pub pin_slots_pinned :
      (pinned : Map ℤ) (slots : List Slot) (st : Pinned) (k : Str) (v : ℤ)
      → get pinned k ≡ some v
      → (IsWanted slots k) ⊎ (get st.ports k ≡ some v)
      → get (pin_slots m name pinned slots st).ports k ≡ some v
  unfolding pin_slots wanted
  pin_slots_pinned pinned [] st k v e (inl w) = unfold get in cc w
  pin_slots_pinned pinned [] st k v e (inr h) = h
  pin_slots_pinned pinned (s ∷ ss) st k v e h =
      let st' = pin_slot m name s.key (get pinned s.key) st in
      ground (
        arith,
        pin_slots_pinned pinned ss st' k v e,
        get-pin_slot s.key k (get pinned s.key) st,
        get-put (wanted ss) s.key k true,
        str_eq_iff s.key k,
      )

  -- A slot without one keeps what it has.
  pub pin_slots_unpinned :
      (pinned : Map ℤ) (slots : List Slot) (st : Pinned) (k : Str)
      → get pinned k ≡ none
      → get (pin_slots m name pinned slots st).ports k ≡ get st.ports k
  unfolding pin_slots
  pin_slots_unpinned pinned [] st k e = refl
  pin_slots_unpinned pinned (s ∷ ss) st k e =
      let st' = pin_slot m name s.key (get pinned s.key) st in
      ground (
        arith,
        pin_slots_unpinned pinned ss st' k e,
        get-pin_slot s.key k (get pinned s.key) st,
        str_eq_iff s.key k,
      )

  -- No slot but the project's is added.
  pub pin_slots-IsWanted :
      (pinned : Map ℤ) (slots : List Slot) (st : Pinned) (k : Str)
      → is_some (get (pin_slots m name pinned slots st).ports k) ≡ true
      → (is_some (get st.ports k) ≡ true) ⊎ IsWanted slots k
  unfolding pin_slots wanted
  pin_slots-IsWanted pinned [] st k h = inl h
  pin_slots-IsWanted pinned (s ∷ ss) st k h =
      let st' = pin_slot m name s.key (get pinned s.key) st in
      ground (
        arith,
        pin_slots-IsWanted pinned ss st' k,
        get-pin_slot s.key k (get pinned s.key) st,
        get-put (wanted ss) s.key k true,
      )

  -- Without choices the loop does nothing.
  pub pin_slots-nil : (slots : List Slot) (st : Pinned) → pin_slots m name [] slots st ≡ st
  unfolding pin_slots pin_slot get
  pin_slots-nil [] st = refl
  pin_slots-nil (s ∷ ss) st = pin_slots-nil ss st
