-- ===== src/Snapstore/RoundTrip.antt =====
-- internal/snapstore/snapstore.go: what `loadConns` restores after `saveConns`.
use w17ctl.Base.{
  Str, Option, none, some, List, [], ◌∷◌, map, ◌≡◌, refl, sym, ap, ◌∙◌, ◌≢◌, arith, All,
}
use w17ctl.Base.Assoc.{get}
use w17ctl.Snapstore.{
  Conn, Os, Dir, Saved, SaveError, file, concat, save_one_to, save_conns, load_conns,
}
use w17ctl.Snapstore.Saving.{IsWritten, save_one_to-IsWritten}

module _ (os : Os) where
  -- The connection's file and its temporary one are not the given one.
  abbrev pub IsElsewhere : Str → Conn → Type 0
  IsElsewhere k c = (k ≢ file c) × (k ≢ os.temp_name (file c))

  -- The connections write to different files, and no temporary name is one of those.
  abbrev pub IsApart : List Conn → Type 0
  IsApart [] = Unit
  IsApart (c ∷ cs) = (file c ≢ os.temp_name (file c)) × All (IsElsewhere (file c)) cs × IsApart cs

  abbrev continued : List Conn → Saved → Saved
  continued cs (d, some e) = (d, some e)
  continued cs (d, none) = save_conns os cs d

  save_conns-cons :
      (c : Conn) (cs : List Conn) (d : Dir)
      → save_conns os (c ∷ cs) d ≡ continued cs (save_one_to os c d)
  unfolding save_conns
  save_conns-cons c cs d = split (save_one_to os c d)
    where
      split :
          (r : Saved)
          → (let (after, e) = r in
              elim e [ some x ↦ (after, some x) | none ↦ save_conns os cs after ])
            ≡ continued cs r
      split (a, some e) = refl
      split (a, none) = refl

  one_keeps :
      (k : Str) (c : Conn) (d : Dir) (r : Saved)
      → IsWritten os c d r
      → r.1 ≡ none
      → IsElsewhere k c
      → get r.0 k ≡ get d k
  one_keeps k c d (a, some e) w h (nf, nt) = w k nt
  one_keeps k c d (a, none) w h (nf, nt) = w.1 k nt nf

  one_holds :
      (c : Conn) (d : Dir) (r : Saved)
      → IsWritten os c d r
      → r.1 ≡ none
      → get r.0 (file c) ≡ some (concat c.chunks)
  one_holds c d (a, some e) w h = absurd (ground arith)
  one_holds c d (a, none) w h = w.0

  continued-none :
      (cs : List Conn) (r : Saved) (d : Dir)
      → continued cs r ≡ (d, none)
      → (r.1 ≡ none) × (save_conns os cs r.0 ≡ (d, none))
  continued-none cs (a, some e) d h = absurd (clash (ap (λ s. s.1) h))
    where
      clash : ◌≡◌ {A = Option SaveError} (some e) none → ⊥
      clash q = ground arith
  continued-none cs (a, none) d h = (refl, h)

  saves_keep :
      (k : Str) (cs : List Conn) (d after : Dir)
      → save_conns os cs d ≡ (after, none)
      → All (IsElsewhere k) cs
      → get after k ≡ get d k
  unfolding save_conns
  saves_keep k [] d after h a = ap (λ s. get s.0 k) (sym h)
  saves_keep k (c ∷ cs) d after h (e, es) =
      let r = save_one_to os c d in
      let (ok, rest) = continued-none cs r after (sym (save_conns-cons c cs d) ∙ h) in
      saves_keep k cs r.0 after rest es ∙ one_keeps k c d r (save_one_to-IsWritten os c d) ok e

  saves_hold :
      (cs : List Conn) (d after : Dir)
      → save_conns os cs d ≡ (after, none)
      → IsApart cs
      → All (λ c. get after (file c) ≡ some (concat c.chunks)) cs
  saves_hold [] d after h a = tt
  saves_hold (c ∷ cs) d after h (_, es, ap_rest) =
      let r = save_one_to os c d in
      let (ok, rest) = continued-none cs r after (sym (save_conns-cons c cs d) ∙ h) in
      (
        saves_keep (file c) cs r.0 after rest es
            ∙ one_holds c d r (save_one_to-IsWritten os c d) ok,
        saves_hold cs r.0 after rest ap_rest,
      )

abbrev pub dumped : Conn → Str × Str
dumped c = (c.name, concat c.chunks)

abbrev accepts : Str → Str → Option Str
accepts name body = none

loads :
    (d : Dir) (cs : List Conn)
    → All (λ c. get d (file c) ≡ some (concat c.chunks)) cs
    → load_conns accepts d cs ≡ (map dumped cs, none)
unfolding load_conns
loads d [] h = refl
loads d (c ∷ cs) (e, es) = rw (load_conns, e, loads d cs es) refl

-- Where the connections of a set write to different files and no temporary name is one of them: after
-- a save that reports no error, a load of the same connections whose stores accept what they are
-- given hands every store, in order, exactly the bytes that its own dump wrote.
pub load_conns-save_conns :
    (os : Os) (cs : List Conn) (d after : Dir)
    → IsApart os cs
    → save_conns os cs d ≡ (after, none)
    → load_conns (λ name body. none) after cs ≡ (map (λ c. (c.name, concat c.chunks)) cs, none)
load_conns-save_conns os cs d after a h = loads after cs (saves_hold os cs d after h a)
