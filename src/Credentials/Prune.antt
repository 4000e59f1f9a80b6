-- ===== src/Credentials/Prune.antt =====
-- internal/authstore/authstore.go: which credentials `PruneDeadLoopbackInstances` drops.
use w17ctl.Base.{
  ℕ, suc, Str, str_eq, str_eq_iff, Bool, true, false, not, ◌||◌, Option, none, some, List, [], ◌∷◌,
  ◌≡◌, refl, sym, ap, inl, inr, if◌then◌else◌, is_some, arith, In,
}
use w17ctl.Base.Assoc.{get, delete, keys, get-delete, get-In-keys}
use w17ctl.Credentials.{
  Instance, Store, flat, instance_at, normalize_store, remove_instance, stays, prune_urls,
  prune_dead, is_loopback_url, strip_scheme,
}

module _ (keep : Str) (listening : Str → Bool) where
  prune_urls_keeps :
      (us : List Str) (s : Store) (k : Str)
      → stays keep listening k ≡ true
      → get (prune_urls keep listening us s).0.instances k ≡ get s.instances k
  unfolding prune_urls remove_instance
  prune_urls_keeps [] s k e = refl
  prune_urls_keeps (u ∷ us) s k e =
      split (stays keep listening u) refl (prune_urls_keeps us s k e)
        (prune_urls_keeps us (remove_instance s u) k e)
    where
      split :
          (b : Bool)
          → stays keep listening u ≡ b
          → get (prune_urls keep listening us s).0.instances k ≡ get s.instances k
          → get (prune_urls keep listening us (remove_instance s u)).0.instances k
            ≡ get (delete s.instances u) k
          → get
              (if◌then◌else◌ {A = Store × ℕ} b (prune_urls keep listening us s) (
                (prune_urls keep listening us (remove_instance s u)).0,
                suc (prune_urls keep listening us (remove_instance s u)).1,
              )).0.instances
              k
            ≡ get s.instances k
      split true q x y = x
      split false q x y = ground (
        arith,
        y,
        get-delete s.instances u k,
        str_eq_iff u k,
        λ (z : u ≡ k). ap (stays keep listening) z,
      )

  prune_urls-gone :
      (us : List Str) (s : Store) (k : Str)
      → get s.instances k ≡ none
      → get (prune_urls keep listening us s).0.instances k ≡ none
  unfolding prune_urls remove_instance
  prune_urls-gone [] s k e = e
  prune_urls-gone (u ∷ us) s k e =
      split (stays keep listening u) (prune_urls-gone us s k e)
        (prune_urls-gone us (remove_instance s u) k (ground (arith, get-delete s.instances u k)))
    where
      split :
          (b : Bool)
          → get (prune_urls keep listening us s).0.instances k ≡ none
          → get (prune_urls keep listening us (remove_instance s u)).0.instances k ≡ none
          → get
              (if◌then◌else◌ {A = Store × ℕ} b (prune_urls keep listening us s) (
                (prune_urls keep listening us (remove_instance s u)).0,
                suc (prune_urls keep listening us (remove_instance s u)).1,
              )).0.instances
              k
            ≡ none
      split true x y = x
      split false x y = y

  prune_urls-drops :
      (us : List Str) (s : Store) (k : Str)
      → stays keep listening k ≡ false
      → In k us
      → get (prune_urls keep listening us s).0.instances k ≡ none
  unfolding prune_urls remove_instance
  prune_urls-drops [] s k e i = absurd i
  prune_urls-drops (u ∷ us) s k e i =
      split (stays keep listening u) refl i (λ j. prune_urls-drops us s k e j)
        (λ j. prune_urls-drops us (remove_instance s u) k e j)
        (prune_urls-gone us (remove_instance s u) k)
    where
      split :
          (b : Bool)
          → stays keep listening u ≡ b
          → In k (u ∷ us)
          → (In k us → get (prune_urls keep listening us s).0.instances k ≡ none)
          → (In k us
              → get (prune_urls keep listening us (remove_instance s u)).0.instances k ≡ none)
          → (get (delete s.instances u) k ≡ none
              → get (prune_urls keep listening us (remove_instance s u)).0.instances k ≡ none)
          → get
              (if◌then◌else◌ {A = Store × ℕ} b (prune_urls keep listening us s) (
                (prune_urls keep listening us (remove_instance s u)).0,
                suc (prune_urls keep listening us (remove_instance s u)).1,
              )).0.instances
              k
            ≡ none
      split true q (inl r) x y z = absurd (ground (arith, ap (stays keep listening) r))
      split true q (inr j) x y z = x j
      split false q (inl r) x y z =
          z (ground (arith, get-delete s.instances u k, str_eq_iff u k, sym r))
      split false q (inr j) x y z = y j

-- Pruning drops exactly the credentials of consoles on this machine that nothing answers for, but for
-- the address that is kept: one that stays is as a normalized store holds it, any other is gone.
pub prune_dead_lem :
    (s : Store) (keep : Str) (listening : Str → Bool) (url : Str)
    → instance_at (prune_dead s keep (some listening)).0 url ≡ (
        if str_eq url keep || not (is_loopback_url url) || listening (strip_scheme url)
        then instance_at (normalize_store s) url
        else none)
unfolding prune_dead instance_at stays
prune_dead_lem s keep listening url = split (stays keep listening url) refl
  where
    n : Store
    n = normalize_store s

    missing :
        (o : Option (Option Instance))
        → get n.instances url ≡ o
        → stays keep listening url ≡ false
        → get (prune_urls keep listening (keys n.instances) n).0.instances url ≡ none
    missing none e f = prune_urls-gone keep listening (keys n.instances) n url e
    missing (some i) e f =
        prune_urls-drops keep listening (keys n.instances) n url f
          (get-In-keys n.instances url (ap is_some e))

    split :
        (b : Bool)
        → stays keep listening url ≡ b
        → flat (get (prune_urls keep listening (keys n.instances) n).0.instances url)
          ≡ (if b then flat (get n.instances url) else none)
    split true e = ap flat (prune_urls_keeps keep listening (keys n.instances) n url e)
    split false e = ap flat (missing (get n.instances url) refl e)
