-- ===== src/Credentials/Default.antt =====
-- internal/authstore/authstore.go: the default instance is always one that is stored.
use w17ctl.Base.{
  ℕ, suc, Str, str_eq, str_eq_iff, Bool, true, false, Option, none, some, List, [], ◌∷◌, ◌≡◌, refl,
  ◌⊎◌, inl, inr, if◌then◌else◌, is_some, arith,
}
use w17ctl.Base.Assoc.{Map, get, put, keys, get-put, get-delete}
use w17ctl.Credentials.{
  Instance, Store, flat, instance_at, fill, normalize_store, set_instance, remove_instance,
  set_default_instance, stays, prune_urls, prune_dead,
}

-- No default, or one with a credential.
abbrev pub IsDefaultKnown : Store → Type 0
IsDefaultKnown s = (s.default_instance ≡ []) ⊎ (is_some (instance_at s s.default_instance) ≡ true)

pub data StoreOp : Type 0 where
  set_op : Option Instance → StoreOp
  remove_op : Str → StoreOp
  default_op : Str → StoreOp
  prune_op : Str → Option (Str → Bool) → StoreOp

unfoldable pub run_store_op : Store → StoreOp → Store
unfolding set_instance remove_instance set_default_instance prune_dead
run_store_op s (set_op i) = set_instance s i
run_store_op s (remove_op url) = remove_instance s url
run_store_op s (default_op url) = (set_default_instance s url).0
run_store_op s (prune_op keep listening) = (prune_dead s keep listening).0

fill-some :
    (m : Map (Option Instance)) (k : Str)
    → is_some (flat (get m k)) ≡ true
    → is_some (flat (get (fill m) k)) ≡ true
unfolding fill get
fill-some [] k e = e
fill-some ((j, none) ∷ m) k e = ground (arith, fill-some m k)
fill-some ((j, some i) ∷ m) k e = ground (arith, fill-some m k)

normalize_store-IsDefaultKnown : (s : Store) → IsDefaultKnown s → IsDefaultKnown (normalize_store s)
unfolding normalize_store instance_at
normalize_store-IsDefaultKnown s (inl e) = inl e
normalize_store-IsDefaultKnown s (inr e) = inr (fill-some s.instances s.default_instance e)

remove_instance-IsDefaultKnown :
    (s : Store) (url : Str) → IsDefaultKnown s → IsDefaultKnown (remove_instance s url)
unfolding remove_instance instance_at
remove_instance-IsDefaultKnown s url h = ground (
  arith,
  str_eq_iff s.default_instance url,
  str_eq_iff url s.default_instance,
  get-delete s.instances url s.default_instance,
)

set_some-IsDefaultKnown :
    (n : Store) (i : Instance)
    → IsDefaultKnown n
    → IsDefaultKnown (record n {
      instances = put n.instances i.url (some i);
      default_instance = if str_eq n.default_instance [] then i.url else n.default_instance;
    })
unfolding instance_at
set_some-IsDefaultKnown n i h = ground (
  arith,
  str_eq_iff n.default_instance [],
  get-put n.instances i.url i.url (some i),
  get-put n.instances i.url n.default_instance (some i),
  str_eq_iff i.url i.url,
)

set_instance-IsDefaultKnown :
    (s : Store) (o : Option Instance) → IsDefaultKnown s → IsDefaultKnown (set_instance s o)
unfolding set_instance
set_instance-IsDefaultKnown s none h = h
set_instance-IsDefaultKnown s (some i) h =
    split (str_eq i.url [])
      (set_some-IsDefaultKnown (normalize_store s) i (normalize_store-IsDefaultKnown s h))
  where
    n : Store
    n = normalize_store s

    changed : Store
    changed = record n {
      instances = put n.instances i.url (some i);
      default_instance = if str_eq n.default_instance [] then i.url else n.default_instance;
    }

    split : (b : Bool) → IsDefaultKnown changed → IsDefaultKnown (if b then s else changed)
    split true x = h
    split false x = x

set_default-IsDefaultKnown :
    (s : Store) (url : Str) → IsDefaultKnown s → IsDefaultKnown (set_default_instance s url).0
unfolding set_default_instance instance_at
set_default-IsDefaultKnown s url h = split (is_some (flat (get s.instances url))) refl
  where
    split :
        (b : Bool)
        → is_some (flat (get s.instances url)) ≡ b
        → IsDefaultKnown
            (if◌then◌else◌ {A = Store × Bool} b
              (record s { default_instance = url }, true)
              (s, false)).0
    split true e = inr e
    split false e = h

prune_urls-IsDefaultKnown :
    (keep : Str) (listening : Str → Bool) (us : List Str) (s : Store)
    → IsDefaultKnown s
    → IsDefaultKnown (prune_urls keep listening us s).0
unfolding prune_urls
prune_urls-IsDefaultKnown keep listening [] s h = h
prune_urls-IsDefaultKnown keep listening (u ∷ us) s h =
    split (stays keep listening u) (prune_urls-IsDefaultKnown keep listening us s h) (
      prune_urls-IsDefaultKnown keep listening us (remove_instance s u)
        (remove_instance-IsDefaultKnown s u h))
  where
    split :
        (b : Bool)
        → IsDefaultKnown (prune_urls keep listening us s).0
        → IsDefaultKnown (prune_urls keep listening us (remove_instance s u)).0
        → IsDefaultKnown
            (if◌then◌else◌ {A = Store × ℕ} b (prune_urls keep listening us s) (
              (prune_urls keep listening us (remove_instance s u)).0,
              suc (prune_urls keep listening us (remove_instance s u)).1,
            )).0
    split true x y = x
    split false x y = y

-- Logging in, logging out, choosing a default and pruning never leave a default console without a
-- stored credential.
pub run_store_op-IsDefaultKnown :
    (s : Store) (op : StoreOp) → IsDefaultKnown s → IsDefaultKnown (run_store_op s op)
unfolding run_store_op prune_dead
run_store_op-IsDefaultKnown s (set_op i) h = set_instance-IsDefaultKnown s i h
run_store_op-IsDefaultKnown s (remove_op url) h = remove_instance-IsDefaultKnown s url h
run_store_op-IsDefaultKnown s (default_op url) h = set_default-IsDefaultKnown s url h
run_store_op-IsDefaultKnown s (prune_op keep none) h = h
run_store_op-IsDefaultKnown s (prune_op keep (some listening)) h =
    prune_urls-IsDefaultKnown keep listening (keys (normalize_store s).instances)
      (normalize_store s) (normalize_store-IsDefaultKnown s h)
