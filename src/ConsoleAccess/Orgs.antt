-- ===== src/ConsoleAccess/Orgs.antt =====
-- internal/core/orgresolve.go: a call under a lock acts in the lock's organization, or is not sent.
use w17ctl.Base.{
  Str, str_eq, str_eq_iff, str_eq_self, Bool, true, false, not, Option, none, some, List, [], ◌∷◌,
  ◌≡◌, refl, ap, ◌⊎◌, inl, inr, if◌then◌else◌, arith, In,
}
use w17ctl.Base.Assoc.{Map, get, put, get-put}
use w17ctl.Credentials.{Org, Instance, Store}
use w17ctl.ConsoleAccess.{Net, Env, auth_token, instance_for, org_slug_for, slug_of}
use w17ctl.ConsoleAccess.Request.{
  Answer, Refusal, Listing, LockOrg, Named, attempt, is_passing, list_orgs_at, list_orgs_once,
  listing_key, for_console, answered, listed, judged, member, slug_in, cached, of_lock,
  org_slug_for_request,
}

slug_of_sound :
    (os : List (Option Org)) (id s : Str)
    → slug_of os id ≡ some s
    → (o : Org) × In (some o) os × (o.id ≡ id) × (o.slug ≡ s)
unfolding slug_of
slug_of_sound [] id s h = cc
slug_of_sound (none ∷ os) id s h = let (o, i, e, f) = slug_of_sound os id s h in (o, inr i, e, f)
slug_of_sound (some c ∷ os) id s h = split (str_eq c.id id) refl (slug_of_sound os id s) h
  where
    split :
        (b : Bool)
        → str_eq c.id id ≡ b
        → (slug_of os id ≡ some s → (o : Org) × In (some o) os × (o.id ≡ id) × (o.slug ≡ s))
        → (if b then some c.slug else slug_of os id) ≡ some s
        → (o : Org) × In (some o) (some c ∷ os) × (o.id ≡ id) × (o.slug ≡ s)
    split true e rest q = (c, inl refl, (str_eq_iff c.id id).0 e, ground arith)
    split false e rest q = let (o, i, p, f) = rest q in (o, inr i, p, f)

slug_in_sound :
    (os : List Org) (id s : Str)
    → slug_in os id ≡ some s
    → (o : Org) × In o os × (o.id ≡ id) × (o.slug ≡ s)
unfolding slug_in
slug_in_sound [] id s h = cc
slug_in_sound (c ∷ os) id s h = split (str_eq c.id id) refl (slug_in_sound os id s) h
  where
    split :
        (b : Bool)
        → str_eq c.id id ≡ b
        → (slug_in os id ≡ some s → (o : Org) × In o os × (o.id ≡ id) × (o.slug ≡ s))
        → (if b then some c.slug else slug_in os id) ≡ some s
        → (o : Org) × In o (c ∷ os) × (o.id ≡ id) × (o.slug ≡ s)
    split true e rest q = (c, inl refl, (str_eq_iff c.id id).0 e, ground arith)
    split false e rest q = let (o, i, p, f) = rest q in (o, inr i, p, f)

slug_in-none :
    (os : List Org) (id : Str) → slug_in os id ≡ none → (o : Org) → In o os → o.id ≡ id → ⊥
unfolding slug_in
slug_in-none [] id h o i e = absurd i
slug_in-none (c ∷ os) id h o i e = split (str_eq c.id id) refl (slug_in-none os id) h i
  where
    split :
        (b : Bool)
        → str_eq c.id id ≡ b
        → (slug_in os id ≡ none → (o : Org) → In o os → o.id ≡ id → ⊥)
        → (if b then some c.slug else slug_in os id) ≡ none
        → In o (c ∷ os)
        → ⊥
    split true f rest q j = cc
    split false f rest q (inl r) = ground (arith, str_eq_iff c.id id, ap (λ (z : Org). z.id) r)
    split false f rest q (inr j) = rest q o j e

abbrev pub orgs_of : Option Instance → List (Option Org)
orgs_of none = []
orgs_of (some i) = i.orgs

cached_sound :
    (o : Option Instance) (id s : Str)
    → cached o id ≡ some s
    → (c : Org) × In (some c) (orgs_of o) × (c.id ≡ id) × (c.slug ≡ s)
cached_sound none id s h = cc
cached_sound (some i) id s h = slug_of_sound i.orgs id s h

-- What may be named for an organization: an organization of that identity from the login's own record
-- or from the console's list; none without a token; nothing is sent otherwise, and then, unless the
-- console failed, it lists no such organization.
abbrev pub IsOfLock : List (Option Org) → List Org → Str → Str → Named → Type 0
IsOfLock known listed token id (Named.slug s) =
    ((o : Org) × In (some o) known × (o.id ≡ id) × (o.slug ≡ s))
    ⊎ ((o : Org) × In o listed × (o.id ≡ id) × (o.slug ≡ s))
    ⊎ (s ≡ []) × (token ≡ [])
IsOfLock known listed token id (Named.listing_failed e) = str_eq token [] ≡ false
IsOfLock known listed token id Named.not_member =
    (str_eq token [] ≡ false) × ((o : Org) → In o listed → o.id ≡ id → ⊥)

answered-IsOfLock :
    (l : Listing) (known : List (Option Org)) (token id : Str)
    → str_eq token [] ≡ false
    → IsOfLock known l.orgs token id (answered l id)
unfolding answered listed
answered-IsOfLock l known token id t = errors l.error l.key_refused
  where
    found : (o : Option Str) → slug_in l.orgs id ≡ o → IsOfLock known l.orgs token id (member o)
    found none e = (t, slug_in-none l.orgs id e)
    found (some s) e = inr (inl (slug_in_sound l.orgs id s e))

    errors :
        (e : Option Refusal) (b : Bool)
        → IsOfLock known l.orgs token id (judged e b (member (slug_in l.orgs id)))
    errors none b = found (slug_in l.orgs id) refl
    errors (some e) true = found (slug_in l.orgs id) refl
    errors (some e) false = t

module _ (net : Net) (env : Env) (st : Option Store) (ask : Str → Str → Answer)
    (listings : Map Listing) (lo : LockOrg) (addr : Str) where
  -- With no organization fixed, under a lock that names an organization of the dialed console, a call
  -- names only an organization of the lock's identity, from the login's record or from the console's
  -- list; or it names none, having no token; or nothing is sent, and then, unless asking the console
  -- failed, the list holds no organization of that identity.
  pub org_slug_for_request-IsOfLock :
      str_eq lo.id [] ≡ false
      → for_console net lo addr ≡ true
      → IsOfLock
          (orgs_of (instance_for net st addr))
          (list_orgs_once net (ask (auth_token net env st addr)) listings addr lo.slug).1.orgs
          (auth_token net env st addr)
          lo.id
          (org_slug_for_request net env st ask listings none lo addr).1
  unfolding org_slug_for_request of_lock
  org_slug_for_request-IsOfLock stamped here =
      named (str_eq lo.id []) stamped (remembered (cached (instance_for net st addr) lo.id) refl)
    where
      token : Str
      token = auth_token net env st addr

      l : Listing
      l = (list_orgs_once net (ask token) listings addr lo.slug).1

      known : List (Option Org)
      known = orgs_of (instance_for net st addr)

      asked :
          (b c : Bool)
          → str_eq token [] ≡ b
          → c ≡ true
          → IsOfLock known l.orgs token lo.id
              (if◌then◌else◌ {A = Map Listing × Named}
                (not c)
                (listings, Named.slug (org_slug_for net st addr))
                (if b then (listings, Named.slug []) else (
                  (list_orgs_once net (ask token) listings addr lo.slug).0,
                  answered l lo.id,
                ))).1
      asked b false e h = cc
      asked true true e h = inr (inr (refl, (str_eq_iff token []).0 e))
      asked false true e h = answered-IsOfLock l known token lo.id e

      remembered :
          (o : Option Str)
          → cached (instance_for net st addr) lo.id ≡ o
          → IsOfLock known l.orgs token lo.id (of_lock o net env st ask listings lo addr).1
      remembered none e = asked (str_eq token []) (for_console net lo addr) refl here
      remembered (some s) e = inl (cached_sound (instance_for net st addr) lo.id s e)

      named :
          (b : Bool)
          → b ≡ false
          → IsOfLock known l.orgs token lo.id
              (of_lock (cached (instance_for net st addr) lo.id) net env st ask listings lo addr).1
          → IsOfLock known l.orgs token lo.id
              (if◌then◌else◌ {A = Map Listing × Named} b
                (listings, Named.slug (org_slug_for net st addr))
                (of_lock
                  (cached (instance_for net st addr) lo.id)
                  net
                  env
                  st
                  ask
                  listings
                  lo
                  addr)).1
      named true h x = cc
      named false h x = x

-- A process asks a console for the account's organizations once: after an answer that was no failure of
-- the transport, a second call gives the same listing and changes nothing, whatever the console would
-- answer now.
pub list_orgs_once_again :
    (net : Net) (ask now : Str → Answer) (listings : Map Listing) (addr key_slug : Str)
    → is_passing (list_orgs_once net ask listings addr key_slug).1.error ≡ false
    → list_orgs_once net now (list_orgs_once net ask listings addr key_slug).0 addr key_slug
      ≡ list_orgs_once net ask listings addr key_slug
unfolding list_orgs_once list_orgs_at
list_orgs_once_again net ask now listings addr key_slug =
    split (get listings (listing_key net addr key_slug)) refl
  where
    k : Str
    k = listing_key net addr key_slug

    l : Listing
    l = attempt ask key_slug

    at :
        (m : Map Listing) (x : Listing)
        → get m k ≡ some x
        → list_orgs_at (get m k) now m k key_slug ≡ (m, x)
    at m x e = ap (λ o. list_orgs_at o now m k key_slug) e

    kept :
        (b : Bool)
        → is_passing l.error ≡ b
        → is_passing
            (if◌then◌else◌ {A = Map Listing × Listing} b
              (listings, l)
              (put listings k l, l)).1.error
          ≡ false
        → list_orgs_at
            (get
              (if◌then◌else◌ {A = Map Listing × Listing} b (listings, l) (put listings k l, l)).0
              k)
            now
            (if◌then◌else◌ {A = Map Listing × Listing} b (listings, l) (put listings k l, l)).0
            k
            key_slug
          ≡ if◌then◌else◌ {A = Map Listing × Listing} b (listings, l) (put listings k l, l)
    kept true e h = cc
    kept false e h = at (put listings k l) l (ground (arith, get-put listings k k l, str_eq_self k))

    split :
        (o : Option Listing)
        → get listings k ≡ o
        → is_passing (list_orgs_at o ask listings k key_slug).1.error ≡ false
        → list_orgs_at
            (get (list_orgs_at o ask listings k key_slug).0 k)
            now
            (list_orgs_at o ask listings k key_slug).0
            k
            key_slug
          ≡ list_orgs_at o ask listings k key_slug
    split (some x) e h = at listings x e
    split none e h = kept (is_passing l.error) refl h
