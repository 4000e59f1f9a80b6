-- ===== src/ConsoleAccess/Bound.antt =====
-- internal/core/envtoken.go and auth.go: the credential of a call is one for the console it dials.
use w17ctl.Base.{
  Str, str_eq, str_eq_iff, Bool, true, false, Option, none, some, [], ◌∷◌, ◌≡◌, refl, sym, ap, ◌∙◌,
  ◌⊎◌, inl, inr, if◌then◌else◌, arith, In,
}
use w17ctl.Base.Assoc.{Map, get}
use w17ctl.Credentials.{Instance, Store, instance_at, flat}
use w17ctl.ConsoleAccess.{
  Net, Env, normalize_console_addr, same_console, env_bound, env_token_for, find_console,
  lookup_instance, instance_for, auth_token, or_else, token_in,
}

-- The store holds this login under an address of the console that `addr` names.
abbrev pub IsHeldFor : Net → Store → Str → Instance → Type 0
IsHeldFor net st addr i =
    (k : Str) × In (k, some i) st.instances
    × (normalize_console_addr net k ≡ normalize_console_addr net addr)

In-get :
    (m : Map (Option Instance)) (k : Str) (i : Instance)
    → flat (get m k) ≡ some i
    → In (k, some i) m
unfolding get
In-get [] k i h = cc
In-get ((j, v) ∷ m) k i h = split (str_eq j k) refl (In-get m k i) h
  where
    split :
        (b : Bool)
        → str_eq j k ≡ b
        → (flat (get m k) ≡ some i → In (k, some i) m)
        → flat (if b then some v else get m k) ≡ some i
        → In (k, some i) ((j, v) ∷ m)
    split true e rest q = inl (ground (arith, str_eq_iff j k))
    split false e rest q = inr (rest q)

find_console_sound :
    (net : Net) (m : Map (Option Instance)) (addr : Str) (i : Instance)
    → find_console net m addr ≡ some i
    → (k : Str) × In (k, some i) m
      × (normalize_console_addr net k ≡ normalize_console_addr net addr)
unfolding find_console same_console
find_console_sound net [] addr i h = cc
find_console_sound net ((k, none) ∷ m) addr i h =
    let (j, there, e) = find_console_sound net m addr i h in (j, inr there, e)
find_console_sound net ((k, some c) ∷ m) addr i h =
    split (same_console net k addr) refl (find_console_sound net m addr i) h
  where
    split :
        (b : Bool)
        → same_console net k addr ≡ b
        → (find_console net m addr ≡ some i
            → (j : Str) × In (j, some i) m
              × (normalize_console_addr net j ≡ normalize_console_addr net addr))
        → (if b then some c else find_console net m addr) ≡ some i
        → (j : Str) × In (j, some i) ((k, some c) ∷ m)
          × (normalize_console_addr net j ≡ normalize_console_addr net addr)
    split true e rest q = (
      k,
      inl (ap (λ o. (k, o)) (sym q)),
      (str_eq_iff (normalize_console_addr net k) (normalize_console_addr net addr)).0 e,
    )
    split false e rest q = let (j, there, p) = rest q in (j, inr there, p)

lookup_instance-IsHeldFor :
    (net : Net) (st : Store) (addr : Str) (i : Instance)
    → str_eq addr [] ≡ false
    → lookup_instance net st addr ≡ some i
    → IsHeldFor net st addr i
unfolding lookup_instance instance_at
lookup_instance-IsHeldFor net st addr i n h =
    split (flat (get st.instances addr)) refl (ground arith)
  where
    split :
        (o : Option Instance)
        → flat (get st.instances addr) ≡ o
        → or_else o (find_console net st.instances addr) ≡ some i
        → IsHeldFor net st addr i
    split (some c) e h = (addr, In-get st.instances addr i (e ∙ h), refl)
    split none e h = find_console_sound net st.instances addr i h

env_token_for-cases :
    (net : Net) (env : Env) (addr : Str)
    → (env_token_for net env addr ≡ [])
      ⊎ ((env_token_for net env addr ≡ env.token)
          × (str_eq (env_bound env) [] ≡ false)
          × (normalize_console_addr net addr ≡ normalize_console_addr net (env_bound env)))
unfolding env_token_for same_console
env_token_for-cases net env addr = ground (
  arith,
  str_eq_iff (normalize_console_addr net addr) (normalize_console_addr net (env_bound env)),
)

-- A call to a named console carries a token only where it is one for that console: the environment's,
-- when the address it is bound to and the dialed one name one console, or else the token of a login
-- that the store holds under an address of that console.
pub auth_token-IsBound :
    (net : Net) (env : Env) (st : Store) (addr t : Str)
    → str_eq addr [] ≡ false
    → str_eq t [] ≡ false
    → auth_token net env (some st) addr ≡ t
    → ((t ≡ env.token)
        × (str_eq (env_bound env) [] ≡ false)
        × (normalize_console_addr net addr ≡ normalize_console_addr net (env_bound env)))
      ⊎ ((i : Instance) × (t ≡ i.token) × IsHeldFor net st addr i)
unfolding auth_token instance_for
auth_token-IsBound net env st addr t named some_token h = split (env_token_for-cases net env addr)
  where
    stored :
        (o : Option Instance)
        → lookup_instance net st addr ≡ o
        → token_in o ≡ t
        → (i : Instance) × (t ≡ i.token) × IsHeldFor net st addr i
    stored none e q = absurd (ground (arith, str_eq_iff t []))
    stored (some i) e q = (i, sym q, lookup_instance-IsHeldFor net st addr i named e)

    split :
        (env_token_for net env addr ≡ [])
          ⊎ ((env_token_for net env addr ≡ env.token)
              × (str_eq (env_bound env) [] ≡ false)
              × (normalize_console_addr net addr ≡ normalize_console_addr net (env_bound env)))
        → ((t ≡ env.token)
            × (str_eq (env_bound env) [] ≡ false)
            × (normalize_console_addr net addr ≡ normalize_console_addr net (env_bound env)))
          ⊎ ((i : Instance) × (t ≡ i.token) × IsHeldFor net st addr i)
    split (inl e) = inr (
        stored (lookup_instance net st addr) refl
          (ground (arith, str_eq_iff (env_token_for net env addr) [])))
    split (inr (e, b, c)) = own (str_eq (env_token_for net env addr) []) refl h
      where
        own :
            (z : Bool)
            → str_eq (env_token_for net env addr) [] ≡ z
            → (if z then token_in (lookup_instance net st addr) else env_token_for net env addr) ≡ t
            → ((t ≡ env.token)
                × (str_eq (env_bound env) [] ≡ false)
                × (normalize_console_addr net addr ≡ normalize_console_addr net (env_bound env)))
              ⊎ ((i : Instance) × (t ≡ i.token) × IsHeldFor net st addr i)
        own true z q = inr (stored (lookup_instance net st addr) refl q)
        own false z q = inl (sym q ∙ e, b, c)
