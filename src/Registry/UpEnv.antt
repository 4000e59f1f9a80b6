-- ===== src/Registry/UpEnv.antt =====
-- internal/devconfig/runspec.go: the environment that a compose process is given.
use w17ctl.Base.{
  Str, str_compare, ℤ, itoa, Option, none, some, List, [], ◌∷◌, ◌++◌, ◌≡◌, refl, inl, inr,
  if◌then◌else◌, is_some, In, arith,
}
use w17ctl.Base.Assoc.{Map, get, put, keys, get-put, get-In-keys}
use w17ctl.Base.Sort.{sort_strings, sort-In}
use w17ctl.Registry.{Project, Preset}

-- the ports as texts
printed : Map ℤ → Map Str
printed [] = []
printed ((k, v) ∷ m) = (k, itoa v) ∷ printed m

-- `for k, v := range preset.Env { merged[k] = v }`
layer : Map Str → Map Str → Map Str
layer merged [] = merged
layer merged ((k, v) ∷ env) = put (layer merged env) k v

abbrev overlay : Map Str → Option Preset → Map Str
overlay merged none = merged
overlay merged (some preset) = layer merged preset.env

-- the map `merged`
unfoldable pub merged_env : Project → Option Preset → Map Str
unfolding printed layer
merged_env p preset = overlay (printed p.ports) preset

abbrev value_of : Option Str → Str
value_of none = []
value_of (some v) = v

env_lines : Map Str → List Str → List Str
env_lines m [] = []
env_lines m (k ∷ ks) = (k ++ b'=' ∷ value_of (get m k)) ∷ env_lines m ks

-- `BuildUpEnv`
unfoldable pub build_up_env : Project → Option Preset → List Str
unfolding env_lines
build_up_env p preset = let m = merged_env p preset in env_lines m (sort_strings (keys m))

abbrev services_of : Option Preset → List Str
services_of none = []
services_of (some preset) = preset.services

-- `PresetServices`; the empty list is the whole stack.
unfoldable pub preset_services : List Str → Option Preset → List Str
preset_services [] preset = services_of preset
preset_services (s ∷ ss) preset = s ∷ ss

get-printed : (m : Map ℤ) (k : Str) (v : ℤ) → get m k ≡ some v → get (printed m) k ≡ some (itoa v)
unfolding printed get
get-printed [] k v h = cc
get-printed ((j, w) ∷ m) k v h = ground (arith, get-printed m k v)

get-layer :
    (merged env : Map Str) (k : Str)
    → get (layer merged env) k ≡ (if is_some (get env k) then get env k else get merged k)
unfolding layer get
get-layer merged [] k = refl
get-layer merged ((j, w) ∷ env) k =
    ground (arith, get-put (layer merged env) j k w, get-layer merged env k)

In-env_lines :
    (m : Map Str) (ks : List Str) (k v : Str)
    → In k ks
    → get m k ≡ some v
    → In (k ++ b'=' ∷ v) (env_lines m ks)
unfolding env_lines
In-env_lines m [] k v i h = absurd i
In-env_lines m (j ∷ ks) k v (inl e) h = inl (rw (← e, h))
In-env_lines m (j ∷ ks) k v (inr i) h = inr (In-env_lines m ks k v i h)

built :
    (p : Project) (preset : Option Preset) (k v : Str)
    → get (merged_env p preset) k ≡ some v
    → In (k ++ b'=' ∷ v) (build_up_env p preset)
unfolding build_up_env sort_strings
built p preset k v h =
    In-env_lines (merged_env p preset) _ k v
      (sort-In str_compare k (keys (merged_env p preset))
        (get-In-keys (merged_env p preset) k (rw h)))
      h

-- The environment of a preset is given as it stands; a managed port that the preset does not
-- override is given its number.
pub build_up_env_lem :
    (p : Project) (preset : Preset) (k : Str)
    → ((v : Str) → get preset.env k ≡ some v → In (k ++ b'=' ∷ v) (build_up_env p (some preset)))
      × ((n : ℤ)
          → get preset.env k ≡ none
          → get p.ports k ≡ some n
          → In (k ++ b'=' ∷ itoa n) (build_up_env p (some preset)))
unfolding merged_env
build_up_env_lem p preset k = (
  λ v h. built p (some preset) k v (ground (arith, get-layer (printed p.ports) preset.env k)),
  λ n h g.
      built p (some preset) k (itoa n)
        (ground (arith, get-layer (printed p.ports) preset.env k, get-printed p.ports k n)),
)
