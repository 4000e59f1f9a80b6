-- ===== src/Registry/Presets.antt =====
-- internal/devconfig/devconfig.go: the run presets of a project, `HasPreset` to `ClearActivePreset`.
use w17ctl.Base.{
  Str, str_eq, str_eq_iff, Bool, true, false, none, [], ◌≡◌, refl, ◌≢◌, ◌⊎◌, inl, if◌then◌else◌,
  is_some, arith,
}
use w17ctl.Base.Assoc.{get, put, delete, get-put, get-delete}
use w17ctl.Registry.{Preset, Project}

unfoldable pub has_preset : Project → Str → Bool
has_preset p name = is_some (get p.presets name)

unfoldable pub set_preset : Project → Str → Preset → Project
set_preset p name preset = record p { presets = put p.presets name preset }

unfoldable pub delete_preset : Project → Str → Project × Bool
unfolding has_preset
delete_preset p name =
    let q = record p { presets = delete p.presets name } in
    if has_preset p name
    then (if str_eq p.active_preset name then record q { active_preset = [] } else q, true)
    else (p, false)

unfoldable pub activate : Project → Str → Project × Bool
unfolding has_preset
activate p name =
    if has_preset p name then (record p { active_preset = name }, true) else (p, false)

unfoldable pub clear_active_preset : Project → Project
clear_active_preset p = record p { active_preset = [] }

-- The active preset is one that exists, or none is active.
abbrev pub IsActivePresetKnown : Project → Type 0
IsActivePresetKnown p = (p.active_preset ≡ []) ⊎ (is_some (get p.presets p.active_preset) ≡ true)

-- What a person can ask of a project's presets.
pub data PresetOp : Type 0 where
  set_op : Str → Preset → PresetOp
  delete_op : Str → PresetOp
  activate_op : Str → PresetOp
  clear_op : PresetOp

unfoldable pub run_preset_op : Project → PresetOp → Project
unfolding set_preset delete_preset activate clear_active_preset
run_preset_op p (set_op name preset) = set_preset p name preset
run_preset_op p (delete_op name) = (delete_preset p name).0
run_preset_op p (activate_op name) = (activate p name).0
run_preset_op p clear_op = clear_active_preset p

-- Setting, deleting, activating and clearing presets never leaves a project with an active preset
-- that does not exist.
pub run_preset_op-IsActivePresetKnown :
    (p : Project) (op : PresetOp) → IsActivePresetKnown p → IsActivePresetKnown (run_preset_op p op)
unfolding run_preset_op
run_preset_op-IsActivePresetKnown p (set_op name preset) h =
    ground (arith, get-put p.presets name p.active_preset preset)
run_preset_op-IsActivePresetKnown p (delete_op name) h = ground (
  arith,
  get-delete p.presets name p.active_preset,
  str_eq_iff p.active_preset name,
  str_eq_iff name p.active_preset,
)
run_preset_op-IsActivePresetKnown p (activate_op name) h = ground arith
run_preset_op-IsActivePresetKnown p clear_op h = inl refl

-- Deleting a preset: it answers whether the preset was there; when it was, exactly that preset is
-- gone and it is not active any more; when it was not, nothing changes.
pub delete_preset_lem :
    (p : Project) (name : Str)
    → ((delete_preset p name).1 ≡ has_preset p name)
      × ((j : Str)
          → get (delete_preset p name).0.presets j
            ≡ (if str_eq name j then none else get p.presets j))
      × (has_preset p name ≡ false → (delete_preset p name).0 ≡ p)
      × (has_preset p name ≡ true → name ≢ [] → (delete_preset p name).0.active_preset ≢ name)
unfolding delete_preset
delete_preset_lem p name = (
  ground arith,
  λ j. ground (arith, get-delete p.presets name j, str_eq_iff name j),
  λ h. ground arith,
  λ h ne e. ground (arith, str_eq_iff p.active_preset name),
)
