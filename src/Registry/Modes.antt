-- ===== src/Registry/Modes.antt =====
-- internal/devconfig/remote.go: the execution mode, the bind host, and the remote that a project
-- resolves to.
use w17ctl.Base.{
  Str, codes, str_eq, str_eq_iff, Option, none, some, [], ◌≡◌, ◌≢◌, if◌then◌else◌, arith,
}
use w17ctl.Base.Assoc.{get}
use w17ctl.Registry.{Project, Config, Remote}
use w17ctl.Registry.Lookup.{find_by_path}

pub data Mode : Type 0 where
  local remote : Mode

pub data Bind : Type 0 where
  loopback public : Bind

pub data BindError : Type 0 where
  invalid_bind : Str → BindError

pub data Checked (E A : Type 0) : Type 0 where
  ok : A → Checked E A
  err : E → Checked E A

-- `ParseBind`
unfoldable pub parse_bind : Str → Checked BindError Bind
parse_bind s =
    if str_eq s []
    then ok loopback
    else if str_eq s (codes "loopback")
    then ok loopback
    else if str_eq s (codes "public")
    then ok public
    else err (invalid_bind s)

abbrev pub host_loopback : Str
host_loopback = codes "127.0.0.1"

abbrev pub host_public : Str
host_public = codes "0.0.0.0"

-- `BindHost`
unfoldable pub bind_host : Str → Str
bind_host bind = if str_eq bind (codes "public") then host_public else host_loopback

abbrev default_host : Mode → Str
default_host remote = host_loopback
default_host local = host_public

-- `ResolveBindHost`
unfoldable pub resolve_bind_host : Mode → Str → Str
resolve_bind_host mode bind =
    if str_eq bind (codes "public")
    then host_public
    else if str_eq bind (codes "loopback")
    then host_loopback
    else default_host mode

-- `ParseMode`; the unset mode is `none`.
pub data ModeError : Type 0 where
  invalid_mode : Str → ModeError

unfoldable pub parse_mode : Str → Checked ModeError (Option Mode)
parse_mode s =
    if str_eq s []
    then ok none
    else if str_eq s (codes "local")
    then ok (some local)
    else if str_eq s (codes "remote")
    then ok (some remote)
    else err (invalid_mode s)

-- Which of the sources an error is about.
pub data Source : Type 0 where
  flag pinned default : Source

-- One source: a mode that is set decides, an invalid one is an error, an unset one passes on.
or_else :
    Source
    → Checked ModeError (Option Mode)
    → Checked (Source × ModeError) Mode
    → Checked (Source × ModeError) Mode
or_else s (ok (some m)) next = ok m
or_else s (ok none) next = next
or_else s (err e) next = err (s, e)

abbrev pub pinned_mode : Option (Str × Project) → Str
pinned_mode none = []
pinned_mode (some (n, p)) = p.mode

-- `ResolveMode(absPath, flag)`; a directory that is not registered has no pin, which parses as unset.
unfoldable pub resolve_mode : Config → Str → Str → Checked (Source × ModeError) Mode
unfolding or_else
resolve_mode c abs value = or_else flag (parse_mode value) (
    or_else pinned (parse_mode (pinned_mode (find_by_path c abs)))
      (or_else default (parse_mode c.default_mode) (ok local)))

-- The first source that is set, from the flag to the default.
abbrev pub first_set : Str → Str → Str → Str
first_set a b d = if str_eq a [] then (if str_eq b [] then d else b) else a

-- What one value says: unset is local.
abbrev pub meaning : Checked ModeError (Option Mode) → Option Mode
meaning (ok none) = some local
meaning (ok (some m)) = some m
meaning (err e) = none

abbrev pub result_of : Checked (Source × ModeError) Mode → Option Mode
result_of (ok m) = some m
result_of (err e) = none

-- The mode is that of the first source that is set - the flag, the pin of the project found at the
-- path, the default - and local where none is. An invalid value there is an error, and a source
-- behind the deciding one is not looked at.
pub resolve_mode_lem :
    (c : Config) (abs value : Str)
    → result_of (resolve_mode c abs value)
      ≡ meaning (parse_mode (first_set value (pinned_mode (find_by_path c abs)) c.default_mode))
unfolding resolve_mode parse_mode
resolve_mode_lem c abs value = ground arith

-- In remote mode every bind but `public` resolves to the loopback interface, also an empty one; and in
-- either mode a bind that is set to a valid value resolves to what `BindHost` gives.
pub resolve_bind_host_lem :
    (mode : Mode) (bind : Str)
    → (resolve_bind_host remote [] ≡ host_loopback)
      × (bind ≢ codes "public" → resolve_bind_host remote bind ≡ host_loopback)
      × (bind ≢ []
          → parse_bind bind ≢ err (invalid_bind bind)
          → resolve_bind_host mode bind ≡ bind_host bind)
unfolding resolve_bind_host bind_host parse_bind
resolve_bind_host_lem mode bind = (
  ground (arith, str_eq_iff [] (codes "public")),
  λ h. ground (arith, str_eq_iff bind (codes "public")),
  λ h k. ground (arith, str_eq_iff bind []),
)

pub data RemoteError : Type 0 where
  no_remote : RemoteError
  unknown_remote : Str → RemoteError

abbrev pinned_remote : Option (Str × Project) → Str
pinned_remote none = []
pinned_remote (some (n, p)) = p.remote

abbrev look_up : Str → Option Remote → Checked RemoteError (Str × Remote)
look_up name none = err (unknown_remote name)
look_up name (some r) = ok (name, r)

-- `ResolveRemote(absPath, flag)`
unfoldable pub resolve_remote : Config → Str → Str → Checked RemoteError (Str × Remote)
resolve_remote c abs value =
    let pin = if str_eq value [] then pinned_remote (find_by_path c abs) else value in
    let name = if str_eq pin [] then c.default_remote else pin in
    if str_eq name [] then err no_remote else look_up name (get c.remotes name)
