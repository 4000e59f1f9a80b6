-- ===== src/Tunnel.antt =====
-- internal/tunnel: the forwards of a project (tunnel.go) and the record of its running ssh child
-- (state.go). The world is the record's file and the children that run; what the operating system and
-- the launch answer are parameters.
mod Tests
pub mod Forwards
pub mod Tracked
pub mod Lock
use w17ctl.Base.{
  ℕ, zero, suc, Str, ℤ, pos, negsuc, int_eq, int_compare, itoa, codes, Ordering, Bool, true, false,
  not, ◌||◌, ◌&&◌, Option, none, some, List, [], ◌∷◌, ◌++◌, is_nil, if◌then◌else◌,
}
use w17ctl.Base.Sort.{sort}
use w17ctl.Transport.{Dest, ssh_port_args}

pub record Forward : Type 0 where
  pub local_port : ℤ
  pub remote_port : ℤ

-- `Forward.Spec`
unfoldable pub forward_spec : Forward → Str
forward_spec f = itoa f.local_port ++ codes ":127.0.0.1:" ++ itoa f.remote_port

-- `byLocal[f.LocalPort] = f`, with the zero port skipped
unfoldable pub put_forward : Forward → List Forward → List Forward
put_forward f [] = f ∷ []
put_forward f (g ∷ gs) =
    let rest = put_forward f gs in if int_eq g.local_port f.local_port then f ∷ gs else g ∷ rest

unfoldable pub add_forward : Forward → List Forward → List Forward
unfolding put_forward
add_forward f by_local = if int_eq f.local_port (pos 0) then by_local else put_forward f by_local

abbrev pub same_port : ℤ → Forward
same_port p = record { local_port = p; remote_port = p }

-- the loop over the ports, and the one over the extra forwards
unfoldable pub add_ports : List ℤ → List Forward → List Forward
unfolding add_forward
add_ports [] by_local = by_local
add_ports (p ∷ ps) by_local = add_ports ps (add_forward (same_port p) by_local)

unfoldable pub add_extra : List Forward → List Forward → List Forward
unfolding add_forward
add_extra [] by_local = by_local
add_extra (f ∷ fs) by_local = add_extra fs (add_forward f by_local)

abbrev pub by_port : Forward → Forward → Ordering
by_port f g = int_compare f.local_port g.local_port

-- `ForwardsFromPorts(ports, extra...)`, on the values of the port map
unfoldable pub forwards_from_ports : List ℤ → List Forward → List Forward
unfolding add_ports add_extra
forwards_from_ports ports extra = sort by_port (add_extra extra (add_ports ports []))

unfoldable pub forward_args : List Forward → List Str
unfolding forward_spec
forward_args [] = []
forward_args (f ∷ fs) = codes "-L" ∷ forward_spec f ∷ forward_args fs

-- `SSHArgs`
unfoldable pub ssh_args : Dest → List Forward → List Str
unfolding forward_args
ssh_args d fs =
    (codes "-N"
      ∷ codes "-o"
      ∷ codes "ExitOnForwardFailure=yes"
      ∷ codes "-o"
      ∷ codes "ServerAliveInterval=15"
      ∷ codes "-o"
      ∷ codes "ServerAliveCountMax=3"
      ∷ [])
    ++ ssh_port_args d
    ++ forward_args fs
    ++ d.target ∷ []

-- `State`
pub record State : Type 0 where
  pub pid : ℤ
  pub remote : Str
  pub forwards : List Forward

-- The record's file: missing, readable, or not to be read or parsed.
pub data Record : Type 0 where
  absent : Record
  saved : State → Record
  corrupt : Record

pub record World : Type 0 where
  pub file : Record
  pub live : List ℤ

-- Whether signalling a child ends it, removing the file works, and writing it works.
pub record Os : Type 0 where
  pub dies : ℤ → Bool
  pub removes : Bool
  pub writes : Bool

pub data TunnelError : Type 0 where
  unreadable unremovable not_opened unwritable : TunnelError

abbrev pub is_positive : ℤ → Bool
is_positive (pos zero) = false
is_positive (pos (suc n)) = true
is_positive (negsuc n) = false

unfoldable pub without : ℤ → List ℤ → List ℤ
without p [] = []
without p (q ∷ qs) = let rest = without p qs in if int_eq q p then rest else q ∷ rest

-- `KillPID`
unfoldable pub kill_pid : Os → ℤ → List ℤ → List ℤ
unfolding without
kill_pid os p live = if is_positive p && os.dies p then without p live else live

abbrev pub Step : Type 0
Step = Option TunnelError × World

-- `removeStateAt`, once a child is signalled
unfoldable pub remove_record : Os → World → List ℤ → Step
remove_record os w live =
    if os.removes
    then (none, record { file = absent; live = live })
    else (some unremovable, record { file = w.file; live = live })

unfoldable pub close_file : Os → World → Record → Step
unfolding kill_pid remove_record
close_file os w absent = (none, w)
close_file os w corrupt = (some unreadable, w)
close_file os w (saved st) = remove_record os w (kill_pid os st.pid w.live)

-- `closeLocked`
unfoldable pub close_locked : Os → World → Step
unfolding close_file
close_locked os w = close_file os w w.file

-- `saveStateAt` behind a child that runs
unfoldable pub record_child : Os → State → World → Step
record_child os st w =
    let started = record w { live = st.pid ∷ w.live } in
    if os.writes then (none, record started { file = saved st }) else (some unwritable, started)

-- what `open` gives: no child, or the state of the one it started
abbrev pub opened : Os → Option State → World → Step
opened os none w = (some not_opened, w)
opened os (some st) w = record_child os st w

abbrev pub torn_down : Os → Option State → Step → Step
torn_down os start (some e, w) = (some e, w)
torn_down os start (none, w) = opened os start w

-- `Replace`, inside its lock
unfoldable pub replace : Os → Option State → World → Step
unfolding close_locked record_child
replace os start w = torn_down os start (close_locked os w)
