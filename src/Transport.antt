-- ===== src/Transport.antt =====
-- internal/remote/dest.go and the argument list of internal/remotesync/remotesync.go: a parsed SSH
-- destination, and what ssh, rsync and the remote shell are given. `path.Join` is a parameter.
mod Tests
pub mod Quote
pub mod Parse
use w17ctl.Base.{
  ℕ, ◌+◌, Str, ℤ, pos, negsuc, atoi, itoa, codes, str_eq, trim_space, rev, cut, ltb, leb, ◌==◌,
  Bool, true, false, not, ◌&&◌, ◌||◌, Option, none, some, List, [], ◌∷◌, ◌++◌, ◌⊎◌, inl, inr,
  if◌then◌else◌,
}

pub record Dest : Type 0 where
  pub target : Str
  pub port : ℕ

pub data DestError : Type 0 where
  empty : DestError
  out_of_range : ℤ → DestError
  no_host : DestError

abbrev pub in_range : ℤ → Bool
in_range (pos n) = leb 1 n && leb n 65535
in_range (negsuc n) = false

abbrev pub natural : ℤ → ℕ
natural (pos n) = n
natural (negsuc n) = 0

-- a numeric suffix is a port, any other is part of the target
unfoldable pub with_port : Str → Str → Option ℤ → DestError ⊎ Dest
with_port s host none = inr (record { target = s; port = 0 })
with_port s host (some n) =
    if not (in_range n)
    then inl (out_of_range n)
    else if str_eq host []
    then inl no_host
    else inr (record { target = host; port = natural n })

-- the last colon: what stands before it, after it, and whether there is one
unfoldable pub cut_last : Str → Str × Str × Bool
cut_last s = let (after, before, found) = cut (rev s) b':' in (rev before, rev after, found)

unfoldable pub parse_trimmed : Str → DestError ⊎ Dest
unfolding with_port cut_last
parse_trimmed s =
    let (host, port, found) = cut_last s in
    if str_eq s []
    then inl empty
    else if found
    then with_port s host (atoi port)
    else inr (record { target = s; port = 0 })

-- `ParseDest(s)`
unfoldable pub parse_dest : Str → DestError ⊎ Dest
unfolding parse_trimmed
parse_dest s = parse_trimmed (trim_space s)

-- `SSHPortArgs`
unfoldable pub ssh_port_args : Dest → List Str
ssh_port_args d = if d.port == 0 then [] else codes "-p" ∷ itoa (pos d.port) ∷ []

-- `RsyncShell`
unfoldable pub rsync_shell : Dest → Str
rsync_shell d = if d.port == 0 then [] else codes "ssh -p " ++ itoa (pos d.port)

-- `ExecArgs(command)`
unfoldable pub exec_args : Dest → Str → List Str
unfolding ssh_port_args
exec_args d command = ssh_port_args d ++ d.target ∷ command ∷ []

-- `strings.ReplaceAll(s, "'", "'\\''")`
unfoldable pub escape : Str → Str
escape [] = []
escape (c ∷ s) = let rest = escape s in if c == 39 then 39 ∷ 92 ∷ 39 ∷ 39 ∷ rest else c ∷ rest

-- `ShellQuote(s)`
unfoldable pub shell_quote : Str → Str
unfolding escape
shell_quote s = 39 ∷ escape s ++ 39 ∷ []

-- `remotesync.Spec`
pub record Spec : Type 0 where
  local_root : Str
  dest : Dest
  remote_path : Str
  project : Str
  exclude_froms : List Str
  excludes : List Str
  dry_run : Bool

-- `DefaultExcludes`
abbrev pub default_excludes : List Str
default_excludes =
    codes ".git/"
    ∷ codes "node_modules/"
    ∷ codes "w17/tmp/"
    ∷ codes "*.snapshot"
    ∷ codes ".snapshots/"
    ∷ codes ".DS_Store"
    ∷ []

-- `RemoteTarget`
unfoldable pub remote_target : (Str → Str → Str) → Spec → Str
remote_target path_join s =
    s.dest.target ++ codes ":" ++ path_join s.remote_path s.project ++ codes "/"

-- a flag before each of the values
unfoldable pub flagged : Str → List Str → List Str
flagged name [] = []
flagged name (v ∷ vs) = name ∷ v ∷ flagged name vs

-- `strings.TrimRight(s, "/")`, on the reversed text
unfoldable pub drop_slashes : Str → Str
drop_slashes [] = []
drop_slashes (c ∷ s) = let rest = drop_slashes s in if c == b'/' then rest else c ∷ s

abbrev pub exclusions : Spec → List Str → List Str
exclusions s [] = flagged (codes "--exclude") s.excludes
exclusions s (f ∷ fs) = flagged (codes "--exclude-from") (f ∷ fs)

-- `Args`
unfoldable pub args : (Str → Str → Str) → Spec → List Str
unfolding remote_target flagged drop_slashes rsync_shell
args path_join s =
    (codes "-az" ∷ codes "--delete" ∷ [])
    ++ (if s.dry_run then codes "--dry-run" ∷ [] else [])
    ++ (if str_eq (rsync_shell s.dest) [] then [] else codes "-e" ∷ rsync_shell s.dest ∷ [])
    ++ exclusions s s.exclude_froms
    ++ (rev (drop_slashes (rev s.local_root)) ++ codes "/") ∷ remote_target path_join s ∷ []
