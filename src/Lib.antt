-- ===== src/Lib.antt =====
-- w17ctl is the command line client of the w17 console. It keeps a registry of the developer's
-- projects on one machine, brings up their containers on host ports of their own, follows git's
-- branches with the databases of the running stack, fetches plugins by version, and sends schema
-- changes with the decisions that people made about them. The commands under cmd/ put together the
-- packages under internal/; this library models the packages that decide something, and leaves to
-- parameters what the operating system, git, the console and the parsers answer.
--
-- The parts and their files:
--
-- Base holds what the parts share. A Go string is the list of its bytes (`Str`), with the functions
-- of `strings` and `strconv` that the program calls; a Go map is an association list, whose order
-- stands for the one a `range` takes; `int` is ℤ; `sort.Slice` and `sort.Strings` are an insertion sort.
--
-- Registry is internal/devconfig: `~/.w17/config.yaml` (Config, Project, Preset, Remote). Presets is
-- SetPreset, DeletePreset, Activate and ClearActivePreset; Lookup is FindByPath and DuplicatePaths;
-- Names is ValidateProjectName; Resolve is ResolveProject; Modes is ParseMode, ResolveMode, the binds
-- and ResolveRemote; Remotes is SetRemote and DeleteRemote; UpEnv is BuildUpEnv (runspec.go); Pins is
-- PinnedPorts with the `.env` reader (pinned.go). Ports is allocatePorts (allocate.go, slots.go): its
-- scan for a free port ends only when the probe of the operating system and the registry let it, so it
-- takes fuel; Ports/Ending states which fuel is enough and when none is.
--
-- Versions is internal/pluginfetch/version.go: CompareVersions, LatestVersion, releaseAtCommit and
-- PublishedPlugins on the text that `git ls-remote` and `git ls-tree` print; Published says which versions
-- a listing publishes.
--
-- Reconcile is internal/reconcile/reconcile.go: Run, over any world and any errors, with the injected
-- effects as the record `Deps`. Its caller hands it the snapshot store, the stores and the services.
--
-- Snapstore is internal/snapstore: saveOneTo, saveConns and loadConns on the files of one snapshot
-- set, with the failures of the operating system as the record `Os`. Watch is about the scan of
-- dumpcheck.go over the pieces of a dump; Keys is branchKey over the escaping of net/url; Evict is
-- Branches, Remove and Evict on the scratch tree, a map from directories to modification times; Named is
-- the savepoints with their pins and the guard of `db snapshot activate` (cmd/db/cmd.go), Savepoints is
-- about them.
--
-- Decisions is internal/migdecisions/decisions.go: readOne and readChoice behind the YAML parser,
-- Duplicates (Groups), Applicable (Sent), Payload and insideRoot (Payload).
--
-- Autosync is internal/autosync/autosync.go with ResolveInitiativeTarget and the git rules of
-- internal/storageclient/storageclient.go; it reads the registry through ResolveProject.
--
-- Transport is internal/remote/dest.go with the argument list of internal/remotesync/remotesync.go.
--
-- Tunnel is internal/tunnel: ForwardsFromPorts and SSHArgs (tunnel.go), and the record of the running
-- ssh child with closeLocked and Replace (state.go) on a world of the record's file and the children
-- that run. Tunnel/Lock cuts Replace and Close into the steps of any number of callers under the file
-- lock, as a step relation. It takes its destinations from Transport.
--
-- Credentials is internal/authstore/authstore.go, the store of logins in memory. ConsoleAccess is the
-- part of internal/core that uses it: which console a command dials (console.go, transport.go), which
-- token it shows there (envtoken.go, auth.go), and in Request which organization the call names
-- (orgresolve.go, with needsOrganization of authdiag.go). The package net and the console's answers are
-- parameters; the listings that a process remembers are state.
--
-- PluginFetch is the source of a fetch and its validation (internal/pluginfetch/pluginfetch.go, with
-- path.Clean and path.Base); PluginFetch/Spec is cmd/plugin/gitspec.go: the spec that a person types,
-- the lock entry that an install or an update writes, and the update that reads it; Signature is
-- signatureFromTagMessage.
--
-- LocalTarget is internal/localtarget/localtarget.go with DialectFromConnectionName and
-- ConnectionDomain of internal/codegen/codegen.go: the DSN of a store of the running stack. It reads the
-- ports that Registry keeps. The parsing of a URL is a parameter.
--
-- Guidestamp is internal/guidestamp/guidestamp.go: the version on the first line of AGENTS.md, where
-- `none` stands for a panic.
--
-- UpdateCheck is Check of internal/updatecheck/updatecheck.go; it orders plugins by Versions, and the
-- rest by golang.org/x/mod/semver, which is a parameter.
--
-- A pointer that may be nil is an Option; the registry's entries are taken not to be nil. Errors are
-- data with what their messages quote; the messages' wording and the progress lines are left out.
-- Not modelled: file and process input and output, the RPC clients of the console, templates and
-- generated code, the terminal, the embedded web applications, and the packages that only call
-- external tools; for snapshots, the locks; for the tunnel, the processes; for the
-- console, TLS and the proofs of possession; for plugins, the git runs and the copies of trees.
mod Base
pub mod Registry
pub mod Versions
pub mod Reconcile
pub mod Snapstore
pub mod Decisions
pub mod Autosync
pub mod Transport
pub mod Tunnel
pub mod Credentials
pub mod ConsoleAccess
pub mod Guidestamp
pub mod PluginFetch
pub mod LocalTarget
pub mod UpdateCheck
