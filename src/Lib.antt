-- ===== src/Lib.antt =====
-- flint-init, an init system: a service manager that starts services in the order of their
-- dependencies, restarts and stops them, and answers commands from a control socket.
--
-- The parts and how they interact. Service definitions are read from TOML files, at boot through a
-- binary manifest (src/cache.rs). A dependency graph is built from them (src/graph.rs), which says
-- what can start, what a readiness releases, and in which order to stop. The executor
-- (src/executor.rs) owns the graph and the processes: it handles commands, releases the dependents
-- of what is ready, launches, polls its children, restarts, and shuts down. It shares a map of the
-- states of the services with the control server (src/ctl_proto.rs, src/ctl_server.rs). A watcher
-- for each readiness file (src/ready.rs) sends it the names of the services that are ready. The
-- program (src/main.rs) sets up process 1 (src/pid1.rs), loads, builds the graph, starts the watchers
-- and runs the executor; at its end process 1 unmounts and halts. The client
-- (src/bin/flint_ctl.rs) sends commands, checks the directory of services (src/check.rs), fetches
-- services from a catalogue (src/catalog.rs) and proposes new ones (src/scaffold.rs).
--
-- Which file models which part.
--   Prelude, and the files under it: lists over native numbers, texts as lists of code points, maps
--     as association lists, sorting, the string functions of the standard library that the source
--     calls, and integers.
--   Service: src/service.rs, the structures and `validate`. Service/Validate: where an accepted ready
--     path leads.
--   Graph: src/graph.rs, `ServiceGraph` with `build`, `initially_ready`, `mark_ready`, `len` and
--     `needs_dependents`. Graph/Build and Graph/Edges relate its tables to the definitions;
--     Graph/Kahn and Graph/Names follow the search; Graph/Acyclic has what `build` accepts;
--     Graph/Ready and Graph/Ready/Boot follow `mark_ready` alone and in any order of a boot, and
--     Graph/Ready/Boot/Refine compares that with an abstract boot.
--     Graph/Shutdown is `shutdown_order`, and the files under it are about its result.
--   Control: src/ctl_proto.rs, the messages and the shared state.
--   Executor: src/executor.rs, `build_exec_args`, `spawn_service`, `should_restart`, `sync_state` and
--     the local variables of `run_with_marker` as the record `State`. Its phases, in their order:
--     Executor/Stop (the shutdown), Executor/Commands (the commands and the readiness signals),
--     Executor/Launch (the launch), Executor/Reap (the poll); Executor/Run composes them into
--     `run_with_marker`. Executor/Mirror and Executor/Sound follow an invariant through all of it,
--     Executor/Total the ends of the loops, Executor/Stop/Kills the signals of the shutdown, and
--     Executor/Spawned with the files under it how often a service is started.
--   Cache: src/cache.rs, the manifest and `load_services_cached`. Cache/Fresh and Cache/Load compare
--     what is loaded with what the files hold. Service/Load is `load_services_from_dir` of
--     src/service.rs. Watch: src/bin/flint_watch.rs, the watcher that updates the manifest.
--     Cache/Warm and the files under it follow a second load.
--   Server: src/ctl_server.rs, `handle_connection`; Server/Safety: which processes it can signal.
--   Config: src/config.rs, `apply_to`. Fstab: src/fstab.rs, from the table to the calls of `mount`;
--     Fstab/Mounts and Fstab/Flags: what is mounted, and with which flags and data.
--   Ready: src/ready.rs, `watch_once`; Ready/Timeline: when the file may appear.
--   Check: src/check.rs, `has_cycle`; Check/Cycle compares it with `build` of the graph. Check/Audit
--     is the audit, Check/Audit/Partition what it sorts where. Check/Preflight is the preflight and
--     `run_check`; the files under it compare its answer with load_services_from_dir and the graph.
--   Catalog: src/catalog.rs, the distribution, the catalogue with its cache, the fetching of a service
--     and what it misses; Catalog/Laws is about the first and the last.
--   FlintCtl: src/bin/flint_ctl.rs, the choice of the command, and the installing of services with its
--     prompts, which FlintCtl/Missing and FlintCtl/Install follow.
--   Scaffold: src/scaffold.rs, what is proposed for a program from its help text; Scaffold/Valid is
--     about its ready path, as a parser of TOML, which is a parameter, reads it.
--   Pid1: src/pid1.rs, the system calls of `setup` and `supervise_forever`; Pid1/Tmpfiles,
--     Pid1/Setup and Pid1/Unmount are about the declared directories, the mounts and the end.
--   StartUp: src/main.rs, `main`, which calls Pid1, Cache, Config, Graph and Executor in this order
--     and starts the watchers of Ready; StartUp/Whole is about what it hands to the executor,
--     StartUp/Runs about when it comes to it.
--   The files named Examples run the definitions and the theorems on concrete inputs.
--
-- What stands for the outside. `Os` gives users and forks, `Files` the files that a reload reads and
-- the TOML parser, `Disk` the directory, the manifest's file, the parser and the serializer. A
-- `Round` says what the outside does in one round of the main loop: the shutdown flag, the commands
-- and the readiness signals that wait, and what `waitpid` answers for each process. Effects (spawns,
-- signals, replies, removed files, the marker) are a list in the state. `Host` and `Tree` are the
-- files that the preflight and the audit ask for, `Kernel` what inotify shows, `Net` the network with
-- the cache of the catalogue, `Machine` the file system of the client, `World` the answers of the
-- system calls to process 1, and `Computer` all that a start of the program meets.
--
-- Bounds and fuel. `kahn` has one unit of fuel more than names, since each name is queued at most
-- once; `drain` has one more than the running services, since each round takes one out; the launch
-- has one more than the services that wait and the degrees that are left, since a service is
-- released by a degree that comes down to zero. The main loop is a recursion on the list of rounds.
-- `visit_all` of `has_cycle` has the fuel of `kahn`, and `fetch_and_install` one more than the lines
-- that the user types, since each call inside of another one uses up a line.
--
-- A HashMap or a HashSet is a list in the order of insertion, so where the source iterates over
-- one, the model fixes an order that the source leaves open. `usize` subtraction in `build` wraps.
-- A poll takes the processes that were tracked at its start.
--
-- Not modelled: printing, locks, threads, sockets, signal handlers and time, but for the answers that
-- they lead to; the run of a program for its help text in src/scaffold.rs; the listening socket of
-- src/ctl_server.rs; in src/bin/flint_ctl.rs the connection to the socket and `contribute`, which
-- prints; in src/fstab.rs the directories that are made before the mounts; in src/config.rs the
-- reading of the file; and the last loop of src/pid1.rs, which only reaps.
pub mod Cache
pub mod Catalog
pub mod Check
pub mod Config
pub mod Control
pub mod Executor
pub mod FlintCtl
pub mod Fstab
pub mod Graph
pub mod Pid1
pub mod Prelude
pub mod Ready
pub mod Scaffold
pub mod Server
pub mod Service
pub mod StartUp
pub mod Watch
