-- ===== src/Lib.antt =====
-- Tidewaiter keeps Docker containers and NixOS systemd units up to date, and waits with each swap until
-- nobody uses the workload. A daemon runs every source in passes; a source samples whether a workload
-- is busy, decides, and swaps it behind a health gate; between passes the daemon ticks its status, and
-- after a pass it may ask for a reboot.
--
-- The files and the code that they model, with a definition named as its function is, in snake case:
--   Decide    internal/decide/decide.go: Decide, over opaque versions.
--   Model     internal/model/model.go: the container's spec and Published.
--   Detect    internal/detect: the conntrack, tcp and netio detectors and Combine.
--   Health    internal/health: Combine (Health), Gate as a loop over a world with a clock (Health/Gate),
--             and the checks with what they remember (Health/Checks).
--   Reboot    internal/reboot/reboot.go: ParseWindow, Contains, Needed and Decide.
--   Source    internal/source/source.go: what the daemon asks of a source. A pass of a source is a Run: it
--             ends with its outcomes, or it stops at `pass.Hold` for the daemon to go on.
--   Daemon    internal/daemon/daemon.go and the status of internal/status/status.go: State (the fields of
--             Daemon), Publish (snapshot, statusLine, tell, publish, stop), Pass (Once, Tick, record,
--             readActivity, summarise), Reboots (ConsiderReboot). The proofs are in Keeps, Verdicts,
--             Ticks, Outcomes, Holds, Safety, Grants and, over sequences of steps, Reach;
--             Reads is IsStale and IsBusy, as `tidewaiter status` has them.
--   Docker    internal/docker: Recreate (the plan of a swap and what a container keeps of its own),
--             Swap (run, undo), State, Labels (ParseLabels), Images (repository, prune), Update
--             (update, apply), Reconcile (sample, prefetch, note), Pass (reconcile, Once, Activity: a
--             Source), Listing (List), Gate (the evaluation and the event arm of gate) and Version
--             (the order and the choice of an API version, of version.go). Host says what the engine's
--             calls do to names. The proofs are in Undo, Restore, Waits, Pins, Keeps and Chosen.
--   Ports     the grammar of a port, of internal/docker/labels.go and internal/systemd/units.go.
--   Systemd   internal/systemd and the memories of internal/statestore/statestore.go: Unit (systemd.go),
--             Settings and Parse (units.go), State, Files (policies, load, List), Sample (sample,
--             readProfile), Gate (gate, and CgroupBoundPorts of internal/health), Swap (save, switchBack,
--             undo, rollBack, countFailure), Update (swap, updateStopped), Sight (firstSight, resumeSwap)
--             and Pass (with Running: reconcile, Once, Activity: a Source), and Prepare (prepare.go). The
--             proofs are in Memory, Stays, Saves, Ends, Leaves and Resumes (what a swap and its recovery
--             leave of a memory), Starts, Restore, Dry, Distinct, Unread, Reports, Gated and Valid.
--   Nix       internal/nix/closure.go: the drop-in that binds a closure into a unit (Closure), with Go's
--             paths (Paths); Bound has the proofs.
--   Common    lists, maps, sets and texts that the others share.
-- The tests and the concrete runs are in the modules named Examples.
--
-- State and errors. A component's state is a record, and each operation a function from the state and the
-- world, a type that it does not look into, to the next; a call out of the program is a function on the
-- world that gives an error's text, or none. Times are naturals of the code's unit, and so are counts and
-- ports, which the code keeps as ints that are never negative. The log is a list of lines.
--
-- Fuel. Only the loop of the health gate has it: one more than the timeout, which is enough as each round
-- sleeps for the poll, of one unit at least. The other loops recur on their lists.
--
-- Locks and goroutines. What runs under the daemon's locks is one step, and a tick that finds the turn
-- taken is told so by an argument. A background pull is an entry of a list, and its end is a step of its
-- own. The loops of the daemon's Run, and which of the gate's two arms in internal/docker is first, are
-- not modelled: the verdict that a swap gets there is a parameter.
--
-- Parameters. The engine's calls (internal/docker/client.go speaks HTTP to it), the registry's
-- digests, the credentials, the sockets of a process, byte counts, the links of the filesystem,
-- systemd's notices and logind; and for the units the bus, the profiles, the closure's binding, the
-- state file and what a unit's file decodes to as JSON. The proofs on a swap ask of the engine that a
-- call does to the containers' names what Docker documents of it, and that a call with an error
-- changes none of them; those on a unit ask the same of its profile.
--
-- Not modelled: the bus of internal/systemd/dbus.go, the file of internal/statestore,
-- internal/registry, the profiles of internal/nix/profile.go, internal/cli, the parsing of /proc, the bodies of a create and a
-- connect, and the output of commands.
pub mod Common
pub mod Model
pub mod Ports
pub mod Decide
pub mod Detect
pub mod Health
pub mod Reboot
pub mod Source
pub mod Daemon
pub mod Docker
pub mod Systemd
pub mod Nix
