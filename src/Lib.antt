-- ===== src/Lib.antt =====
-- btrfs-nfs-csi: an agent that keeps volumes, snapshots and clones as btrfs subvolumes and exports
-- them over NFS, and a CSI driver that talks to the agent.
--
-- Parts and files. Paths of the repository are given from its root.
--   Base and Base/: tests, lists, byte strings, dictionaries and integers that the parts share.
--   Strconv: strconv.ParseUint, strconv.Atoi and the printing of numbers, of Go's library.
--   Validate: config/config.go and utils/validation.go, the checks on names, labels and numbers.
--   Sizes: ParseSize of utils/format.go. FileMode: fileMode, unixMode of agent/storage/utils.go.
--   Csi and Csi/: integrations/kubernetes/controller, the CSI controller. Ids has the identifiers of
--   csiserver/utils.go; Labels and Params pvc.go, how the parameters and annotations of a claim
--   become labels and a request; Tracker agenttracker.go, which agent serves a storage class; Lists
--   the list calls over several agents; Requests what is asked; Controller, Publish and Snapshots the
--   calls that change something.
--   Node and Node/: integrations/kubernetes/driver, the node driver: node.go, utils.go, stats.go.
--   Client and Client/: agent/api/v1/client and the errors of agent/api/v1/models.
--   Api and Api/: agent/api/v1, the handlers over the storage, utils.go and middleware.go.
--   Mounts: utils/mount.go. Nfs and Nfs/: agent/storage/nfs, the exporter over the tool exportfs.
--   Reconciler: agent/storage/reconciler.go, over any exporter. Btrfs and Btrfs/: agent/storage/btrfs,
--   the commands of the tool btrfs and the parsers of its subvolumes and quotas.
--   Storage and Storage/: agent/storage. Model has the records of model.go; Meta the store of
--   meta/store.go; Labels the label checks of utils.go; Volumes, Access, Update the handlers of
--   volume.go; Snapshots, Clones, Exports those of snapshot.go, clone.go, export.go; Tenant the
--   tenantPath of storage.go; Usage one scan of usage.go; Cache the loadCache of
--   storage.go.
--   Storage/Success, Growth, Orphans, References, Refusals, Layout and Labels/Protected have the
--   theorems, Storage/Samples the hosts and records of the tests.
--   Tasks and Tasks/: agent/storage/task. Tasks has the record of model.go and what happens to one
--   task in manager.go; Manager the manager as a machine; Every, Lifecycle, Ends, Slots, Views, Cancel
--   the theorems.
--   Locks and Locks/: the pool of path locks of agent/storage/meta/store.go, for one path; those of
--   different paths do not touch each other.
--   Pages and Pages/: handler.go and labels.go of agent/api/v1, the lists by pages.
--
-- How a handler is modelled. The file system, the btrfs tool and the NFS exporter are a `Host`
-- (Storage/Host): it answers each call from the log of the calls before it, in any way it likes, so
-- a theorem over all hosts covers all failures and what other programs do to the disk. A state is
-- the two caches and the log. A handler is an action (Storage/Exec): it passes the state on and
-- ends with a value or an error, and what it did before an error stays done. Errors keep the code
-- of StorageError; `wrapped` stands for every error made by fmt.Errorf. Messages, log lines and
-- metrics are left out. The time is an argument. A path is the list of its segments.
--
-- The task manager. Each task has the place of its goroutine beside its stored state. An event is a
-- call of the manager or a step of one goroutine, and a run is any sequence of events, so that all
-- interleavings of the goroutines are covered. The semaphore is the number of values in it.
-- A load of a task's state and the store that follows it are one step, so that a progress set
-- between the two, which the code loses, is not seen. The ids of generateID are taken to be new.
--
-- Storage/Exec/Triple has one proof rule for each way to build an action, and Storage/Meta/Frame
-- the rules of the store's operations; the theorems on handlers follow the handlers' own structure.
--
-- Bounds. A number is a natural number; where the code multiplies in 64 bits the wrap is written
-- out (Sizes). Parsing and printing of numbers run on fuel: one more than the number is enough for
-- its digits, which the round trip of Strconv/RoundTrip needs. All else is structural recursion.
--
-- The encoding of cursors is a record of operations and laws (Pages.Base64), which base64 of Go's
-- library fulfils. A slice with a negative bound is the answer `panics`. A client's walk over the
-- pages runs on fuel, one request for each item and one more at most.
--
-- How the parts meet. The CSI controller calls agents through `Agents` (Csi/Controller), whose
-- answers are those of the HTTP client; Api/Answers runs a deletion from the storage through the
-- handler and the client to the controller's answer. The reconciler takes an `Exporter` (Nfs) that
-- fulfils `IsExporter`, and Nfs/Refine shows that the one over exportfs does. The client's loop is
-- run against the lists of Pages (Client/Gathers), and what it gathers is what the list calls of
-- the CSI controller get (Csi/Lists/Short).
--
-- Parameters. Programs and libraries that are not in the repository are records of operations with
-- named laws: the tool exportfs (`IsExportfs`), the mounter (`IsMounter`), base64, and the format of
-- page tokens. The Kubernetes API is a function that finds a claim or a secret, the hash of a volume
-- id is a function, and an agent answers the controller in any way it likes. Maps are association
-- lists, and where the code ranges over a map the order is that of the list; the List of the task
-- manager, whose order is not fixed, is left out. Texts are split at the white space of ASCII, where
-- strings.Fields and strings.TrimSpace know that of Unicode too, so that a text with such a space is
-- outside of the model. During a pass of the reconciler the file system stands still.
--
-- Not modelled: routes of tasks, statistics and health, the generated API description, the set-up
-- of the gRPC services, the lock per volume of the node driver, the command line, metrics, the
-- background loops with their timers, and the parsers of devices, scrubs and file system usage of
-- the btrfs tool. The client's prefetching of pages and its callback are left out. Two handlers
-- that run at the same time are not interleaved: what the other one does between two calls is the
-- host's freedom to answer, but the caches are read and written by one handler only.
pub mod Api
pub mod Base
pub mod Btrfs
pub mod Client
pub mod Csi
pub mod FileMode
pub mod Locks
pub mod Mounts
pub mod Nfs
pub mod Node
pub mod Pages
pub mod Reconciler
pub mod Sizes
pub mod Storage
pub mod Strconv
pub mod Tasks
pub mod Tests
pub mod Validate
