-- ===== src/Lib.antt =====
-- volplugin: volumes for containers, held in an intent store on etcd.
--
-- A host runs the volume plugin (volplugin/, with package api): Docker asks it to create, mount and
-- unmount volumes. What a volume is stands in the intent store (package config); a lock in the same store
-- says which host has it mounted or who takes its snapshots (config/use.go). Package lock takes such
-- locks, waits for them and refreshes them. The drivers (package storage) do the work on a cluster. The
-- API server (apiserver/) serves the command line: it creates, copies and removes volumes under locks, and
-- keeps the policies that volumes are made of (package config, with package merge for the options).
-- volsupervisor takes and prunes snapshots; volmigrate brings the store to a new schema.
--
-- Files:
-- - Base: lists, byte texts, splitting, integers and maps that the others share. A Go string is a list of
--   bytes; `int` and durations that can be negative are integers over the native numbers.
-- - Errors: errors/errors.go and errors/utils.go. An error of package errored is the list of the
--   faults joined by Combine; the formatted texts are one fault, `message`.
-- - Etcd: the interface of the etcd v2 service, which is not in the repository: conditional writes and
--   deletes of one key, with the codes that its documentation gives. Etcd.Memory is an instance.
-- - Storage: storage/utils.go (Name), storage/driver.go and storage/backend/backends.go (Driver),
--   storage/control/volume.go (Control), and storage/backend/ceph (Ceph).
-- - Storage.Ceph: the driver's functions are actions on a host that runs commands and kernel calls
--   (Machine); the host and the decoders of JSON are parameters. Images has Create, Destroy, List and
--   Exists, Mapping has internals.go and Format, Mounts has Mount, Unmount and Mounted, Paths the
--   mount paths, Snapshots the operations on snapshots. Pool has the set of volumes that the
--   driver stands for and the documented behaviour of rbd, and Memory a pool that has it. Loops that try
--   again without a bound run on fuel, and an action whose fuel is used up is `running`; the loops
--   with a number of retries are recursion on that number. The map of mapped images is a list, in one
--   order of iteration. Template has the command template of util.go, whose loop runs on fuel: where
--   the device has no percent sign, each turn passes at least one byte of the result.
--   Nfs has storage/backend/nfs: the options of a mount (Options), the mount, its retries, and the mounts of
--   the host. A call of mount(2) is a parameter, and the attempts are recursion on their number, which is three.
-- - Config: the structs and the volumes (Types, Volume), the use locks of config/use.go with IsVolumeInUse
--   of config/volume.go (Use), config/global.go (Global), config/policy.go with the revisions of
--   config/archive.go (Policy), and CreateVolume of config/volume.go (Created).
-- - Merge: merge/merge.go and merge/casts.go, over a description of a struct: its fields in order with
--   their tags. Merge.Policies is the description of a policy. The options are read in one order of their map.
-- - Lock: lock/lock.go. A call that retries is read over a list of rounds, one for each attempt, with what
--   other clients did before it and what the clock gave after it. A call whose rounds run out is
--   `waiting`; the rounds are no bound on the code, since the loop looks at the clock in each of them. Lock.Cluster has the goroutines of
--   AcquireWithTTLRefresh on all hosts as a step relation, with the nodes that the service lets expire;
--   when a goroutine runs, and the jitter of its waits, are left open.
-- - Api: the counter and the collection of api/internals/mount (Mounts), the process and a request
--   (State), Mount and Unmount (Handlers), Create with createVolume (Create), of api/handlers.go.
--   What the driver, the decoder and the intent store answer during a request are fields of the request.
-- - Server: the handlers of apiserver/daemon.go: requests and replies (Defs), removals (Remove), copies
--   (Copy), creations (Create, on top of Api.Create), policies (Policies), and the handlers
--   that read or write one value (Reads). The encodings are functions of the request.
-- - Migrate: the registry and the run of volmigrate, with the version key of its etcd2 backend.
-- - MountScan: storage/mountscan/mountscan.go, over the contents of the two files of the kernel.
-- - Daemon: what a volume plugin that starts does for the mounts of its host, volplugin/init.go. The
--   loop that asks Docker is read over the list of its turns; a list that runs out is a call that still waits.
-- - Supervisor: one pass of the loop of volsupervisor/loop.go over the volumes, and what it starts for one of
--   them.
--
-- Machine integers: durations of the global configuration are int64 in two's complement, with the wrap of
-- their products; Keep of a snapshot policy is a uint converted to int; numbers of the mount table are
-- bounded by 2 ^ 64. Counters are unbounded integers, since they count requests.
--
-- Not modelled: the command line, the schemas of JSON, archives, the second version of the intent
-- store in db/, the routes and the watches of the daemons, and the limits
-- of rates. The keys of the intent store take `path.Join` for names that it leaves as they are; the
-- paths of mounts have it with `Clean` (Storage.Ceph.Paths). `units.FromHumanSize`, which is not in the repository's own code, is a parameter.
pub mod Base
pub mod Errors
pub mod Storage
pub mod Etcd
pub mod Config
pub mod Lock
pub mod Api
pub mod Migrate
pub mod MountScan
pub mod Supervisor
pub mod Server
pub mod Merge
pub mod Daemon
