-- ===== src/Lib.antt =====
-- A model of the integrity monitor for Kubernetes pods and of its snapshot controller, with proofs.
--
-- The program. A snapshot tool (cmd/snapshot) hashes the files of an image and writes a checksums
-- file. A controller (snapshot-controller) stores the checksums of each `Snapshot` object in MinIO,
-- under a name made of the namespace, the image and the algorithm. A monitor (cmd/k8s-integrity-sum),
-- a container beside the monitored one, hashes the files of a process at each tick, loads the
-- checksums of its image, and compares. A difference sends an alert to all senders and deletes the
-- pod, which Kubernetes then makes anew.
--
-- The files:
--   Base: lists, bytes as code numbers, maps as association lists, results. A map has at most one
--     entry for a key when it is built by `insert`.
--   Strings: the functions of Go's standard library that the code calls: strings.Split, Join, Trim,
--     TrimSpace, TrimPrefix, HasSuffix, Contains and ToLower, strconv.Atoi, strconv.Unquote, `%d`,
--     filepath.Join, and the lines of bufio.Scanner with its limit.
--   Hasher: pkg/hasher/hasher.go, the registry of algorithms and the hash of a file.
--   Bee2: internal/ffi/bee2/bee2.go and wrapper.go, the hasher over blocks and the file hasher in C.
--     `Bee2.Cgo` has the conversions of Go ints to C, with their wrap-around.
--   Walker: internal/walker/filewalker.go; `chan_walk_dir` is `ChanWalkDir`.
--   Worker: `NewWorker` of internal/worker/workers.go, one worker's loop.
--   Pool: `WorkersPool` of the same file. The goroutines are steps of one state, in any order; the
--     buffer of `hashC` has a place for each worker, as `make` gives it.
--   Checksums: internal/data/checksums_reader.go; `get` is `Get`, `parse_record` is `parseRecord`.
--   Snapshot: internal/integritymonitor/snapshot.go; `calculate_and_write_hashes`, `hash_dir` and
--     `write_as_plain_text` are the functions of these names.
--   Process: internal/utils/process, `GetProcessPath` of integritymonitor.go, and the paths that
--     `CheckIntegrity` makes.
--   ObjectName: `BuildObjectName` of pkg/minio/minio.go.
--   Monitor: `compareHashes` of internal/integritymonitor/integritymonitor.go, and
--     integrityerror.go.
--   Check: the select of `CheckIntegrity` in integritymonitor.go and its goroutine, as steps.
--   Pipeline: from the file that the snapshot tool writes, through the controller's storage, the walk
--     of the process and the worker pool, to the verdict of the monitor. `Pipeline.SameTree` relates
--     the walks of the two programs, `Pipeline.Deployed` the two
--     ends; `Pipeline.Alarm` goes on from a change of the files to the restart of the pod.
--   Options: `ParseMonitoringOpts` of integritymonitor.go.
--   Alerts, Syslog, Splunk: pkg/alerts, pkg/alerts/syslog and pkg/alerts/splunk.
--   Senders: the senders that `main` of cmd/k8s-integrity-sum/main.go registers.
--   Health: pkg/health/health.go.
--   Graceful: internal/utils/graceful/graceful.go, `Execute` as steps. The models of the other
--     components take the moment at which the context is done as a parameter.
--   Program: cmd/k8s-integrity-sum/main.go; `main` and `run_check_integrity` are the functions of
--     these names.
--   K8s: pkg/k8s/k8s.go.
--   Response: `integrityCheckFailed` of integritymonitor.go.
--   Reconciler: snapshot-controller/controllers/snapshot_controller.go. `Reconciler.System` puts it into a
--     cluster: users, who change the snapshots between any two calls of a reconciliation, calls that
--     fail, and restarts of the controller are steps of one state; one reconciliation runs at a time.
--   Controller: snapshot-controller/main.go.
--   Configs: internal/configs/config.go, internal/logger/logger.go, and the flags of pkg/minio/minio.go;
--     Snapshot.Tool is cmd/snapshot/main.go.
--   Storage: pkg/minio/minio.go, and `minIOStorage` of the controller; `Storage.Store` is what the
--     storage promises.
-- In each, the module of the component's name has the definitions, its children have the proofs,
-- and the child Tests has examples.
--
-- State. Calls that reach the outside act on a world of any type, which each step takes and returns.
-- The variables of a package are a record. A channel that a loop reads until it is closed is the list
-- of its items. A run-time panic of the source is a value: `none`, `panicked` or `crashed`. `main` that
-- waits for a tick behind those that are given is `awaiting_tick`.
--
-- Bounds and fuel. A number in decimal is printed on fuel n + 1, which is more than it has digits;
-- `atoi` refuses what does not fit 64 bits. A line of 65536 bytes or more ends the scan of a
-- checksums file. `Write` of the bee2 hasher has fuel for one round more than there are bytes, and a
-- round takes a byte at least. The other loops are on lists. A run of the pool, or of a check, is a
-- finite sequence of steps; the loop over the ticks is on the list of the ticks so far.
--
-- Parameters, with what is asked of them: the lower case of text that is not ASCII; the escapes of
-- strconv.Unquote; the entry that a loop over a map visits first (`IsRange`: one that is in the map),
-- and the orders in which the ticks visit the processes (`range_order` makes any order of them out of
-- numbers); the moment at which a context is done; the output of
-- pidof; the tree of the file system and its other answers; the Kubernetes API (`IsCluster`: what is
-- written is what is read; `IsApi`: a write takes effect only on the version that was read, a call that
-- fails may have had its effect, and a read may miss the latest status) and the MinIO
-- client (`IsObjectStore`: a call that succeeds has its effect on the one object or bucket, one that
-- fails may have had it or not, and what is read is there; `KeepsObjects`: what is put is read); md5, base64, JSON and HTTP; a
-- `hash.Hash` (`IsHash`: its `Reset` forgets what was written, and its sum is bytes); the C library
-- bee2 (`IsBash`: its state keeps its size, and the hash depends on the bytes that were put in and
-- not on the pieces).
--
-- Not modelled: the text of log messages, and the scheme and the generated copies of the Kubernetes
-- API, which hold no logic; how pflag and viper read the values of the flags. The
-- controller's `Get` reads from a cache; `IsApi` lets it be behind in the status, which the controller
-- alone writes, and not in the rest. The heartbeat runs beside the loop over the ticks; both send alerts, and how their sends interleave is
-- not modelled.
pub mod Base
pub mod Strings
pub mod Worker
pub mod Walker
pub mod Checksums
pub mod Snapshot
pub mod Hasher
pub mod Bee2
pub mod Pool
pub mod Process
pub mod ObjectName
pub mod Monitor
pub mod Check
pub mod Pipeline
pub mod Options
pub mod Alerts
pub mod Syslog
pub mod Splunk
pub mod Configs
pub mod Controller
pub mod Graceful
pub mod Health
pub mod K8s
pub mod Senders
pub mod Program
pub mod Response
pub mod Reconciler
pub mod Storage
