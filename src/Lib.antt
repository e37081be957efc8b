-- ===== src/Lib.antt =====
-- A model of Klados, a platform that snapshots and forks running microVMs, and its correctness.
--
-- The program. The daemon spikes/engine/kladosd.py serves an HTTP API on runs, instances (live VMs)
-- and snapshots, which it keeps in five SQL tables. A snapshot stops the workload in the guest by a
-- message to the agent (spikes/guest/guest_agent.py), pauses the VM, has Firecracker write its memory,
-- seals the disk layer, and stores the memory as chunks (spikes/storage/cas.py), with a hot cache on
-- disk and a cold tier in S3. A fork puts the memory file together again, restores as many VMs as
-- asked, and sends each a FORKED message, upon which the agent raises a generation number and only then
-- releases the workload; a hook in each Python process (spikes/guest/sitecustomize.py) sees the new
-- number at the check before its next draw and reseeds.
--
-- The files.
--   Base: lists over native numbers, Boolean tests, Python's dict (Base.Dict), results (Base.Result),
--     decimal text (Base.Text).
--   Codec: hashlib and zlib, as a record of functions with the behaviour that the store relies on.
--   Chunking: `CAS._blocks` and `_GEAR`; Chunking.Lossless and Chunking.Bounds are its laws.
--   S3: `class S3` of spikes/storage/s3.py; S3.Bucket joins it to `CAS.flush_s3`, whose uploads are made one
--     after the other there, those that are cancelled left out.
--   Cas: `class CAS`. Cas.Sound is its invariant; Cas.Put, Cas.Fetch and Cas.Restore follow a block into
--     the store, to the cold tier and back; Cas.Accounting and Cas.Dedup are about the counters, and
--     about data that is put again.
--   Memory: `_chunk_mem` and `_reconstruct_mem` of kladosd.py; Memory.Image, Memory.Restore.
--   Agent: `Agent.handle` and `_bump_gen` of guest_agent.py; Agent.Protocol says what the messages
--     change, Agent.Check what the answer to CHECK counts.
--   Hook: `_maybe_reseed`, `_install_wrappers` and `_backup_poller` of sitecustomize.py, and a guest
--     in which agent and process take turns, a wrapped call in two steps; Hook.Gate is its
--     invariant, Hook.Window and Hook.Stream its consequences. Hook.Periodic is `_periodic`, whose
--     rounds come at any moment.
--   Vsock: `vsock_request` of spikes/harness/fc.py and the socket loop of guest_agent.py; Vsock.Lines and
--     Vsock.Exchange are about what arrives.
--   Microvm: `class Microvm` of spikes/harness/fc.py, as the requests that it sends to Firecracker's API,
--     and the process; Microvm.Calls says on which socket a VM runs.
--   Schema: the tables of `init_db` and the queries of kladosd.py. Schema.Change is the specification of
--     what a request may do to them; Schema.Integrity is their invariant, which Schema.Keeps preserves;
--     Schema.Isolation is about the rows of other projects.
--   Engine: the daemon's state (`LIVE`, `STORE`, tables, files) and a monad of functions that raise.
--     Engine.Machines has `_boot_vm` and `_wait_agent`, Engine.Runs `create_run`, `snapshot_instance`,
--     `fork_snapshot` and `destroy_instance`, Engine.Accounts `create_project`, `project_of_key` and
--     `_require_owner`, Engine.Reports `timeline`, `list_runs`, `_meter_tick` and `usage`, Engine.Diff
--     `_walk_fs` and `fs_diff`, Engine.Startup the end of `init_db` and `_spec`.
--     Engine.Logic, Engine.Untouched and Engine.Moves show what they do to the tables. Engine.Goes is the
--     reasoning on calls that return; by it Engine.Taking follows a snapshot, Engine.Forking and
--     Engine.Forking.Children a fork, and Engine.Forking.Lineage joins them. Engine.Metering
--     and Engine.Diff.Laws are about the reports.
--   Http: `do_GET` and `do_POST`, with the path in Http.Path; Http.Refines, Http.Consistency and
--     Http.Isolation join the parts.
--   Sdk: the requests of spikes/sdk/klados/__init__.py and what it reads from the responses; Sdk.Routes
--     writes paths and reads them back, Sdk.Reaches leads each request to its handler.
--   Browser: the websocket client of spikes/guest/browser_workload.py; Browser.Reads and
--     Browser.Frames are about what it receives, Browser.Server about what it sends. Browser.Session
--     has `ev` and the steps of `main`, and Browser.Answers shows that each message gets its own
--     answer.
--   Harness: the test for collisions in spikes/harness/spike_c.py; Harness.Collisions and Harness.Collided
--     say what it reports. Harness.Lab is a monad of the methods of `fc.Microvm`, any of which may raise,
--     in which Harness.Forks (spike_b.py to spike_i_concurrent.py) and Harness.Measures (smoke.py,
--     spike_a.py, spike_f_latency.py) write the experiments. Harness.Discipline is the order in which the
--     methods may be called, Harness.Leads the reasoning on it, and Harness.Orderly, Harness.Siblings,
--     Harness.Concurrent, Harness.Browsed and Harness.Alone the experiments' proofs. Harness.Verdicts
--     has what the experiments conclude, which Harness.Judged and Harness.Fidelity explain;
--     Harness.Metrics is metrics.py and Harness.Percentiles is about its percentiles. Harness.Browsers
--     is spike_j_browser.py, and Harness.Reported says that it reads what the browser workload writes.
--   Tests: runs on concrete data.
--
-- Correspondence. A text is a String and bytes are lists of numbers. A Python exception is a value of
-- Base.Result.Error; what a function has changed before it raises stays changed, but SQL that is not
-- committed is lost. Tables are lists of rows in order of insertion. What Firecracker, the kernel, the
-- clock, random sources and the network answer comes from the record Engine.Host, as functions of a
-- count of the questions asked so far, so that every answer may differ from the last. Hashing and
-- compression come from Codec.Codec: decompression undoes compression, and no two blocks that are
-- stored share a digest. Memory is metered in MiB, where the code divides by 1024.
--
-- Loops. `put_file` runs on fuel, one for each byte, since each read takes one byte at least; the
-- fixed blocks likewise, and the gear-hash loop by recursion on the bytes. The wait for an answer of
-- the browser has fuel for more frames than the stream has bytes, and a frame has two at least. The
-- loops that wait for an agent run as many rounds as the host says their deadline leaves. All other
-- loops run over a list.
--
-- Not modelled: JSON text and HTTP headers; mounting and file modes; prices and rounding of the usage
-- report; two requests at a time; request bodies that are JSON but no object, and fields that are null or
-- no text; what urllib does to a path with other characters than letters, digits, `/`, `-` and `_`; what
-- a guest writes to its data disk, so that a sealed layer holds what was inherited; wrapped calls of
-- several threads at a time, and calls that the hook does not wrap; `\s` above code 255; floats, for which
-- the percentiles have hundredths; the searches of consoles, tables and arguments of the experiments,
-- which also sleep between their calls; how the workloads start their processes; the SDK in TypeScript, the command line, the uffd handler in Rust and the setup scripts.
pub mod Base
pub mod Browser
pub mod Codec
pub mod Chunking
pub mod S3
pub mod Cas
pub mod Memory
pub mod Agent
pub mod Hook
pub mod Vsock
pub mod Schema
pub mod Microvm
pub mod Engine
pub mod Http
pub mod Sdk
pub mod Harness
mod Tests
