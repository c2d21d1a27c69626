-- ===== src/Lib.antt =====
-- NetBox Sync: discovery of Proxmox and ESXi sources, written to NetBox.
--
-- A run discovers hosts, virtual machines and containers, finds the NetBox object of each by the
-- identities stored in its custom fields, plans the changes, and applies them in stages. Runs are
-- started by a scheduler, one source after the other, or by hand through a confirmed plan, and are
-- recorded in the table sync_runs of PostgreSQL.
--
-- Parts and files:
--
-- * Json models the values of NetBox's JSON custom fields. Numbers are natural; every other number
--   is its text. An object is a list of fields in order, of which the first of a name counts.
-- * Discovery models the data classes of netbox_sync/discovery.py.
-- * Identity (Record, Rank, Ranked, Merge, Select, Builders) models
--   netbox_sync/source_identity.py: the class SourceIdentity, source_identity_match_rank,
--   merge_source_identities, merge_original_name, select_best_identity_matches and the builders of
--   identities. Python's str of a value that is no text is the parameter `print`, the sort key of
--   a merge (repr) the parameter `sort_key`; sorting is Python's stable sort, in Prelude/Sorting.
-- * Metadata (Machines, Containers, Devices, Nics; Steps, Laws, Scope) models
--   netbox_sync/netbox_vm_metadata.py, netbox_lxc_metadata.py, netbox_metadata.py and
--   netbox_vm_interface_metadata.py, which call Identity.
-- * Disappearance (Identities, Owned, Laws) models netbox_sync/netbox_disappearance.py. NetBox is
--   the record NetBox of the answers to its queries; the printed report is the returned record.
--   Python's sets of identities are lists, of which only membership is read.
-- * FullApply models netbox_sync/netbox_full_apply.py over the record Stages, whose fields are the
--   five apply functions and the report.
-- * Apply models the stages of the guests. Apply/Machines (Preflight, Writes; Again, Justified,
--   Laws, Ends) models netbox_sync/netbox_vm_apply.py and Apply/Containers (Writes; Again,
--   Justified, Laws) models netbox_sync/netbox_lxc_apply.py: the contexts of the preflight are
--   records, the writes act on a state W that holds NetBox. Apply/Changes holds the comparisons of
--   _vm_changes and _changes, Apply/Patched what a PATCH does to an object, as a hypothesis of the
--   theorems that use it. Apply/NetBox holds what is not in the repository: the record Api of the
--   queries and the two writes of pynetbox, of which the writes may raise and the queries do not,
--   the record Machine of an object (serialize(), its name, its cluster and its custom fields),
--   and the record Python of str, repr, ==, casefold, int and the sorting of machines.
--   Apply/Stages puts both into the record Stages of FullApply, beside the stages of hosts and
--   networks, which are given.
-- * Plan (Machines, Containers) models netbox_sync/netbox_vm_planner.py and netbox_lxc_planner.py:
--   the match of each guest, the counts, and the exceptions that printing a desired object raises.
-- * SyncPlan (Mutations, Laws) models netbox_sync/application/sync_plan.py and runtime_plan.py:
--   the plan from a review and from the writes that the executors make on the recording facade.
--   The review, the recorded writes and the hash of a value are parameters.
-- * ApplyWorker models netbox_sync/apply_worker.py: Attempt, Conclude and Supervisor are the class
--   ApplySupervisor, with the confirmations of Confirmation and the runs of RunHistory; Child is
--   execute_child and child_main. The registry, the secrets, the lock file, the child process and
--   the clocks are the record Worker, the provider of a child the record Provider, which
--   Child/Proxmox fills with FullApply over Apply/Stages. Kept, Settled, Guards, Ended, Recorded,
--   Failures and Child/Laws hold the theorems.
-- * ScheduleWorker models netbox_sync/schedule_worker.py from the parsed request on, over the
--   table sources as the list of its records.
-- * Config models the records and validations of netbox_sync/source_config.py.
-- * RunHistory (Errors, Counts, Finish, Checks, Laws, Open, Latest, Newest) models
--   netbox_sync/run_history.py and the CHECK constraints of
--   migrations/versions/0002_sync_run_history.py. The table is the list of its rows; an operation
--   that raises leaves it as it was, as its transaction is rolled back.
-- * Scheduling models netbox_sync/application/scheduling.py, Orchestrator (Order, Executed,
--   History) models netbox_sync/orchestrator.py, and Runtime netbox_sync/scheduler_runtime.py,
--   which evaluates each source by Scheduling against the history and runs those that are due by
--   Orchestrator. The clock, the UUIDs, the connection and the executors are the record Outside.
-- * Confirmation models netbox_sync/application/confirmation.py, with SHA-256 as a parameter and
--   the token and the time as arguments; ManualSync models netbox_sync/application/manual_sync.py,
--   with the record Service of loader, planner, executor, clock and random source. The clock is
--   read before the entry is taken out, where the code reads it after, and only if there is one.
-- * Prelude holds what the parts share; Tests holds runs at concrete inputs.
--
-- A time is a number of microseconds since the year 1, a UUID its 128-bit number; a time past the
-- year 9999 is Python's OverflowError. Every loop is structural recursion on the list that the
-- code iterates, so no fuel is needed.
--
-- Not modelled: the planners and the apply stages of hosts and of networks, the discovery worker,
-- the source registry and the secrets, the classification of a review and the recording facade,
-- the digest of a plan, onboarding and ESXi adoption, which are further parts of the same kind;
-- the sockets and processes of the workers; the clients of Proxmox, ESXi and NetBox, the HTTP API,
-- the frontend, the command line and the deployment, which are I/O or glue around the modelled
-- parts. The names of NetBox objects are texts, and the texts of a plan that a child returns are
-- read as such. SQL queries other than those of start_run, finish_run, get_run, latest_by_source
-- and the schedule update are not modelled, nor is the locking that makes a single-use token safe
-- among threads: an operation of the model is one atomic step.
pub mod Prelude
pub mod Json
pub mod Discovery
pub mod Identity
pub mod Metadata
pub mod Config
pub mod RunHistory
pub mod Scheduling
pub mod Orchestrator
pub mod Runtime
pub mod Confirmation
pub mod ManualSync
pub mod FullApply
pub mod Apply
pub mod Plan
pub mod SyncPlan
pub mod ApplyWorker
pub mod ScheduleWorker
pub mod Disappearance
pub mod Tests
