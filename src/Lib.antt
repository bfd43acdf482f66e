-- ===== src/Lib.antt =====
-- PdfSearch keeps a searchable library of documents and the machinery that backs it up, restores it
-- and switches between its generations. This library models the machinery's own logic: who may do
-- what, in which state, and what is left behind when several workers do it at once.
--
-- The parts, and where they stand
--
-- Prelude: Boolean tests, list and text helpers and the `Result` of a call that may raise, shared
--   by all parts (Prelude/Tests, Lists, Text, Raising), and the character classes of the program's
--   regular expressions (Prelude/Chars). `lower` is that of Python on ASCII.
-- Vault: the control plane of flowdocs/vaultops.
--   Vault/States, Vault/Job, Vault/Audit: the enumerations and rows of flowdocs/vaultops/models.py
--   and the events of services/audit.py. A row has the fields that the services read and write.
--   Vault/Transitions and Transitions/Tables: services/lifecycle.py, `_guard_transition` and the
--   `transition_…` functions. Transitions/Runtime has theorems on the runtime state.
--   Vault/Jobs and Vault/Stale: services/jobs.py from `_verify_owner` to `recover_stale_jobs`;
--   Vault/Retry: `_requeue_job_once` and `requeue_job`. Vault/History is the life of one row: any
--   sequence of these operations by any workers, as the relations `Step`, `Change`, `Reach` and
--   `Run`. Its theorems are in History/Fencing, Versions, Ownership, Claiming and Recovery, and in
--   Retry/Once.
--   Vault/Barrier: services/mutations.py, and `_cleanup_owner_is_quiesced` of services/snapshot.py.
--   Each database transaction is one function on the row that it locks; Barrier/System interleaves
--   the transactions of all parties. Barrier/Snapshot and Barrier/Journal have the theorems.
--   Vault/Confirmation: services/confirmations.py, with its regular expressions in
--   Confirmation/Shape and its theorems in Confirmation/Use.
--   Vault/Retention: services/retention.py. Vault/Retention itself has
--   `generation_protection_reasons` and the retirement, Retention/Holds the holds,
--   Retention/Collect the objects that the manifests of the generations name, Retention/Garbage
--   `create_gc_plan` and `execute_gc_plan`. A stored generation carries its holds and workspaces;
--   projections and jobs are tables. Retention/Scanning, Candidates and Deletion have the theorems
--   on what a plan may delete, Protection and Plans the others.
-- Module Plan: flowdocs/dataops/lifecycle.py. Plan/Types has its enumerations and records,
--   Plan/Refusals `_identity_refusals` and `_source_refusals`, Plan/Literals and Plan/Stages the
--   branches of `compile_lifecycle_plan` as functions on the lists that it appends to, and
--   Plan/Compile puts them together with `_build_plan`. Plan/Cleared is a specification of the
--   guards, written beside the code; Plan/Guards, Switching and Controls have the theorems.
-- Direction: flowdocs/core/environment_policy.py, with Direction/Separation.
-- DocumentLifecycle: flowdocs/core/services/document_lifecycle.py, with the rows of
--   flowdocs/core/models.py and the evidence in DocumentLifecycle/Media and the transitions of
--   flowdocs/core/maintenance.py, from `deprecate_pdf` to `restore_unavailable_pdf`, in
--   DocumentLifecycle/Transitions; the decorator of the media transitions is `tracked`, on what the
--   call meets, with the control row of Vault/Barrier. Changes, Looks and Quarantine relate the calls
--   to what may happen to a document, Histories and Recovery have the theorems on sequences of calls
--   and on the way back.
-- Cache: the interface of the shared cache (`django.core.cache`), with the documented laws that
--   the callers rely on, and Cache/Memory, a store that has them.
-- Keys: flowdocs/core/namespace.py, the keys of the objects in the shared bucket, with the checks
--   of their parts in Keys/Check and the theorems in Keys/Isolation.
-- Writer: flowdocs/core/global_writer.py. Writer/Store is the interface of a bucket with
--   conditional writes and of JSON, with the documented laws that the code relies on; the probe of
--   the capabilities is an argument. Writer/Refinement relates the writes to an atomic register,
--   Writer/Epochs has the theorem over histories of writes, Writer/Fencing and Writer/Race those on
--   callers that lose, and Writer/Bucket a bucket that has the laws.
-- Pointer: flowdocs/core/registration.py, the authoritative pointer of a dataset, over the
--   interface of Writer/Store. The reads and the write of an update meet states of their own.
--   Pointer/Epochs has the theorem over the interleaved updates of any publishers, Pointer/Updates
--   that on two that race.
-- RuntimeControl: flowdocs/vaultops/runtime_control.py. RuntimeControl/Documents has the dicts,
--   `sign_document` and `verify_document`, RuntimeControl/Tree the file trees with the two walks,
--   RuntimeControl/Checks the checks of paths, variables and pointers; RuntimeControl itself puts
--   them together, from `atomic_write_json` and `_read_json` to `resolve_runtime_from_env`. Dicts and Signing are about
--   signatures, Walking and Freezing about the walks and `set_runtime_workspace_writable`, Pointers
--   and Resolving about pointers.
-- Compatibility: flowdocs/core/compatibility.py, with its report in Compatibility/Checks and the
--   condition that it decides in Compatibility/Accepted.
-- Schedule: flowdocs/dataops/job_scheduler.py, with the fields of cron expressions in
--   Schedule/Parse and the theorems in Schedule/Bounds and Schedule/Matching.
-- Reconciler: flowdocs/dataops/reconciler.py, with the theorems in Reconciler/Budget.
-- Lease: flowdocs/core/lease.py over the interface of Cache, with Lease/Validity, Takeover and
--   Epochs.
-- Backup: flowdocs/core/backup_policy.py over the same interface, with Backup/Due and Completed.
--
-- A job of the vault holds the snapshot barrier of Vault/Barrier by its id; a plan of Plan names the
-- entry into that barrier among its steps; the retirement of Vault/Retention is a transition of
-- Vault/Transitions; its garbage collection, the control record of Writer and the pointer of
-- Pointer use the keys of Keys; the epoch of a writer record is what the pointer compares; a lease
-- of Lease guards the publication of what a backup of Backup made. The parts share no state but the
-- cache and the database rows given here.
--
-- How code is rendered
--
-- A database transaction is a function from the row that `select_for_update` locks to the saved row
-- and the audit events, or to the exception, which rolls it back. Where the code reads and later
-- locks, or reads and later writes the cache, the definition takes a state for each, so that
-- anything may happen in between. The clock, random tokens, the answers of the snapshot service and
-- the fingerprint of the database are arguments, as are what stands at a path of the file system
-- and what the looks at the media of a document find; SHA-256, HMAC, JSON, the digests of a plan,
-- the ISO text of a time and the zone database are parameters. Times and counters are natural
-- numbers; where the code takes the maximum with 0, subtraction stops at 0. Objects that the code
-- changes in place are returned.
--
-- Bounds: the loop of `requeue_job` makes 5 attempts, as in the code, and the waiting loop of
-- `request_barrier` runs through the list of rows that its polls lock, of any length. `range` of
-- Schedule/Parse and `decimal` of Prelude/Chars have as much fuel as their result can need.
--
-- Not modelled: the call of the optional job queue in `mark_data_dirty`, mutation scopes while
-- tracking is switched off (they do nothing), texts of messages, the failures of
-- the file system in `atomic_write_json`, the registration record of a dataset, the restore, publication and activation services, the executors
-- and object stores of Data Operations, the search and document code, pages, settings and scripts.
mod Prelude
pub mod Plan
pub mod Pointer
pub mod Backup
pub mod Cache
pub mod Direction
pub mod DocumentLifecycle
pub mod Compatibility
pub mod Keys
pub mod Reconciler
pub mod RuntimeControl
pub mod Schedule
pub mod Writer
pub mod Lease
pub mod Vault
