-- ===== src/Lib.antt =====
-- Session Search keeps the history of coding sessions of several devices searchable. A device
-- captures session files into a local queue and uploads each revision and its raw file to a
-- primary server, which stores them as immutable objects; replicas serve whole generations of
-- them, a catalog keeps their revisions and events, and answers to searches are cut to a byte
-- budget. This library models the parts of the program that decide what is kept, what is sent and what is given back.
--
-- Base holds what the parts share: Base/Tests Boolean tests and case lemmas, Base/Equality
-- decidable equality, Base/Lists lists under native lengths and SQL-like selections,
-- Base/Assoc tables with a primary key and Python dicts, Base/Bytes bytes, blocks and digests,
-- Base/Result calls that may raise, Base/Framed texts that can be told apart in the examples.
--
-- Records models src/session_search/core/records.py: Event, SessionRevision, Citation and
-- SearchQuery with their constructors' checks (make_event, make_session, make_citation,
-- make_query); Records/Accepted is about sessions, Records/Query about queries.
--
-- Queue models src/session_search/capture/queue.py. The state is UploadQueue (Queue/Table: the
-- tables, the staged raw files and what is known of the server). Queue has ingest and
-- record_capture, Queue/Flush one run of _flush with the reply of the server to each row as a
-- parameter, Queue/Heads _bootstrap_imports and _reconcile_raw_prefixes. Queue/Order to
-- Queue/Delivery hold the proofs: the order of keys, the rounds of a flush, order of delivery,
-- chains of expected revisions, and safety of the staged files; Queue/Retry, Queue/Rows and Queue/Failed
-- are about the rows whose upload fails. compact and
-- _prune_chunk_staging are not modelled.
--
-- Chunks models src/session_search/storage/chunks.py: ChunkStore with put, recipe, iter_bytes,
-- verify and restore over the published chunks and recipes. A recipe is kept as the value that
-- its canonical JSON stands for; the blocks that are read from a file take one unit of fuel for
-- each byte, which is enough since no block is empty. The answer to whether there is room for a
-- block does not change during a put.
--
-- Transfers models src/session_search/storage/transfers.py over the two layouts of
-- src/session_search/storage/objects.py: status and append of RawTransfers. Its chunked
-- setting calls Chunks.put. Transfers/Upload has the loop of _upload_object in
-- src/session_search/interfaces/client.py, with one unit of fuel more than there are bytes to
-- send: a round that sends nothing ends the loop.
--
-- Generations models src/session_search/storage/generations.py: pointers, pins of readers,
-- publish_locked and prune_replica, and Generations/Reachable the steps that readers,
-- publishers and retention may take in any order; Generations/Exact is about what one run of
-- retention removes. A pointer is the stripped text of a regular file.
--
-- Capacity models src/session_search/storage/transfer_capacity.py: staging_admission, which
-- Transfers takes as a parameter.
--
-- Output models bounded_response of src/session_search/core/output.py: Output/Fields its cuts,
-- Output the loop that cuts until the response fits. Its fuel is one more than the
-- weight of the response, which every cut makes smaller. Output/Kept, Output/Cuts and
-- Output/Bounded are about what is left, Output/Flags about the flag, counters and timings.
--
-- Catalog models src/session_search/storage/catalog.py: Catalog/Tables has the tables as lists of
-- rows and the statements on them, Catalog the transaction of ingest, Catalog/Read
-- revision_event_ids, read_events, export_revision, fingerprint and has_raw, Catalog/Sources
-- configure_sources. The compressed list of rows in a revision is kept as the list, and a row of search text as the pair of its key and its text. Catalog/Evidence to
-- Catalog/Receipts hold the proofs; Catalog/Digests has digests without collisions for the examples.
-- Search, context, status and the set-up of the database are not modelled.
--
-- Incremental models scan_bytes and line_offset of src/session_search/capture/incremental.py, over
-- the blocks in which a file is read; Incremental/Prefix and Incremental/Lines hold the proofs.
--
-- Checkpoints models src/session_search/capture/checkpoints.py: Checkpoints/Decode has decode,
-- Checkpoints the directory of the cache with load and save. Checkpoints/Evict and
-- Checkpoints/Found are about what eviction leaves, Checkpoints/Lock about the lock file, Checkpoints/Saved and Checkpoints/RoundTrip
-- about save, and load behind it.
--
-- VerificationJobs models src/session_search/storage/verification_jobs.py: VerificationJobs/Scratch
-- has cleanup_scratch over the scratch directories, VerificationJobs has submit, poll and the writes
-- of run_job, and VerificationJobs/Reachable the steps that submissions, processes and crashes take.
-- VerificationJobs/Retire is about the records that a submission passes, VerificationJobs/Foreign
-- about directories of other jobs.
--
-- Maintenance models src/session_search/storage/transfer_maintenance.py: expire_transfers with its
-- scan, its checks and its removals, with the age limit in whole seconds; Maintenance/Removed and Maintenance/Kept are about the files that
-- stay.
--
-- Fencing models src/session_search/storage/fencing.py: acquire_writer, the end of writer_lease and
-- fence_primary; Fencing/Final has the steps of writers and operators.
--
-- Parameters stand for what the repository takes from elsewhere: SHA-256, the length of JSON,
-- zlib, dates, the free space of the disk, the clock, the answers of the server, and the outcome
-- of a verification. fsync, temporary files and the waiting for locks are not modelled, and symbolic
-- links only where a cleanup looks for them: an operation is one step. The
-- semantic index, parsers, backups, offload, the command line and the
-- HTTP servers are not modelled.
mod Base
pub mod Records
pub mod Queue
pub mod Chunks
pub mod Transfers
pub mod Generations
pub mod Capacity
pub mod Output
pub mod Catalog
pub mod Incremental
pub mod Checkpoints
pub mod VerificationJobs
pub mod Maintenance
pub mod Fencing
