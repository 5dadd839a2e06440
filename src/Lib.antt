-- ===== src/Lib.antt =====
-- gotato: the runtime of long-lived agent Sessions, modelled from its Go source.
--
-- A Session (package gotato) runs a model and its tools in Turns, and keeps a Transcript of
-- Messages. Messages that arrive while a Run goes on wait in the Session's control queue. What
-- happens is written as Entries of the Session's Record (package record) to a store (package
-- store), whose Liveness rows say which Instances are alive.
--
-- Session/Types is gotato/types.go: Messages and their parts. Session/Control is
--   gotato/controlqueue.go: places and limits, the lease of a Run, the drain and the seal.
-- Session/Delivery is gotato/queue.go: the gate that a message passes on its way into that queue, and
--   the messages that one Session hands to the next.
-- Session/Subscription is gotato/subscription.go with the publishing of gotato/feed.go: one subscriber
--   of a Feed. Its operations are functions on the subscriber, and Session/Subscription/Stream runs
--   them in any order with the publishers and with reads of the source. A filter is a test of the
--   Event alone; an error or a deadline of the goroutine is the step that closes the stream.
-- Session/ToolBatch is gotato/toolbatch.go: the groups of a batch of Tool calls, and the run of one group
--   on the Session's goroutine, where the signals of the workers and the cancellation are arguments;
--   and the counters of a Tool's progress reports.
-- Session/History is gotato/history.go with gotato/limits.go: the Transcript with its size, and its
--   commits under the limits. Session/History/Results has the Tool Results that are too large for one
--   Message, and the closing results of gotato/toolbatch.go for the calls of a Run that ended. The length
--   of a Message in JSON is a parameter.
-- Record/Entry is record/entry.go and record/header.go: Entries, their layers, the Header.
-- Record/Repair is repair of record/record_log.go: the results that a load adds for Tool calls that
--   a Run left without one. Record/Window is the window of Events in memory of record/events.go, a
--   ring, and what it tells a reader that asks for the Events after a number. Record/Cut is
--   record/compact_cut.go: where a compaction cuts the Messages.
-- Store/Id and Store/Batch are store/store_check.go: the checks of ids and batches, and what a load
--   returns. Store/Memory is store/memory.go: the MemoryStore, a step for each method.
-- Store/File is store/file.go with store/file_batch.go: the FileStore. Store/File/Name is
--   store/file_name.go, the file names of ids. Store/File/Calls has the calls that write and
--   Store/File/Reading those that read; Store/File/World runs the calls of any handles on one directory,
--   an Append as two steps, its checks and its write, and Store/File/Shows says when the files stand for
--   the Records of the MemoryStore. Store/File/Instances is store/file_instance.go, the Liveness rows.
--   What names an epoch's directory, the start of its SHA-256, is a parameter, and each
--   create is assumed to come with an epoch of a directory that no create before it used.
-- Record/Writing is record/writing.go with the pending Events of record/record_log.go, the numbers of
--   record/events.go and the Claim of record/holder.go: what a Writer drives. Store/Writer is
--   store/writer.go over the MemoryStore; Store/Writer/History runs its calls among those of others,
--   Release and Resume as the steps between which the Writer's lock is free.
-- Host/Warm is host/internal/warm/warm.go: the copies of idle Sessions, which of them is evicted, and
--   what keeps an idle compaction off one that is in use. Host/Runs is host/internal/runs/runs.go: the
--   table of admitted Runs, with the bound on the Sessions in memory and the drain; it takes the victim
--   from Host/Warm. Host/Heartbeat is host/internal/heartbeat/heartbeat.go: an Instance's Liveness row,
--   over the MemoryStore of Store/Memory, with its renewals, a new name after an expiry, and the guard;
--   each method is one step of its histories, and Host/Heartbeat/Closed has the first Live with what
--   happens between its parts, a Close too.
-- Base has what the models share: Go maps as association lists, results with errors, Boolean tests.
--
-- A Go string is a list of bytes, an error is an option or the error case of a result, a method
-- that changes its receiver returns the new state. A method that holds a lock from end to end is one
-- step, and what other goroutines do between two steps is any list of steps. A uint64 is a number
-- with its wrap-around written out, and a statement that needs it bounds the numbers by 2^64. A
-- recursion is on a list, so that no model takes fuel.
--
-- Not modelled: the Loop of a Run, the Tool registry, the rest of the Record's fold and its segments
-- and so OpenWriter, the listings of the stores, the Runner of the host, the models' wire formats and
-- the adapters. JSON, what a file system does beyond directories and files that are there or not, the
-- network and the clock are outside.
pub mod Base
pub mod Session
pub mod Record
pub mod Store
pub mod Host
