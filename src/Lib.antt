-- ===== src/Lib.antt =====
-- Verification of revu, an offline-first client for reviewing pull requests and local branches.
--
-- The program. A daemon (packages/revud) keeps snapshots, blobs and drafts in a store and serves
-- them to a browser application (packages/app); both share packages/shared. A human writes pending
-- comments against one head. When the branch moves, the daemon classifies each comment against the
-- new content (reconcile), the human decides, and the application rewrites the draft. Sweeps
-- reclaim cached content that nothing names any more.
--
-- The parts and their files:
-- Api: packages/shared/src/api/types.ts, the documents that the parts exchange, in the fields that
--   the modelled code reads.
-- Anchor: packages/shared/src/lib/anchor.ts. classifyAnchor is classify_anchor, with the fast path
--   stays_clean, the search drift_search and the answer drift_result; contextScore, isDuplicated-
--   InWindow, resolveRangedStart, resolveFilePresence and classifyPendingComment keep their names.
--   Scan, Context, Drift, Span and Pending prove what the loops and the classifiers answer.
-- Reconcile: packages/revud/src/direct/reconcile.ts. reconcileDraft is reconcile_draft over a record
--   of the four reads of the store; its refusals are values of ReconcileError. It calls Anchor.
-- ReconcilePlan: packages/app/src/components/review/reconcile-plan.ts. planReconcileApply is
--   plan_reconcile_apply, one round of its loop is apply_decision and add_fate. It reads the results
--   that Anchor's classifier gave, and captures anchors that the classifier will read again.
-- Diff: packages/app/src/lib/diff.ts. Parse has the hunk parser, Expand the expanded ranges, Intraline
--   the emphasis spans, Rows the gap regions, and Rows.Hunks the rows of a file.
-- Drafts: packages/app/src/state/drafts.ts. The persistence entry of one pull request with its
--   timers and the unanswered calls of saveDraft; Step lists what can happen, in any order, and
--   OwnStep what happens when the human does nothing more. The edits upsertComment,
--   removeComment, setBody, setEvent, setHead and ensureDraft.
-- Retention: packages/revud/src/direct/retention.ts and, of packages/revud/src/direct/store.ts,
--   deleteImmutables, deleteBlobs and the reads of the keys in use. A table is a list of rows; a
--   row that cannot be read is one with a field that is none or malformed. Gate has syncs that run
--   beside sweeps, as steps in any order, and write with the operations of Store; Refs has
--   dropPinnedRefs.
-- Store: packages/revud/src/direct/store.ts. Tables has the statements on rows under a key; Snapshots
--   has writeSnapshotRows, the reads that join an envelope and its half, putImmutable and putBlobs,
--   over the tables that Retention sweeps; Reviews the rows of local reviews with bumpIdHighWater
--   and createLocalReview; Documents the drafts, viewed files, threads and submitted reviews, and
--   deleteLocalReview over all six local tables. Reviews.Registry is what the rows of local
--   reviews promise, a registry from branches to ids. A transaction is one step, so steps in any
--   order are what several daemons on one file can do.
-- Identity: packages/shared/src/lib/identity.ts. prefixBody, parsePrefixedBody with its regular
--   expressions read as scans, parseCommentIdentity and isOwnComment.
-- PollLoop: packages/revud/src/broker/poll-loop.ts. What is answered during one tick is an
--   Environment; Tick.poll is the body of pollOnce, begin_tick and end_tick its two ends, and
--   list_pulls what is served. Failures of the list, of the facts and of one compare are values.
-- Threads: packages/app/src/state/threads.ts, the optimistic replies, resolutions and reactions: for
--   each its onMutate, onError and onSuccess over the cached snapshot. Its optimistic bodies are
--   those that Identity parses.
-- RefNames: packages/shared/src/lib/refs.ts, isValidRefName and normalizeRefName.
-- Inbox: packages/app/src/lib/inbox-sections.ts, which rows are shown and the sections they stand in;
--   it reads the names that Identity parses and the band of local reviews that Retention.Refs has.
-- LocalArchive: packages/shared/src/lib/local-archive.ts, when a pull request supersedes a review.
-- Prelude: what the parts share: tests on numbers, lists, texts, integers, results.
-- Each part's Tests holds runs at concrete inputs and the theorems applied to them.
--
-- Numbers. Line numbers are natural numbers from 1, where the code has array indices from 0: the
-- line n is the index n - 1. A difference of two lines is an integer (Prelude.Int). The noise
-- ratio of the emphasis is compared as 7 * length < 10 * changed. Texts are lists of UTF-16 code
-- units; toLowerCase is modelled on ASCII letters.
-- Loops are structural recursion over the list, the number of lines of the window, or the hunks; no
-- definition runs on fuel.
--
-- Parameters: the word diff of the package `diff`, the blob resolver and the clock of the plan, git's
-- listing and deletion of refs with the decimal digits of a number, the order in which the store
-- lists keys, of which only the members matter, the class of letters and digits of the names, and
-- in the poll loop the hexadecimal digits, JSON.stringify and localeCompare.
--
-- Not modelled: React hooks, HTTP, subprocesses, SQL and JSON parsing, the user interface and its
-- texts, which are I/O or display; the orchestration of a sync and the writes to GitHub; of the
-- store the migrations, preferences, the audit log, prefetched authors and the lists of local
-- reviews; the avatars of Identity; and, of the pure code, the tree of the inbox, its keyboard
-- focus and the review modes. A promise that is awaited is its result; where the order of answers
-- matters (saving a draft, a tick, a reply) each answer is a step of its own. A failed commit of the
-- store, which rolls back, is not modelled. The ids of the store are natural numbers without a bound: they grow
-- by one from a billion, or nine trillion, and stay exact in a double up to 2^53.
mod Prelude
pub mod Api
pub mod Retention
pub mod Threads
pub mod PollLoop
pub mod Inbox
pub mod Identity
pub mod Store
pub mod Drafts
pub mod LocalArchive
pub mod Anchor
pub mod ReconcilePlan
pub mod RefNames
pub mod Reconcile
pub mod Diff
