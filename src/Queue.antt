-- ===== src/Queue.antt =====
-- src/session_search/capture/queue.py: the durable upload queue of a device. Its SQLite tables are
-- the fields of `UploadQueue`; a transaction that raises changes nothing. Digests (`revision`, the
-- hash of the canonical JSON) are a parameter.
mod Table
pub mod Flush
pub mod Heads
pub mod Order
mod Rounds
pub mod Fifo
pub mod Ingest
pub mod Linked
pub mod Rebase
pub mod Reconcile
pub mod Delivery
pub mod Retry
mod Rows
pub mod Failed
mod Examples
unfoldable pub use Table.*
use session_search.Base.{
  ℕ, suc, ◌+◌, String, Bool, true, false, Option, none, some, List, [], ◌∷◌, ◌++◌, max,
  if◌then◌else◌, ◌==◌, string_eq, find, lookup, upsert, select, length,
}
use session_search.Base.Result.{Result, ok, err, value_error}
use session_search.Records.{SessionRevision}

-- The revision that the next upload of a session replaces: the newest outstanding one, or else the
-- acknowledged one.
unfoldable pub previous_revision : UploadQueue → String → Option String
previous_revision q session = elim (last_revision session q.pending) [
  | some r ↦ some r
  | none ↦ lookup session q.acknowledged
]

pub record Receipt : Type 0 where
  pub session_id : String
  pub revision : String
  pub duplicate : Bool

module _ (revision_of : SessionRevision → String) where
  -- The row that `INSERT OR IGNORE` offers.
  abbrev pub new_row : UploadQueue → SessionRevision → String → Option Raw → Row
  new_row q session request_id raw = record {
    seq = next_seq q.pending;
    request_id = request_id;
    session_id = session.session_id;
    revision = revision_of session;
    payload = record {
      request_id = request_id;
      expected_revision = previous_revision q session.session_id;
      session = session;
      raw = raw;
    };
    attempts = 0;
    next_attempt = 0;
    state = RowState.pending;
  }

  -- The rest of the transaction: the insertion, the capture checkpoint and the raw capture.
  unfoldable pub record_capture :
      UploadQueue → SessionRevision → String → Option (String × String) → Option Raw → UploadQueue
  record_capture q session request_id checkpoint raw = record q {
    pending = insert_or_ignore (new_row q session request_id raw) q.pending;
    captured = elim checkpoint [
      | none ↦ q.captured
      | some (path, fingerprint) ↦ upsert path fingerprint q.captured
    ];
    raw_captures = elim raw [
      | none ↦ q.raw_captures
      | some r ↦ upsert r.path (r.fingerprint, r.digest) q.raw_captures
    ];
  }

  -- `UploadQueue.ingest`
  unfoldable pub ingest :
      UploadQueue
      → SessionRevision
      → String
      → Option (String × String)
      → Option Raw
      → Result (Receipt × UploadQueue)
  ingest q session request_id checkpoint raw = elim (find (has_request request_id) q.pending) [
    | some existing ↦
        if existing.revision == revision_of session
        then ok (
          record {
            session_id = session.session_id;
            revision = revision_of session;
            duplicate = true;
          },
          record_capture q session request_id checkpoint raw,
        )
        else err value_error
    | none ↦ ok (
      record { session_id = session.session_id; revision = revision_of session; duplicate = false },
      record_capture q session request_id checkpoint raw,
    )
  ]

-- `UploadQueue.fingerprint` and `has_raw`
unfoldable pub fingerprint : UploadQueue → String → Option String
fingerprint q path = lookup path q.captured

unfoldable pub has_raw : UploadQueue → String → String → Bool
has_raw q path print = elim (lookup path q.raw_captures) [ none ↦ false | some (f, d) ↦ f == print ]

-- `UploadQueue.status`: how many rows are in each state.
pub record Status : Type 0 where
  pub total : ℕ
  pub waiting : ℕ
  pub conflicting : ℕ
  pub rejected : ℕ

unfoldable pub status : UploadQueue → Status
status q = record {
  total = length q.pending;
  waiting = length (select (in_state RowState.pending) q.pending);
  conflicting = length (select (in_state RowState.conflict) q.pending);
  rejected = length (select (in_state RowState.rejected) q.pending);
}
