-- ===== src/Queue/Flush.antt =====
-- `_flush` of src/session_search/capture/queue.py: sending the rows that are due. A row is sent by
-- `send_row`, whose calls of the server and of the object store are parameters.
use session_search.Base.{
  ℕ, suc, ◌+◌, ◌^◌, String, Bool, true, false, not, ◌&&◌, Option, none, some, List, [], ◌∷◌, min,
  leb, if◌then◌else◌, ◌==◌, string_eq, nat_eq, contains, exists, select, update, find, take, upsert,
}
use session_search.Queue.Table.{
  Raw, Payload, Row, RowState, UploadQueue, in_state, has_older, delete,
}

-- What a call of the client ends with: an answer, a `RemoteError` with its status (none for a
-- failed connection), or another exception.
pub data Reply (A : Type 0) : Type 0 where
  answered : A → Reply A
  remote_error : Option ℕ → Reply A
  raised : Reply A

pub data Layout : Type 0 where
  file chunks_v1 : Layout

-- The answer to an upload.
pub record UploadReceipt : Type 0 where
  pub status : String
  pub revision : String

-- `Client`, and what `_flush` asks of `ObjectStore`: the layout of a raw file (`none` is an
-- exception) and whether its transfer copy can be removed (`false` is an `OSError`).
pub record Remote : Type 0 where
  pub layout : String → Option Layout
  pub upload_raw_store : String → Reply (Unit {0})
  pub upload_raw : String → Reply (Unit {0})
  pub upload : Payload → Reply UploadReceipt
  pub can_unlink : String → Bool

-- The rows to send: due, pending, and with no older row of their session.
unfoldable pub eligible : ℕ → List Row → Row → Bool
eligible now rows p =
    in_state RowState.pending p && (leb p.next_attempt now && not (has_older p rows))

unfoldable pub selected : ℕ → ℕ → UploadQueue → List Row
selected now limit q = take limit (select (eligible now q.pending) q.pending)

send_raw : Remote → Option Raw → Reply (Unit {0})
send_raw c none = answered tt
send_raw c (some raw) = elim (c.layout raw.digest) [
  | none ↦ raised
  | some l ↦ elim l [ chunks_v1 ↦ c.upload_raw_store raw.digest | file ↦ c.upload_raw raw.digest ]
]

-- The answer must be a durable receipt for the row's own revision.
accept_receipt : Row → Reply UploadReceipt → Reply (Unit {0})
accept_receipt row (answered receipt) =
    if receipt.status == "durable" && receipt.revision == row.revision
    then answered tt
    else remote_error (some 502)
accept_receipt row (remote_error status) = remote_error status
accept_receipt row raised = raised

-- The `try` block up to the first transaction.
unfoldable pub send_row : Remote → Row → Payload → Reply (Unit {0})
unfolding send_raw accept_receipt
send_row c row payload = elim (send_raw c payload.raw) [
  | answered _ ↦ accept_receipt row (c.upload payload)
  | remote_error status ↦ remote_error status
  | raised ↦ raised
]

abbrev pub has_digest : String → Row → Bool
has_digest d r = elim r.payload.raw [ none ↦ false | some raw ↦ raw.digest == d ]

-- `Path.unlink(missing_ok=True)`
unfoldable pub unlink : String → List String → List String
unlink d files = select (λ f. not (f == d)) files

-- The transfer copy goes when no pending row needs it.
unfoldable pub drop_copy : Remote → Option Raw → UploadQueue → UploadQueue
drop_copy c none q = q
drop_copy c (some raw) q =
    if exists (has_digest raw.digest) q.pending
    then q
    else if c.can_unlink raw.digest
    then record q { files = unlink raw.digest q.files }
    else q

-- The transaction that retires an acknowledged row.
unfoldable pub acknowledge : Row → Payload → UploadQueue → UploadQueue
acknowledge row payload q = record q {
  acknowledged = upsert row.session_id row.revision q.acknowledged;
  raw_acknowledgements = elim payload.raw [
    | none ↦ q.raw_acknowledgements
    | some raw ↦
        upsert raw.path
          (record {
            fingerprint = raw.fingerprint;
            digest = raw.digest;
            size = raw.size;
            session_id = row.session_id;
            revision = row.revision;
          })
          q.raw_acknowledgements
  ];
  pending = delete row.seq q.pending;
}

abbrev pub status_in : List ℕ → Option ℕ → Bool
status_in codes none = false
status_in codes (some n) = contains codes n

abbrev pub failed_state : Option ℕ → RowState
failed_state status =
    if status_in (400 ∷ 413 ∷ 422 ∷ []) status
    then RowState.rejected
    else if status_in (409 ∷ []) status
    then RowState.conflict
    else RowState.pending

-- A status of a shared outage, which ends the flush.
abbrev pub is_outage : Option ℕ → Bool
is_outage none = true
is_outage (some n) = contains (401 ∷ 403 ∷ 429 ∷ 500 ∷ 502 ∷ 503 ∷ 504 ∷ []) n

-- `min(300, 2 ** min(attempts + 1, 9))`
unfoldable pub backoff : ℕ → ℕ
backoff attempts = min 300 (2 ^ min (attempts + 1) 9)

abbrev pub has_seq : ℕ → Row → Bool
has_seq n r = r.seq == n

abbrev pub postponed : ℕ → Row → Option ℕ → Row → Row
postponed now row status r = record r {
  attempts = r.attempts + 1;
  next_attempt = now + backoff row.attempts;
  state = failed_state status;
}

unfoldable pub postpone : ℕ → Row → Option ℕ → UploadQueue → UploadQueue
postpone now row status q = record q {
  pending = update (has_seq row.seq) (postponed now row status) q.pending;
}

-- What a flush has done, and whether an exception other than `RemoteError` ended it.
pub record Flushed : Type 0 where
  pub queue : UploadQueue
  pub sent : ℕ
  pub failed : ℕ
  pub crashed : Bool

-- `for row in rows`. The payload is read when the row's turn comes.
unfoldable pub flush_rows : Remote → ℕ → List Row → Flushed → Flushed
flush_rows c now [] s = s
flush_rows c now (row ∷ rows) s = elim (find (has_seq row.seq) s.queue.pending) [
  | none ↦ record s { crashed = true }
  | some stored ↦ elim (send_row c row stored.payload) [
    | answered _ ↦ flush_rows c now rows (record s {
      queue = drop_copy c stored.payload.raw (acknowledge row stored.payload s.queue);
      sent = suc s.sent;
    })
    | remote_error status ↦
        let next : Flushed = record s {
          queue = postpone now row status s.queue;
          failed = suc s.failed;
        } in
        elim (is_outage status) [ true ↦ next | false ↦ flush_rows c now rows next ]
    | raised ↦ record s { crashed = true }
  ]
]

-- `UploadQueue._flush`
unfoldable pub flush_pending : Remote → ℕ → ℕ → UploadQueue → Flushed
flush_pending c limit now q =
    flush_rows c now (selected now limit q)
      (record { queue = q; sent = 0; failed = 0; crashed = false })
