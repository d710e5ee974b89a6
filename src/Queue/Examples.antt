-- ===== src/Queue/Examples.antt =====
-- A queue with two revisions of one session and one of another, and a server that takes the first,
-- refuses the second and is never asked for the third.
use session_search.Base.{
  length, All, ℕ, ◌≤◌, ◌+◌, ◌≡◌, refl, String, true, false, Option, none, some, List, [], ◌∷◌,
  arith, ◌==◌, string_eq, string_dec, ℕ_discrete, if◌then◌else◌, exists, select, find, upsert,
  lookup,
}
use session_search.Base.Result.{ok}
use session_search.Records.{SessionRevision}
use session_search.Queue.Table.{
  Raw, Row, RowState, UploadQueue, max_seq, insert_or_ignore, last_revision, has_older, delete,
}
use session_search.Queue.Flush.{
  Reply, answered, remote_error, file, Remote, flush_pending, flush_rows, selected, eligible,
  send_row, acknowledge, drop_copy, postpone, unlink,
}
use session_search.Queue.Heads.{Head, bootstrap_imports, reconcile_raw_prefixes}
use session_search.Queue.Order.{Ascending}
use session_search.Queue.Fifo.{Progress, flush_pending-Progress}
use session_search.Queue.Linked.{IsChained, flush_pending-IsChained, ingest-IsChained}
use session_search.Queue.Rebase.{Same}
use session_search.Queue.Reconcile.{bootstrap_imports-Same, reconcile_raw_prefixes-Same}
use session_search.Queue.Delivery.{IsSafe, flush_pending-IsSafe, flush_pending_counts}
use session_search.Queue.Retry.{Fate, is_retried}
use session_search.Queue.Failed.{flush_pending-Fate}
use session_search.Queue.{ingest, record_capture, previous_revision}

abbrev session : String → String → SessionRevision
session id title = record {
  session_id = id;
  events = [];
  source = "codex";
  project = "/work";
  title = title;
  parent_session_id = none;
  is_subagent = false;
  parser_version = "codex-v1";
}

-- For the examples the title stands for the digest.
abbrev title : SessionRevision → String
title s = s.title

abbrev raw : String → Raw
raw d = record { path = "/log"; fingerprint = "f"; digest = d; size = 3 }

abbrev row : ℕ → String → String → Option String → Row
row n id revision expected = record {
  seq = n;
  request_id = revision;
  session_id = id;
  revision = revision;
  payload = record {
    request_id = revision;
    expected_revision = expected;
    session = session id revision;
    raw = some (raw revision);
  };
  attempts = 0;
  next_attempt = 0;
  state = RowState.pending;
}

abbrev queue : UploadQueue
queue = record {
  pending = row 1 "a" "r1" (some "r0") ∷ row 2 "b" "r2" none ∷ row 3 "a" "r3" (some "r1") ∷ [];
  captured = [];
  acknowledged = ("a", "r0") ∷ [];
  raw_captures = [];
  raw_acknowledgements = [];
  files = "r1" ∷ "r2" ∷ "r3" ∷ [];
}

abbrev server : Remote
server = record {
  layout = λ d. some file;
  upload_raw_store = λ d. answered tt;
  upload_raw = λ d. answered tt;
  upload = λ p.
      if p.request_id == "r1"
      then answered (record { status = "durable"; revision = "r1" })
      else remote_error (some 409);
  can_unlink = λ d. true;
}

flushed : (flush_pending server 100 7 queue).queue.files ≡ "r2" ∷ "r3" ∷ []
unfolding flush_pending flush_rows selected select eligible has_older exists string_dec find
    ℕ_discrete send_row drop_copy acknowledge delete postpone unlink
flushed = refl

queue-Ascending : Ascending queue.pending
queue-Ascending = omega arith

flush_pending-Progress_example :
    Ascending (flush_pending server 100 7 queue).queue.pending
    × Progress "a" queue (flush_pending server 100 7 queue).queue
flush_pending-Progress_example = flush_pending-Progress "a" server 7 100 queue queue-Ascending

queue-IsChained : IsChained "a" queue
unfolding lookup select string_dec
queue-IsChained = record { chain = (refl, (refl, tt)) }

flush_pending-IsChained_example : IsChained "a" (flush_pending server 100 7 queue).queue
flush_pending-IsChained_example =
    flush_pending-IsChained "a" server 7 100 queue queue-Ascending queue-IsChained

flush_pending-IsSafe_example : IsSafe "r3" queue (flush_pending server 100 7 queue).queue
flush_pending-IsSafe_example = flush_pending-IsSafe "r3" server 7 100 queue queue-Ascending

flush_pending_counts_example :
    (flush_pending server 100 7 queue).sent + (flush_pending server 100 7 queue).failed ≤ 100
flush_pending_counts_example = flush_pending_counts server 100 7 queue

flush_pending-Fate_example :
    All (Fate 7 queue.pending) (flush_pending server 100 7 queue).queue.pending
    × ((flush_pending server 100 7 queue).failed
        ≡ length
            (select (is_retried queue.pending) (flush_pending server 100 7 queue).queue.pending))
flush_pending-Fate_example = flush_pending-Fate server 100 7 queue queue-Ascending

abbrev captured : UploadQueue
captured = record queue {
  pending =
      row 1 "a" "r1" (some "r0")
      ∷ row 2 "b" "r2" none
      ∷ row 3 "a" "r3" (some "r1")
      ∷ row 4 "a" "r4" (some "r3")
      ∷ [];
  raw_captures = ("/log", ("f", "r4")) ∷ [];
}

captured_lem :
    ingest title queue (session "a" "r4") "r4" none (some (raw "r4"))
    ≡ ok (record { session_id = "a"; revision = "r4"; duplicate = false }, captured)
unfolding ingest find string_dec record_capture insert_or_ignore upsert exists previous_revision
    last_revision max_seq
captured_lem = refl

ingest-IsChained_example : IsChained "a" captured
ingest-IsChained_example =
    ingest-IsChained title queue (session "a" "r4") "r4" none (some (raw "r4")) "a" _ captured
      captured_lem queue-IsChained

abbrev heads : List String → Reply (String → Option Head)
heads ids = answered (λ id. some (record {
  source = "codex";
  parser_version = "legacy-archive-v1";
  revision = "old";
  raw = some ("d", 2);
}))

bootstrap_imports-Same_example : Same "b" queue (bootstrap_imports heads 100 queue).queue
bootstrap_imports-Same_example = bootstrap_imports-Same "b" 100 queue queue-Ascending heads

abbrev constant_digest : List ℕ → String
constant_digest bytes = "d"

abbrev three_bytes : String → Option (List ℕ)
three_bytes d = some (1 ∷ 2 ∷ 3 ∷ [])

reconcile_raw_prefixes-Same_example :
    Same "a" queue (reconcile_raw_prefixes constant_digest three_bytes heads 100 queue).queue
reconcile_raw_prefixes-Same_example =
    reconcile_raw_prefixes-Same "a" 100 queue queue-Ascending heads constant_digest three_bytes
