-- ===== src/Queue/Heads.antt =====
-- `_bootstrap_imports` and `_reconcile_raw_prefixes` of src/session_search/capture/queue.py: a
-- pending first revision is set to replace a head that the server already has. The server's
-- answers, the bytes of the staged raw files and `sha256` are parameters.
use session_search.Base.{
  ℕ, zero, suc, String, Bool, true, false, not, ◌&&◌, ◌||◌, Option, none, some, List, [], ◌∷◌, map,
  ltb, leb, if◌then◌else◌, ◌==◌, string_eq, nat_eq, select, update, take, drop, length,
}
use session_search.Queue.Table.{Raw, Row, RowState, UploadQueue, in_state, has_older}
use session_search.Queue.Flush.{Reply, answered, remote_error, raised, has_seq}

-- A head as the server describes it.
pub record Head : Type 0 where
  pub source : String
  pub parser_version : String
  pub revision : String
  pub raw : Option (String × ℕ)

-- `batch` consecutive slices of at most `n` rows, for the rows that are left.
unfoldable pub batches : ℕ → ℕ → List Row → List (List Row)
batches zero n rows = []
batches (suc fuel) n [] = []
batches (suc fuel) n (r ∷ rows) = take n (r ∷ rows) ∷ batches fuel n (drop n (r ∷ rows))

-- `json_set(payload,'$.expected_revision',?), state='pending', next_attempt=0 WHERE seq=?`
abbrev pub rebased : Option String → Row → Row
rebased expected r = record r {
  payload = record (r.payload) { expected_revision = expected };
  state = RowState.pending;
  next_attempt = 0;
}

unfoldable pub rebase : ℕ → Option String → UploadQueue → UploadQueue
rebase seq expected q = record q { pending = update (has_seq seq) (rebased expected) q.pending }

abbrev pub is_waiting : Row → Bool
is_waiting r = in_state RowState.pending r || in_state RowState.conflict r

abbrev pub is_none : {A : Type 0} → Option A → Bool
is_none none = true
is_none (some a) = false

abbrev pub session_ids : List Row → List String
session_ids = map (λ (r : Row). r.session_id)

-- A queue, how many rows were rebased, and whether an exception ended the call.
pub record Rebased : Type 0 where
  pub queue : UploadQueue
  pub count : ℕ
  pub crashed : Bool

-- The first revisions of Codex sessions that no other outstanding row precedes.
unfoldable pub importable : List Row → Row → Bool
importable rows p =
    is_waiting p
    && (is_none p.payload.expected_revision
        && (p.payload.session.source == "codex" && not (has_older p rows)))

-- One row of `_bootstrap_imports`: only an imported archive is replaced.
unfoldable pub bootstrap_row : Option Head → Row → Rebased → Rebased
bootstrap_row none row s = s
bootstrap_row (some head) row s =
    if head.source == "codex" && head.parser_version == "legacy-archive-v1"
    then record s { queue = rebase row.seq (some head.revision) s.queue; count = suc s.count }
    else s

unfoldable pub bootstrap_rows : (String → Option Head) → List Row → Rebased → Rebased
bootstrap_rows heads [] s = s
bootstrap_rows heads (row ∷ rows) s =
    bootstrap_rows heads rows (bootstrap_row (heads row.session_id) row s)

unfoldable pub bootstrap_batches :
    (List String → Reply (String → Option Head)) → List (List Row) → Rebased → Rebased
bootstrap_batches migration_heads [] s = s
bootstrap_batches migration_heads (batch ∷ rest) s = elim (migration_heads (session_ids batch)) [
  | answered heads ↦ bootstrap_batches migration_heads rest (bootstrap_rows heads batch s)
  | remote_error _ ↦ record s { crashed = true }
  | raised ↦ record s { crashed = true }
]

abbrev pub untouched : UploadQueue → Rebased
untouched q = record { queue = q; count = 0; crashed = false }

-- `UploadQueue._bootstrap_imports`
unfoldable pub bootstrap_imports :
    (List String → Reply (String → Option Head)) → ℕ → UploadQueue → Rebased
bootstrap_imports migration_heads limit q =
    let rows : List Row = take limit (select (importable q.pending) q.pending) in
    bootstrap_batches migration_heads (batches (length rows) 100 rows) (untouched q)

unfoldable pub reconcilable : List Row → Row → Bool
reconcilable rows p =
    is_waiting p
    && (p.payload.session.source == "codex"
        && (not (is_none p.payload.raw) && not (has_older p rows)))

module _ (sha256 : List ℕ → String) (read_raw : String → Option (List ℕ)) where
  -- The server's raw file is a prefix of the staged one, which `read_raw` gives (`none` is an
  -- `OSError` or a `ValueError`).
  unfoldable pub is_ancestor : Raw → String → ℕ → Bool
  is_ancestor raw digest size = elim (read_raw raw.digest) [
    | none ↦ false
    | some bytes ↦ leb size (length bytes) && sha256 (take size bytes) == digest
  ]

  -- One row of `_reconcile_raw_prefixes`, for the head that the server has.
  unfoldable pub reconcile_known : Head → Row → Rebased → Rebased
  reconcile_known head row s = elim head.raw [
    | none ↦ s
    | some (digest, size) ↦ elim row.payload.raw [
      | none ↦ s
      | some raw ↦
          if head.source == "codex" && (not (ltb raw.size size) && is_ancestor raw digest size)
          then record s { queue = rebase row.seq (some head.revision) s.queue; count = suc s.count }
          else s
    ]
  ]

  unfoldable pub reconcile_row : Option Head → Row → Rebased → Rebased
  reconcile_row none row s = record s { queue = rebase row.seq none s.queue; count = suc s.count }
  reconcile_row (some head) row s = reconcile_known head row s

  unfoldable pub reconcile_rows : (String → Option Head) → List Row → Rebased → Rebased
  reconcile_rows heads [] s = s
  reconcile_rows heads (row ∷ rows) s =
      reconcile_rows heads rows (reconcile_row (heads row.session_id) row s)

  unfoldable pub reconcile_batches :
      (List String → Reply (String → Option Head)) → List (List Row) → Rebased → Rebased
  reconcile_batches recovery_heads [] s = s
  reconcile_batches recovery_heads (batch ∷ rest) s = elim (recovery_heads (session_ids batch)) [
    | answered heads ↦ reconcile_batches recovery_heads rest (reconcile_rows heads batch s)
    | remote_error _ ↦ record s { crashed = true }
    | raised ↦ record s { crashed = true }
  ]

  -- `UploadQueue._reconcile_raw_prefixes`
  unfoldable pub reconcile_raw_prefixes :
      (List String → Reply (String → Option Head)) → ℕ → UploadQueue → Rebased
  reconcile_raw_prefixes recovery_heads limit q =
      let rows : List Row = take limit (select (reconcilable q.pending) q.pending) in
      reconcile_batches recovery_heads (batches (length rows) 10 rows) (untouched q)
