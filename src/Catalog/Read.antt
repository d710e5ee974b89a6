-- ===== src/Catalog/Read.antt =====
-- Reading stored revisions: `revision_event_ids`, `read_events` and `export_revision`.
use session_search.Base.{
  Bool, ◌&&◌, exists, Option, ℕ, String, none, some, List, [], ◌∷◌, if◌then◌else◌, ◌==◌, nat_eq,
  string_eq, contains, length, lookup, upsert, blocks,
}
use session_search.Base.Result.{Result, ok, err, value_error, key_error}
use session_search.Records.{Event, SessionRevision}
use session_search.Catalog.Tables.{Catalog, EvidenceRow, revision_row}

unfoldable pub revision_event_ids : String → String → Catalog → List ℕ
revision_event_ids session revision c = elim (revision_row session revision c.revisions) [
  | none ↦ []
  | some r ↦ r.event_map
]

-- The rows of one batch, put into the dict of events.
unfoldable pub gather : List ℕ → List EvidenceRow → List (ℕ × Event) → List (ℕ × Event)
gather batch [] events = events
gather batch (e ∷ rows) events =
    gather batch rows (if contains batch e.row_id then upsert e.row_id e.event events else events)

-- The loop of `read_events` over batches of 500.
unfoldable pub gather_all : List (List ℕ) → List EvidenceRow → List (ℕ × Event) → List (ℕ × Event)
gather_all [] rows events = events
gather_all (batch ∷ batches) rows events = gather_all batches rows (gather batch rows events)

-- `[events[row_id] for row_id in event_ids]`
unfoldable pub pick : List ℕ → List (ℕ × Event) → Result (List Event)
pick [] events = ok []
pick (row ∷ rows) events = elim (lookup row events) [
  | none ↦ err key_error
  | some e ↦ elim (pick rows events) [ err x ↦ err x | ok es ↦ ok (e ∷ es) ]
]

abbrev pub batch_size : ℕ
batch_size = 500

unfoldable pub read_events : List ℕ → List EvidenceRow → Result (List Event)
read_events ids rows =
    let events : List (ℕ × Event) = gather_all (blocks batch_size ids) rows [] in
    if length events == length ids then pick ids events else err value_error

-- `export_revision`: the fields of the revision and its events.
unfoldable pub export_revision : String → String → Catalog → Result SessionRevision
export_revision session revision c = elim (revision_row session revision c.revisions) [
  | none ↦ err key_error
  | some r ↦ elim (read_events (revision_event_ids session revision c) c.evidence) [
    | err e ↦ err e
    | ok events ↦ ok (record {
      session_id = r.session_id;
      events = events;
      source = r.source;
      project = r.project;
      title = r.title;
      parent_session_id = r.parent_session_id;
      is_subagent = r.is_subagent;
      parser_version = r.parser_version;
    })
  ]
]

-- `fingerprint`
unfoldable pub fingerprint : String → Catalog → Option String
fingerprint path c = elim (lookup path c.checkpoints) [ none ↦ none | some k ↦ some k.fingerprint ]

-- `has_raw`
unfoldable pub has_raw : String → String → Catalog → Bool
has_raw path print c = exists (λ r. r.raw.path == path && r.raw.fingerprint == print) c.raw_sources
