-- ===== src/Catalog/Tables.antt =====
-- src/session_search/storage/catalog.py: the tables of the catalog, and the statements of
-- `Catalog.ingest` on them.
use session_search.Base.{
  ℕ, suc, max, String, Bool, false, not, ◌&&◌, Option, none, some, List, [], ◌∷◌, ◌++◌, map,
  if◌then◌else◌, ◌==◌, Eq, nat_eq, string_eq, string_dec, contains, length, select, exists, find,
  lookup, upsert,
}
use session_search.Records.{Event, SessionRevision}

pub record EvidenceRow : Type 0 where
  pub row_id : ℕ
  pub session_id : String
  pub content_hash : String
  pub event : Event

pub record ActiveEvent : Type 0 where
  pub session_id : String
  pub ordinal : ℕ
  pub event_row : ℕ

-- `event_map` holds the list that its compressed JSON stands for.
pub record RevisionRow : Type 0 where
  pub session_id : String
  pub revision : String
  pub source : String
  pub project : String
  pub title : String
  pub parent_session_id : Option String
  pub is_subagent : Bool
  pub parser_version : String
  pub event_count : ℕ
  pub event_map : List ℕ

pub record Receipt : Type 0 where
  pub producer : String
  pub request_id : String
  pub session_id : String
  pub revision : String

pub record Producer : Type 0 where
  pub session_id : String
  pub revision : String
  pub producer : String

pub producer_dec : Discrete Producer
producer_dec = hlevel string_dec

instance abbrev pub producer_eq : Eq Producer
producer_eq = record { dec = producer_dec }

-- The raw file that a revision was read from.
pub record Raw : Type 0 where
  pub digest : String
  pub size : ℕ
  pub path : String
  pub fingerprint : String

pub record RawSource : Type 0 where
  pub session_id : String
  pub revision : String
  pub raw : Raw

pub record ProjectAlias : Type 0 where
  pub session_id : String
  pub project : String
  pub alias : String
  pub legacy_revision : String
  pub native_revision : String

pub record Checkpoint : Type 0 where
  pub fingerprint : String
  pub session_id : String
  pub revision : String

pub record Catalog : Type 0 where
  pub readonly : Bool
  pub revisions : List RevisionRow
  pub heads : List (String × String)
  pub evidence : List EvidenceRow
  pub active : List ActiveEvent
  pub evidence_fts : List (ℕ × String)
  pub producers : List Producer
  pub receipts : List Receipt
  pub checkpoints : List (String × Checkpoint)
  pub raw_sources : List RawSource
  pub project_aliases : List ProjectAlias
  pub epoch : ℕ

-- A new key of a table `INTEGER PRIMARY KEY`.
unfoldable pub next_row : List EvidenceRow → ℕ
next_row [] = 1
next_row (e ∷ es) = max (suc e.row_id) (next_row es)

unfoldable pub revision_row : String → String → List RevisionRow → Option RevisionRow
revision_row session revision = find (λ r. r.session_id == session && r.revision == revision)

unfoldable pub head_row : String → Catalog → Option RevisionRow
head_row session c = elim (lookup session c.heads) [
  | none ↦ none
  | some revision ↦ revision_row session revision c.revisions
]

abbrev pub in_session : String → ActiveEvent → Bool
in_session session a = a.session_id == session

-- `SELECT event_row FROM active_events WHERE session_id=?`
unfoldable pub active_rows : String → List ActiveEvent → List ℕ
active_rows session active =
    map (λ (a : ActiveEvent). a.event_row) (select (in_session session) active)

abbrev pub same_hash : String → EvidenceRow → Bool
same_hash hash e = e.content_hash == hash

-- `INSERT OR IGNORE INTO evidence …`, and the key of the row with the hash.
unfoldable pub add_evidence : String → String → Event → List EvidenceRow → ℕ × List EvidenceRow
add_evidence session hash event rows = elim (find (same_hash hash) rows) [
  | some row ↦ (row.row_id, rows)
  | none ↦ (
    next_row rows,
    rows
        ++ record {
          row_id = next_row rows;
          session_id = session;
          content_hash = hash;
          event = event;
        }
          ∷ [],
  )
]

unfoldable pub row_of : String → SessionRevision → List ℕ → RevisionRow
row_of revision s rows = record {
  session_id = s.session_id;
  revision = revision;
  source = s.source;
  project = s.project;
  title = s.title;
  parent_session_id = s.parent_session_id;
  is_subagent = s.is_subagent;
  parser_version = s.parser_version;
  event_count = length s.events;
  event_map = rows;
}

-- The label of a legacy import that a native capture replaces.
unfoldable pub aliased : SessionRevision → RevisionRow → Bool
aliased s head =
    head.source == s.source
    && (s.source == "codex"
        && (head.parser_version == "legacy-archive-v1"
            && (not (s.parser_version == "legacy-archive-v1")
                && (not (head.project == "")
                    && (not (s.project == "") && not (head.project == s.project))))))

abbrev pub same_alias : String → String → String → ProjectAlias → Bool
same_alias session project alias a =
    a.session_id == session && (a.project == project && a.alias == alias)

unfoldable pub add_alias :
    String → SessionRevision → Option RevisionRow → List ProjectAlias → List ProjectAlias
add_alias revision s none rows = rows
add_alias revision s (some head) rows =
    if aliased s head && not (exists (same_alias s.session_id s.project head.project) rows)
    then rows
      ++ record {
        session_id = s.session_id;
        project = s.project;
        alias = head.project;
        legacy_revision = head.revision;
        native_revision = revision;
      }
        ∷ []
    else rows

abbrev pub stays_indexed : List ℕ → List ℕ → ℕ × String → Bool
stays_indexed previous rows p = not (contains previous p.0 && not (contains rows p.0))

abbrev pub same_request : String → String → Receipt → Bool
same_request producer request_id r = r.producer == producer && r.request_id == request_id

abbrev pub same_raw : String → String → Raw → RawSource → Bool
same_raw session revision raw r =
    r.session_id == session
    && (r.revision == revision && (r.raw.digest == raw.digest && r.raw.path == raw.path))

-- The end of the transaction, for a revision that is in the catalog.
unfoldable pub acknowledge :
    String → String → String → String → Option (String × String) → Option Raw → Catalog → Catalog
acknowledge session revision producer request_id checkpoint raw c =
    let entry : Producer = record {
      session_id = session;
      revision = revision;
      producer = producer;
    } in
    record c {
      producers = if contains c.producers entry then c.producers else c.producers ++ entry ∷ [];
      receipts =
          c.receipts
          ++ record {
            producer = producer;
            request_id = request_id;
            session_id = session;
            revision = revision;
          }
            ∷ [];
      checkpoints = elim checkpoint [
        | none ↦ c.checkpoints
        | some (path, fingerprint) ↦
            upsert path
              (record { fingerprint = fingerprint; session_id = session; revision = revision })
              c.checkpoints
      ];
      raw_sources = elim raw [
        | none ↦ c.raw_sources
        | some r ↦
            if exists (same_raw session revision r) c.raw_sources
            then c.raw_sources
            else c.raw_sources ++ record { session_id = session; revision = revision; raw = r } ∷ []
      ];
      epoch = suc c.epoch;
    }

pub record Ingested : Type 0 where
  pub session_id : String
  pub revision : String
  pub duplicate : Bool

-- A raw file that is named and is not archived.
abbrev pub undurable : (String → ℕ → Bool) → Option Raw → Bool
undurable durable none = false
undurable durable (some raw) = not (durable raw.digest raw.size)
