-- ===== src/Queue/Table.antt =====
-- The rows of the queue's tables, and the SQL statements on table `pending`.
use session_search.Base.{
  ℕ, suc, String, Bool, true, false, ◌&&◌, Option, none, some, List, [], ◌∷◌, ◌++◌, max, ltb,
  if◌then◌else◌, ◌==◌, string_eq, nat_eq, exists,
}
use session_search.Records.{SessionRevision}

-- The description of the raw file that a session was read from.
pub record Raw : Type 0 where
  pub path : String
  pub fingerprint : String
  pub digest : String
  pub size : ℕ

pub record Payload : Type 0 where
  pub request_id : String
  pub expected_revision : Option String
  pub session : SessionRevision
  pub raw : Option Raw

pub data RowState : Type 0 where
  pending conflict rejected : RowState

-- Table `pending`. Times are whole seconds.
pub record Row : Type 0 where
  pub seq : ℕ
  pub request_id : String
  pub session_id : String
  pub revision : String
  pub payload : Payload
  pub attempts : ℕ
  pub next_attempt : ℕ
  pub state : RowState

pub record RawAcknowledgement : Type 0 where
  pub fingerprint : String
  pub digest : String
  pub size : ℕ
  pub session_id : String
  pub revision : String

-- The tables, `pending` in the order of `seq`, and the raw files that are staged for upload as
-- single files (those of `ObjectStore`, by digest).
pub record UploadQueue : Type 0 where
  pub pending : List Row
  pub captured : List (String × String)
  pub acknowledged : List (String × String)
  pub raw_captures : List (String × (String × String))
  pub raw_acknowledgements : List (String × RawAcknowledgement)
  pub files : List String

abbrev pub in_state : RowState → Row → Bool
in_state RowState.pending r = elim r.state [ pending ↦ true | conflict ↦ false | rejected ↦ false ]
in_state RowState.conflict r = elim r.state [ pending ↦ false | conflict ↦ true | rejected ↦ false ]
in_state RowState.rejected r = elim r.state [ pending ↦ false | conflict ↦ false | rejected ↦ true ]

abbrev pub has_request : String → Row → Bool
has_request id r = r.request_id == id

abbrev pub of_session : String → Row → Bool
of_session s r = r.session_id == s

-- `SELECT revision … WHERE session_id=? ORDER BY seq DESC LIMIT 1`
unfoldable pub last_revision : String → List Row → Option String
last_revision s [] = none
last_revision s (r ∷ rs) = elim (last_revision s rs) [
  | some v ↦ some v
  | none ↦ if of_session s r then some r.revision else none
]

-- SQLite gives a new row the number after the largest one in use.
unfoldable pub max_seq : List Row → ℕ
max_seq [] = 0
max_seq (r ∷ rs) = max r.seq (max_seq rs)

abbrev pub next_seq : List Row → ℕ
next_seq rows = suc (max_seq rows)

-- `INSERT OR IGNORE`: `request_id` is unique.
unfoldable pub insert_or_ignore : Row → List Row → List Row
insert_or_ignore row rows =
    if exists (has_request row.request_id) rows then rows else rows ++ row ∷ []

-- `EXISTS(SELECT 1 FROM pending older WHERE older.session_id=p.session_id AND older.seq<p.seq)`
unfoldable pub has_older : Row → List Row → Bool
has_older p rows = exists (λ o. o.session_id == p.session_id && ltb o.seq p.seq) rows

-- `DELETE FROM pending WHERE seq=?`
unfoldable pub delete : ℕ → List Row → List Row
delete n [] = []
delete n (r ∷ rs) = let rest = delete n rs in if r.seq == n then rest else r ∷ rest
