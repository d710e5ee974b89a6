-- ===== src/Catalog/Examples.antt =====
-- A catalog with two revisions of one session: the second drops an event and adds another.
use session_search.Base.{
  string_eq, without, ℕ, ◌≡◌, refl, String, Bool, true, false, Option, none, some, List, [], ◌∷◌,
  ◌++◌, ◌⊎◌, string_dec, ℕ_discrete, find, select, lookup, upsert, exists,
}
use session_search.Base.Result.{Result, ok, err, value_error}
use session_search.Records.{Event, SessionRevision, to_set}
use session_search.Records.Accepted.{Distinct, event_ids, to_set-Distinct}
use session_search.Catalog.{ingest, transaction, new_revision, insert_events, insert_event}
use session_search.Catalog.Tables.{
  Catalog, Raw, Ingested, RevisionRow, revision_row, active_rows, add_evidence, next_row,
  acknowledge, row_of, add_alias, aliased, head_row,
}
use session_search.Base.Framed.{framed}
use session_search.Catalog.Evidence.{Keeps, row_at}
use session_search.Catalog.Read.{fingerprint, has_raw, read_events, export_revision}
use session_search.Catalog.Reading.{read_events-Holds}
use session_search.Catalog.Stored.{IsWhole, ingest-IsWhole}
use session_search.Catalog.Export.{export_revision-IsWhole, ingest-export_revision}
use session_search.Catalog.Indexed.{IsIndexed}
use session_search.Catalog.Indexing.{ingest-IsIndexed}
use session_search.Catalog.Receipts.{ingest_again}
use session_search.Catalog.Sources.{
  configure_sources, set_defaults, set_default, check_defaults, latest, configure_sources_lem,
}
use session_search.Catalog.Digests.{
  plain_event_digest, plain_event_digest-IsInjective, plain_session_digest,
  plain_session_digest_apart, events_text, parent_text,
}

abbrev event : String → String → Event
event id text = record {
  event_id = id;
  role = "user";
  text = text;
  timestamp = "";
  origin = "user";
  kind = "message";
}

abbrev session : List Event → SessionRevision
session events = record {
  session_id = "s";
  events = events;
  source = "codex";
  project = "/work";
  title = "";
  parent_session_id = none;
  is_subagent = false;
  parser_version = "codex-v1";
}

abbrev first_revision : SessionRevision
first_revision = session (event "a" "one" ∷ event "b" "two" ∷ [])

abbrev second_revision : SessionRevision
second_revision = session (event "b" "two" ∷ event "c" "three" ∷ [])

abbrev empty : Catalog
empty = record {
  readonly = false;
  revisions = [];
  heads = [];
  evidence = [];
  active = [];
  evidence_fts = [];
  producers = [];
  receipts = [];
  checkpoints = [];
  raw_sources = [];
  project_aliases = [];
  epoch = 0;
}

abbrev archived : String → ℕ → Bool
archived digest size = true

abbrev raw_file : Raw
raw_file = record { digest = "d"; size = 4; path = "/log"; fingerprint = "f" }

abbrev send : String → SessionRevision → Catalog → Result (Ingested × Catalog)
send request_id s =
    ingest plain_event_digest plain_session_digest archived s "laptop" request_id
      (some ("/log", "f")) (some raw_file)

abbrev outcome : Result (Ingested × Catalog) → Catalog
outcome (ok (answer, c)) = c
outcome (err e) = empty

abbrev with_one : Catalog
with_one = outcome (send "1" first_revision empty)

abbrev with_two : Catalog
with_two = outcome (send "2" second_revision with_one)

abbrev answered : SessionRevision → Bool → Ingested
answered s seen = record {
  session_id = s.session_id;
  revision = plain_session_digest s;
  duplicate = seen;
}

send_first : send "1" first_revision empty ≡ ok (answered first_revision false, with_one)
unfolding ingest string_dec transaction find revision_row new_revision insert_events insert_event
    active_rows select lookup ℕ_discrete add_evidence plain_event_digest framed next_row acknowledge
    row_of upsert exists add_alias aliased head_row plain_session_digest events_text parent_text
send_first = refl

send_second : send "2" second_revision with_one ≡ ok (answered second_revision false, with_two)
unfolding ingest string_dec transaction find revision_row new_revision insert_events insert_event
    active_rows select lookup ℕ_discrete add_evidence plain_event_digest framed next_row acknowledge
    row_of upsert exists add_alias aliased head_row plain_session_digest events_text parent_text
send_second = refl

first_revision-Distinct : Distinct (event_ids first_revision)
unfolding to_set string_dec
first_revision-Distinct = to_set-Distinct (event_ids first_revision) refl

second_revision-Distinct : Distinct (event_ids second_revision)
unfolding to_set string_dec
second_revision-Distinct = to_set-Distinct (event_ids second_revision) refl

with_one-IsWhole : IsWhole plain_event_digest plain_session_digest with_one
with_one-IsWhole =
    (ingest-IsWhole plain_event_digest plain_session_digest archived first_revision "laptop" "1"
      (some ("/log", "f")) (some raw_file) empty with_one (answered first_revision false)
      plain_event_digest-IsInjective first_revision-Distinct (tt, tt, tt) send_first).0

ingest-IsWhole_example :
    IsWhole plain_event_digest plain_session_digest with_two
    × Keeps with_one.evidence with_two.evidence
    × ((with_two.revisions ≡ with_one.revisions)
        ⊎ ((r : RevisionRow) × (with_two.revisions ≡ with_one.revisions ++ r ∷ [])))
ingest-IsWhole_example =
    ingest-IsWhole plain_event_digest plain_session_digest archived second_revision "laptop" "2"
      (some ("/log", "f")) (some raw_file) with_one with_two (answered second_revision false)
      plain_event_digest-IsInjective second_revision-Distinct with_one-IsWhole send_second

empty-IsIndexed : IsIndexed empty
unfolding lookup exists
empty-IsIndexed = (tt, λ i. refl)

with_one-IsIndexed : IsIndexed with_one
with_one-IsIndexed =
    ingest-IsIndexed plain_event_digest plain_session_digest archived first_revision "laptop" "1"
      (some ("/log", "f")) (some raw_file) empty with_one (answered first_revision false)
      plain_event_digest-IsInjective tt empty-IsIndexed send_first

ingest-IsIndexed_example : IsIndexed with_two
ingest-IsIndexed_example =
    ingest-IsIndexed plain_event_digest plain_session_digest archived second_revision "laptop" "2"
      (some ("/log", "f")) (some raw_file) with_one with_two (answered second_revision false)
      plain_event_digest-IsInjective with_one-IsWhole.0 with_one-IsIndexed send_second

ingest-export_revision_example :
    export_revision "s" (plain_session_digest second_revision) with_two ≡ ok second_revision
ingest-export_revision_example =
    ingest-export_revision plain_event_digest plain_session_digest archived second_revision "laptop"
      "2" (some ("/log", "f")) (some raw_file) with_one with_two (answered second_revision false)
      plain_event_digest-IsInjective plain_session_digest_apart second_revision-Distinct
      with_one-IsWhole send_second

abbrev the_row : Option RevisionRow → RevisionRow
the_row (some r) = r
the_row none = row_of "" first_revision []

abbrev one_row : RevisionRow
one_row = the_row (revision_row "s" (plain_session_digest first_revision) with_one.revisions)

one_row_found :
    revision_row "s" (plain_session_digest first_revision) with_one.revisions ≡ some one_row
unfolding ingest string_dec transaction find revision_row new_revision insert_events insert_event
    active_rows select lookup ℕ_discrete add_evidence plain_event_digest framed next_row acknowledge
    row_of upsert exists add_alias aliased head_row plain_session_digest events_text parent_text
one_row_found = refl

export_revision-IsWhole_example :
    (s : SessionRevision) × (export_revision "s" (plain_session_digest first_revision) with_one
      ≡ ok s)
    × (s.session_id ≡ "s")
    × (plain_session_digest s ≡ plain_session_digest first_revision)
export_revision-IsWhole_example =
    export_revision-IsWhole plain_event_digest plain_session_digest "s"
      (plain_session_digest first_revision) with_one one_row with_one-IsWhole one_row_found

read_events-Holds_example : read_events (1 ∷ 2 ∷ []) with_one.evidence ≡ ok first_revision.events
unfolding ingest string_dec transaction find revision_row new_revision insert_events insert_event
    active_rows select lookup ℕ_discrete add_evidence plain_event_digest framed next_row acknowledge
    row_of upsert exists add_alias aliased head_row plain_session_digest events_text parent_text
    row_at
read_events-Holds_example =
    read_events-Holds plain_event_digest with_one.evidence "s" (1 ∷ 2 ∷ []) first_revision.events
      with_one-IsWhole.0 first_revision-Distinct
      ((_, refl, refl, refl), ((_, refl, refl, refl), tt))

ingest_again_example : send "1" second_revision with_one ≡ err value_error
unfolding ingest string_dec transaction find revision_row new_revision insert_events insert_event
    active_rows select lookup ℕ_discrete add_evidence plain_event_digest framed next_row acknowledge
    row_of upsert exists add_alias aliased head_row plain_session_digest events_text parent_text
ingest_again_example =
    ingest_again plain_event_digest plain_session_digest archived archived first_revision
      second_revision "laptop" "1" (some ("/log", "f")) (some ("/log", "f")) (some raw_file)
      (some raw_file) empty with_one (answered first_revision false) send_first refl

sources_set :
    configure_sources false (("pi-dev", false) ∷ ("codex", true) ∷ []) (("pi-dev", true) ∷ []) 4
    ≡ ok (("pi-legacy", false) ∷ ("codex", true) ∷ [], 5)
unfolding configure_sources set_defaults set_default check_defaults upsert without string_dec
    ℕ_discrete
sources_set = refl

abbrev before : List (String × Bool)
before = ("pi-dev", true) ∷ []

abbrev after : List (String × Bool)
after = ("pi-legacy", false) ∷ ("codex", true) ∷ []

abbrev defaults : List (String × Bool)
defaults = ("pi-dev", false) ∷ ("codex", true) ∷ []

configure_sources_lem_example :
    (lookup "pi-legacy" after ≡ latest "pi-legacy" defaults (lookup "pi-legacy" before))
    × Path ℕ 5 5
unfolding string_dec
configure_sources_lem_example =
    configure_sources_lem false defaults before after 4 5 "pi-legacy" sources_set refl

checkpoint_kept : (fingerprint "/log" with_one ≡ some "f") × (has_raw "/log" "f" with_one ≡ true)
unfolding fingerprint has_raw ingest string_dec transaction find revision_row new_revision
    insert_events insert_event active_rows select lookup ℕ_discrete add_evidence plain_event_digest
    framed next_row acknowledge row_of upsert exists add_alias aliased head_row plain_session_digest
    events_text parent_text
checkpoint_kept = (refl, refl)
