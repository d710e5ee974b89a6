-- ===== src/Records/Examples.antt =====
-- The constructors on concrete records.
use session_search.Base.{
  ◌≡◌, ◌↔◌, ◌⊎◌, refl, String, Bool, false, none, some, List, [], ◌∷◌, ◌==◌, string_eq, string_dec,
  ℕ_discrete,
}
use session_search.Base.Result.{ok, err, value_error}
use session_search.Records.{
  Event, SessionRevision, SearchQuery, make_session, make_query, normalize_bound, normalize_time,
  check_sources, check_role, not_before, all, to_set,
}
use session_search.Records.Accepted.{IsSession, make_session_iff}
use session_search.Records.Query.{IsQuery, Normalized, make_query-IsQuery}

abbrev event : String → Event
event id = record {
  event_id = id;
  role = "user";
  text = "hello";
  timestamp = "";
  origin = "user";
  kind = "message";
}

abbrev session : List Event → SessionRevision
session events = record {
  session_id = "s1";
  events = events;
  source = "codex";
  project = "/work";
  title = "";
  parent_session_id = none;
  is_subagent = false;
  parser_version = "codex-v1";
}

abbrev query : SearchQuery
query = record {
  text = "lock";
  literal = false;
  role = some "user";
  after = some "2026-01-01";
  before = some "2026-02-01";
  project = none;
  session_id = none;
  producer = none;
  exclude_sessions = [];
  include_subagents = false;
  limit = 10;
  sources = some ("codex" ∷ []);
  all_sources = false;
}

repeated_event :
    make_session (session (event "e1" ∷ event "e2" ∷ event "e1" ∷ [])) ≡ err value_error
unfolding make_session to_set string_dec ℕ_discrete
repeated_event = refl

make_session_iff_example :
    ((make_session (session (event "e1" ∷ event "e2" ∷ []))
        ≡ ok (session (event "e1" ∷ event "e2" ∷ [])))
      ↔ IsSession (session (event "e1" ∷ event "e2" ∷ [])))
    × ((make_session (session (event "e1" ∷ event "e2" ∷ []))
          ≡ ok (session (event "e1" ∷ event "e2" ∷ [])))
        ⊎ (make_session (session (event "e1" ∷ event "e2" ∷ [])) ≡ err value_error))
make_session_iff_example = make_session_iff (session (event "e1" ∷ event "e2" ∷ []))

abbrev is_empty : String → Bool
is_empty s = s == ""

query_accepted : make_query ok is_empty query ≡ ok query
unfolding make_query check_sources check_role normalize_bound normalize_time not_before all
    string_dec
query_accepted = refl

make_query-IsQuery_example : (make_query ok is_empty query ≡ ok query) ↔ (
    (query ≡ record query { after = query.after; before = query.before })
    × Normalized ok query.after query.after
    × Normalized ok query.before query.before
    × IsQuery is_empty query)
make_query-IsQuery_example = make_query-IsQuery ok is_empty query query
