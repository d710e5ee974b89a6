-- ===== src/Records.antt =====
-- src/session_search/core/records.py: the portable records, and the checks that their constructors
-- make. Python's `isinstance` checks are the types of the fields. What `datetime.fromisoformat`
-- makes of a time, `str.strip` and `json.dumps` with `sha256` are parameters.
pub mod Accepted
pub mod Query
mod Examples
use Prim.Native.Nat.{Ordering}
use Prim.Native.String
use session_search.Base.{
  ℕ, String, Bool, true, false, not, ◌&&◌, ◌||◌, Option, none, some, List, [], ◌∷◌, map, leb, ltb,
  if◌then◌else◌, ◌==◌, string_eq, nat_eq, contains, length,
}
use session_search.Base.Result.{Result, ok, err, value_error, ◌>>=◌, ◌>>◌, require}

pub record Event : Type 0 where
  pub event_id : String
  pub role : String
  pub text : String
  pub timestamp : String
  pub origin : String
  pub kind : String

pub record SessionRevision : Type 0 where
  pub session_id : String
  pub events : List Event
  pub source : String
  pub project : String
  pub title : String
  pub parent_session_id : Option String
  pub is_subagent : Bool
  pub parser_version : String

pub record Citation : Type 0 where
  pub session_id : String
  pub revision : String
  pub event_id : String
  pub offset : ℕ

pub record SearchQuery : Type 0 where
  pub text : String
  pub literal : Bool
  pub role : Option String
  pub after : Option String
  pub before : Option String
  pub project : Option String
  pub session_id : Option String
  pub producer : Option String
  pub exclude_sessions : List String
  pub include_subagents : Bool
  pub limit : ℕ
  pub sources : Option (List String)
  pub all_sources : Bool

abbrev pub roles : List String
roles = "user" ∷ "assistant" ∷ "tool" ∷ "context" ∷ []

-- `set(ids)`: one of each.
unfoldable pub to_set : List String → List String
to_set [] = []
to_set (x ∷ xs) = let rest = to_set xs in if contains xs x then rest else x ∷ rest

-- `SessionRevision.__post_init__`
unfoldable pub make_session : SessionRevision → Result SessionRevision
make_session s = do
  require (not (s.session_id == "" || s.source == ""))
  let ids = map (λ (e : Event). e.event_id) s.events
  require (length ids == length (to_set ids))
  ok s

-- `Citation.__post_init__`
unfoldable pub make_citation : Citation → Result Citation
make_citation c = do
  require (not (c.session_id == "" || (c.revision == "" || c.event_id == "")))
  ok c

-- Python's truth of an optional text.
abbrev pub truthy : Option String → Bool
truthy none = false
truthy (some s) = not (s == "")

-- `after >= before`, on texts, that both bounds are given.
unfoldable pub not_before : Option String → Option String → Bool
not_before (some a) (some b) = elim (String.compare a b) [ Ordering.lt ↦ false | _ ↦ true ]
not_before _ _ = false

abbrev pub source_ok : String → Bool
source_ok s = not (s == "") && leb (String.count s) 64

unfoldable pub all : (String → Bool) → List String → Bool
all p [] = true
all p (x ∷ xs) = p x && all p xs

-- Between one and 32 source names, and not together with `all_sources`.
unfoldable pub check_sources : Option (List String) → Bool → Bool
check_sources none all_sources = true
check_sources (some names) all_sources =
    leb 1 (length names) && leb (length names) 32 && all source_ok names && not all_sources

unfoldable pub check_role : Option String → Bool
check_role none = true
check_role (some r) = r == "user" || r == "assistant"

module _ (parse_time : String → Result String) where
  -- `normalize_time`
  unfoldable pub normalize_time : String → Result String
  normalize_time value = if value == "" then ok "" else parse_time value

  -- `Event.__post_init__`
  unfoldable pub make_event : Event → Result Event
  make_event e = do
    require (not (e.event_id == "") && contains roles e.role)
    time ← normalize_time e.timestamp
    ok (record e { timestamp = time })

  -- A bound is normalized if it is given and not empty.
  unfoldable pub normalize_bound : Option String → Result (Option String)
  normalize_bound none = ok none
  normalize_bound (some t) = do time ← if t == "" then ok t else normalize_time t; ok (some time)

  module _ (is_blank : String → Bool) where
    -- `SearchQuery.__post_init__`
    unfoldable pub make_query : SearchQuery → Result SearchQuery
    make_query q = do
      require (check_sources q.sources q.all_sources)
      require (not (is_blank q.text) && leb (String.count q.text) 8192)
      require (check_role q.role)
      require (leb 1 q.limit && leb q.limit 100)
      require (leb (length q.exclude_sessions) 100)
      after ← normalize_bound q.after
      before ← normalize_bound q.before
      require (not (truthy after && truthy before && not_before after before))
      ok (record q { after = after; before = before })
