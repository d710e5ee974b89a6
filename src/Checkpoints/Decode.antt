-- ===== src/Checkpoints/Decode.antt =====
-- `decode`: a cached checkpoint is taken only when every check on it passes. What json and zlib do
-- enters as parameters; the text of a metadata payload is opaque, and none if it is not an object.
use session_search.Base.{
  ℕ, suc, ◌*◌, String, Bool, true, false, not, ◌&&◌, Option, none, some, List, [], ◌∷◌,
  if◌then◌else◌, ◌==◌, nat_eq, string_eq, bytes_eq, contains, ltb, leb, length, take, drop,
  is_digest, map,
}
use session_search.Base.Result.{Result, ok, err, value_error, require, ◌>>=◌, ◌>>◌}
use session_search.Records.{Event, make_event, to_set}

unfoldable pub max_decoded : ℕ
max_decoded = 128 * 1024 * 1024

pub record Metadata : Type 0 where
  pub line : ℕ
  pub record_type : String
  pub payload : Option String

pub record ParseCheckpoint : Type 0 where
  pub filename : String
  pub size : ℕ
  pub sha256 : String
  pub lines : ℕ
  pub metadata : List Metadata
  pub ownership : String
  pub turn_offset : ℕ
  pub turn_line : ℕ
  pub completed_events : List Event

pub record Stored : Type 0 where
  pub version : ℕ
  pub parser : String
  pub key : String
  pub checkpoint : ParseCheckpoint

abbrev pub metadata_types : List String
metadata_types = "session_meta" ∷ "event_msg" ∷ "inter_agent_communication_metadata" ∷ []

abbrev pub has_payload : Metadata → Bool
has_payload m = elim m.payload [ none ↦ false | some p ↦ true ]

-- The loop over the metadata, with `previous`.
unfoldable pub check_metadata : ℕ → ℕ → List Metadata → Bool
check_metadata lines previous [] = true
check_metadata lines previous (m ∷ rest) =
    ltb previous m.line
    && (leb m.line lines
        && (contains metadata_types m.record_type
            && (has_payload m && check_metadata lines m.line rest)))

-- `tuple(Event(**event) for event in …)`
unfoldable pub make_events : (String → Result String) → List Event → Result (List Event)
make_events parse_time [] = ok []
make_events parse_time (e ∷ es) = elim (make_event parse_time e) [
  | err x ↦ err x
  | ok e' ↦ elim (make_events parse_time es) [ err x ↦ err x | ok es' ↦ ok (e' ∷ es') ]
]

module _ (base_name : String → String) (is_list : String → Bool) where
  -- The checks on the fields.
  unfoldable pub check_fields : ParseCheckpoint → Bool
  check_fields c =
      ltb 0 c.turn_line
      && (leb c.turn_line c.lines
          && (ltb c.turn_offset c.size
              && (is_digest c.sha256
                  && (base_name c.filename == c.filename
                      && (is_list c.ownership && check_metadata c.lines 0 c.metadata)))))

  -- `decode`, behind its decompression.
  unfoldable pub decode_value :
      (String → Result String) → String → String → Stored → Result ParseCheckpoint
  decode_value parse_time parser_identity key value = do
    require (value.version == 1 && (value.parser == parser_identity && value.key == key))
    require (check_fields value.checkpoint)
    events ← make_events parse_time value.checkpoint.completed_events
    let ids = map (λ (e : Event). e.event_id) events
    require (length (to_set ids) == length events)
    ok (record value.checkpoint { completed_events = events })

  unfoldable pub decode :
      (String → Result String)
      → (List ℕ → List ℕ)
      → (ℕ → List ℕ → Option (List ℕ))
      → (List ℕ → Option Stored)
      → String
      → List ℕ
      → String
      → Result ParseCheckpoint
  decode parse_time sha256 decompress parse parser_identity bytes key =
      if ltb (length bytes) 32
      then err value_error
      else elim (decompress (suc max_decoded) (drop 32 bytes)) [
        | none ↦ err value_error
        | some raw ↦
            if ltb max_decoded (length raw)
            then err value_error
            else if not (sha256 raw == take 32 bytes)
            then err value_error
            else elim (parse raw) [
              | none ↦ err value_error
              | some value ↦ decode_value parse_time parser_identity key value
            ]
      ]
