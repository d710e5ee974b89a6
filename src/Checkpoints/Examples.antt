-- ===== src/Checkpoints/Examples.antt =====
-- A cache of 40 bytes whose one entry makes room for another.
use Prim.Native.String
use session_search.Base.{
  ℕ, ◌≡◌, ◌≢◌, arith, ap, is_digest, refl, String, Bool, true, false, Option, some, List, [], ◌∷◌,
  replicate, ◌==◌, nat_eq, string_eq, bytes_eq, string_dec, ℕ_discrete, bytes_dec, codes, all_hex,
  lookup, upsert, without, select,
}
use session_search.Base.Result.{ok}
use session_search.Records.{to_set}
use session_search.Checkpoints.{
  Directory, is_cache, is_staged, entries, sorted, insert, evict, total_size, file_name, replace,
  save, load, stored, encoded, open_lock,
}
use session_search.Checkpoints.Decode.{
  ParseCheckpoint, Stored, max_decoded, check_fields, make_events, check_metadata,
}
use session_search.Checkpoints.Evict.{Apart}
use session_search.Checkpoints.Saved.{Outcome, save-Outcome}
use session_search.Checkpoints.RoundTrip.{Valid, save-load}

abbrev ten : String
ten = "aaaaaaaaaa"

abbrev key : String
key = "aaaaaaaaaaaaaaaaaaaaaaaaaaaaaaaaaaaaaaaaaaaaaaaaaaaaaaaaaaaaaaaa"

abbrev other_name : String
other_name = "bbbbbbbbbbbbbbbbbbbbbbbbbbbbbbbbbbbbbbbbbbbbbbbbbbbbbbbbbbbbbbbb.cache"

abbrev directory : Directory
directory =
    (other_name, record { regular = true; bytes = replicate 20 1; mtime = 5 })
    ∷ (".checkpoint-x", record { regular = true; bytes = 1 ∷ []; mtime = 1 })
    ∷ []

abbrev checkpoint : ParseCheckpoint
checkpoint = record {
  filename = "log.jsonl";
  size = 9;
  sha256 = key;
  lines = 2;
  metadata = [];
  ownership = "[]";
  turn_offset = 4;
  turn_line = 2;
  completed_events = [];
}

abbrev sha256 : List ℕ → List ℕ
sha256 bytes = replicate 32 7

abbrev same : List ℕ → List ℕ
same bytes = bytes

abbrev unpack : ℕ → List ℕ → Option (List ℕ)
unpack limit bytes = some bytes

abbrev print : Stored → List ℕ
print v = 1 ∷ 2 ∷ []

abbrev parse : List ℕ → Option Stored
parse bytes = some (stored "p" key checkpoint)

abbrev any_name : String → String
any_name name = name

abbrev is_list : String → Bool
is_list text = true

abbrev after : Directory
after =
    (".lock", record { regular = true; bytes = []; mtime = 9 })
    ∷ (
      file_name key,
      record { regular = true; bytes = encoded sha256 same (1 ∷ 2 ∷ []); mtime = 9 },
    )
    ∷ []

key-is_cache : is_cache (file_name key) ≡ true
unfolding is_cache codes all_hex bytes_dec ℕ_discrete
key-is_cache = refl

differ : {s t : String} → (String.count s == String.count t) ≡ false → s ≢ t
differ h e = absurd (ground (arith, h, ap String.count e))

directory-Apart : Apart directory
unfolding ℕ_discrete
directory-Apart = ((differ refl, tt), (tt, tt))

save_ok :
    save sha256 same print "p" 40 1000000000 9 false key (some checkpoint) directory ≡ (true, after)
unfolding save entries string_dec is_cache all_hex codes bytes_dec ℕ_discrete is_staged max_decoded
    replace evict sorted insert total_size upsert without select open_lock lookup
save_ok = refl

checkpoint-Valid : Valid any_name is_list ok checkpoint
unfolding check_fields make_events is_digest ℕ_discrete codes all_hex string_dec check_metadata
    to_set
checkpoint-Valid = record { fields = refl; events = refl; distinct = refl }

save-Outcome_example :
    Outcome 40 9
      (file_name key)
      (encoded sha256 same (1 ∷ 2 ∷ []))
      directory
      (save sha256 same print "p" 40 1000000000 9 false key (some checkpoint) directory)
save-Outcome_example =
    save-Outcome sha256 same print "p" 40 1000000000 9 false key checkpoint directory key-is_cache
      directory-Apart

save-load_example :
    (load any_name is_list ok sha256 unpack parse "p" 40 12 key after).0 ≡ some checkpoint
save-load_example =
    save-load any_name is_list ok sha256 same unpack print parse "p" 40 1000000000 9 12 false key
      checkpoint directory after key-is_cache directory-Apart checkpoint-Valid refl refl refl
      save_ok
