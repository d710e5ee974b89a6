-- ===== src/Transfers/Examples.antt =====
-- Uploads of a file of three bytes.
use session_search.Base.{
  ℕ, ◌≡◌, ◌⊎◌, refl, String, true, false, none, List, [], ◌∷◌, arith, lookup, is_digest, length,
  ℕ_discrete, codes, all_hex, string_dec, string_eq,
}
use session_search.Base.Result.{ok}
use session_search.Chunks.{Recipe}
use session_search.Transfers.{
  Setting, State, Progress, Surroundings, completed, staged, finish, append,
}
use session_search.Transfers.Complete.{Held}
use session_search.Transfers.Append.{Staged, append-Staged, name_of}
use session_search.Transfers.Upload.{upload_object}
use session_search.Transfers.Upload.Ends.{upload_object-Held, ask, put, name}

abbrev digest : String
digest = "0123456789abcdef0123456789abcdef0123456789abcdef0123456789abcdef"

abbrev sha256 : List ℕ → String
sha256 content = digest

abbrev json_size : Recipe → ℕ
json_size r = 100

abbrev setting : Setting
setting = record { raw = true; chunked = false; max_size = 1000 }

abbrev producer_digest : String → String
producer_digest producer = producer

abbrev clear : Surroundings
clear = record { admission = λ n. ok tt; room = λ n. true; changed = false; linked = none }

abbrev file : List ℕ
file = 7 ∷ 8 ∷ 9 ∷ []

abbrev before : State
before = record {
  partials =
      ("laptop-0123456789abcdef0123456789abcdef0123456789abcdef0123456789abcdef", 7 ∷ []) ∷ [];
  files = [];
  shared = record { chunks = []; recipes = [] };
}

abbrev chunk : List ℕ
chunk = 8 ∷ 9 ∷ []

abbrev done : Progress
done = record { complete = true; offset = 3 }

append_ends :
    (append sha256 json_size setting producer_digest clear "laptop" digest 1 3 chunk before).0
    ≡ ok done
unfolding append ℕ_discrete is_digest codes all_hex completed lookup staged string_dec finish
append_ends = refl

append-Staged_example :
    ((done ≡ record { complete = true; offset = 3 })
      × Held sha256 json_size setting
          (name_of sha256 json_size setting producer_digest "laptop" digest)
          digest
          3
          (append sha256 json_size setting producer_digest clear "laptop" digest 1 3 chunk
            before).1)
    ⊎ Staged sha256 json_size setting producer_digest "laptop" digest 1 3 chunk done before
        (append sha256 json_size setting producer_digest clear "laptop" digest 1 3 chunk before).1
append-Staged_example =
    append-Staged sha256 json_size setting producer_digest clear "laptop" digest 1 3 chunk before
      done (λ h. absurd (ground arith)) (λ cs h. omega arith) append_ends

upload_object-Held_example :
    (t : State) × (upload_object
        (ask sha256 json_size setting producer_digest clear "laptop" digest file true)
        (put sha256 json_size setting producer_digest clear "laptop" digest file)
        file
        before
      ≡ (ok (record { complete = true; offset = length file }), t))
    × Held sha256 json_size setting
        (name sha256 json_size setting producer_digest clear "laptop" digest file)
        digest
        (length file)
        t
unfolding completed lookup staged string_dec is_digest codes all_hex ℕ_discrete
upload_object-Held_example =
    upload_object-Held sha256 json_size setting producer_digest clear "laptop" digest file true 1
      before (refl, refl, λ n. refl, λ n. refl) (refl, refl, omega arith) refl refl
