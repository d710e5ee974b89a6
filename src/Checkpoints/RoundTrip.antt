-- ===== src/Checkpoints/RoundTrip.antt =====
-- A checkpoint that has been saved is loaded again.
use session_search.Base.{
  All-without, All-upsert, ℕ, zero, suc, ◌+◌, ◌-◌, ◌≤◌, ◌≡◌, refl, sym, ap, subst, ◌∙◌, inl, inr,
  ℕ_discrete, String, Bool, true, false, not, ◌||◌, Option, some, List, [], ◌∷◌, ◌++◌, min, map,
  arith, ◌==◌, nat_eq, string_eq, bytes_eq, ltb, leb, length, length-append, take, drop, All,
  All-select, Bool-cases, lookup, without, select,
}
use session_search.Base.Result.{Result, Result-cases, ok}
use session_search.Records.{Event, to_set}
use session_search.Checkpoints.{
  Entry, Directory, is_cache, is_staged, is_leftover, entries, sorted, evict, total_size, file_name,
  replace, save, load, stored, encoded, open_lock,
}
use session_search.Checkpoints.Decode.{
  ParseCheckpoint, Stored, max_decoded, check_fields, make_events, decode, decode_value,
}
use session_search.Checkpoints.Evict.{Apart}
use session_search.Checkpoints.Saved.{Outcome, save-Outcome, save_cases}

-- What `_entries` accepts.
abbrev Fine : String × Entry → Type 0
Fine p = (p.1.regular ≡ true) × ((p.0 == ".lock" || (is_cache p.0 || is_staged p.0)) ≡ true)

entries-Fine : (dir found : Directory) → entries dir ≡ ok found → All Fine dir
unfolding entries
entries-Fine [] found h = tt
entries-Fine ((name, e) ∷ dir) found h = elim (Result-cases (entries dir)) [
  | inl (rest, read) ↦ ((ground arith, ground arith), entries-Fine dir rest read)
  | inr (x, failed) ↦ absurd (ground arith)
]

Fine-entries : (dir : Directory) → All Fine dir → (found : Directory) × (entries dir ≡ ok found)
unfolding entries
Fine-entries [] h = ([], refl)
Fine-entries ((name, e) ∷ dir) h =
    let (rest, read) = Fine-entries dir h.1 in
    elim (Bool-cases (name == ".lock")) [
      | inl lock ↦ (rest, ground (arith, read, h.0.0, lock))
      | inr other ↦ elim (Bool-cases (is_cache name)) [
        | inl cache ↦ ((name, e) ∷ rest, ground (arith, read, h.0.0, other, cache))
        | inr plain ↦ (rest, ground (arith, read, h.0.0, other, plain, h.0.1))
      ]
    ]

evict-All {κ} :
    (P : String × Entry → Type κ) (budget needed : ℕ) (target : String) (olds : Directory)
    (total : ℕ) (dir : Directory)
    → All P dir
    → All P (evict budget needed target olds total dir).1
unfolding evict
evict-All P budget needed target [] total dir h = h
evict-All P budget needed target ((name, e) ∷ olds) total dir h =
    elim (Bool-cases (leb (total + needed) budget)) [
      | inl fits ↦ rw fits h
      | inr full ↦ elim (Bool-cases (name == target)) [
        | inl own ↦ rw (full, own) (evict-All P budget needed target olds total dir h)
        | inr other ↦
            rw (full, other)
              (evict-All P budget needed target olds (total - length e.bytes) (without name dir)
                (All-without P name dir h))
      ]
    ]

replace-Fine :
    (budget now : ℕ) (target : String) (bytes : List ℕ) (found dir : Directory)
    → is_cache target ≡ true
    → All Fine dir
    → All Fine (replace budget now target bytes found dir).1
unfolding replace
replace-Fine budget now target bytes found dir cache fine =
    let swept : Directory = select (λ p. not (is_leftover p)) dir in
    let call : ℕ × Directory =
      evict budget (length bytes) target (sorted found) (total_size found) swept in
    let left : All Fine call.1 =
      evict-All Fine budget (length bytes) target (sorted found) (total_size found) swept
        (All-select Fine (λ p. not (is_leftover p)) dir fine) in
    elim (Bool-cases (ltb budget (call.0 + length bytes))) [
      | inl full ↦ rw (replace, full) left
      | inr fits ↦
          rw (replace, fits)
            (All-upsert Fine target (record { regular = true; bytes = bytes; mtime = now }) call.1
              (refl, ground (arith, cache)) left)
    ]

drop-append : (n : ℕ) (a b : List ℕ) → length a ≡ n → drop n (a ++ b) ≡ b
drop-append zero [] b h = refl
drop-append (suc n) [] b h = absurd (omega arith)
drop-append zero (x ∷ a) b h = absurd (omega arith)
drop-append (suc n) (x ∷ a) b h = drop-append n a b (omega arith)

take-append : (n : ℕ) (a b : List ℕ) → length a ≡ n → take n (a ++ b) ≡ a
take-append zero [] b h = refl
take-append (suc n) [] b h = absurd (omega arith)
take-append zero (x ∷ a) b h = absurd (omega arith)
take-append (suc n) (x ∷ a) b h = ap (◌∷◌ x) (take-append n a b (omega arith))

-- The checks that `decode` makes of a checkpoint, and that leave its events as they are.
pub record Valid (base_name : String → String) (is_list : String → Bool)
    (parse_time : String → Result String) (c : ParseCheckpoint) : Type 0 where
  pub fields : check_fields base_name is_list c ≡ true
  pub events : make_events parse_time c.completed_events ≡ ok c.completed_events
  pub distinct :
      length (to_set (map (λ (e : Event). e.event_id) c.completed_events))
      ≡ length c.completed_events

module _ (base_name : String → String) (is_list : String → Bool)
    (parse_time : String → Result String) (sha256 compress : List ℕ → List ℕ)
    (decompress : ℕ → List ℕ → Option (List ℕ)) (print : Stored → List ℕ)
    (parse : List ℕ → Option Stored) (parser_identity : String) where
  decode_value_lem :
      (key : String) (c : ParseCheckpoint)
      → Valid base_name is_list parse_time c
      → decode_value base_name is_list parse_time parser_identity key (stored parser_identity key c)
        ≡ ok c
  unfolding decode_value ℕ_discrete
  decode_value_lem key c valid = ground (arith, valid.fields, valid.events, valid.distinct)

  decode_lem :
      (key : String) (c : ParseCheckpoint) (raw : List ℕ)
      → Valid base_name is_list parse_time c
      → length (sha256 raw) ≡ 32
      → length raw ≤ max_decoded
      → decompress (suc max_decoded) (compress raw) ≡ some raw
      → parse raw ≡ some (stored parser_identity key c)
      → decode base_name is_list parse_time sha256 decompress parse parser_identity
          (encoded sha256 compress raw)
          key
        ≡ ok c
  unfolding decode
  decode_lem key c raw valid digest short unpacked parsed =
      let long : ltb (length (sha256 raw ++ compress raw)) 32 ≡ false =
        ground (arith, length-append (sha256 raw) (compress raw), digest) in
      let within : ltb max_decoded (length raw) ≡ false = ground arith in
      let same : (sha256 raw == take 32 (sha256 raw ++ compress raw)) ≡ true =
        ground (arith, take-append 32 (sha256 raw) (compress raw) digest) in
      rw
        (
          decode,
          long,
          drop-append 32 (sha256 raw) (compress raw) digest,
          unpacked,
          within,
          same,
          parsed,
        )
        (decode_value_lem key c valid)

  -- In a directory without repeated names, and when zlib and json give back what they were given
  -- and a digest has 32 bytes: after save has answered True for a checkpoint that passes the checks
  -- of decode and whose events are already normalized, load with the same budget gives that
  -- checkpoint back.
  pub save-load :
      (budget free now later : ℕ) (locked : Bool) (key : String) (c : ParseCheckpoint)
      (dir after : Directory)
      → is_cache (file_name key) ≡ true
      → Apart dir
      → Valid base_name is_list parse_time c
      → length (sha256 (print (stored parser_identity key c))) ≡ 32
      → decompress (suc max_decoded) (compress (print (stored parser_identity key c)))
        ≡ some (print (stored parser_identity key c))
      → parse (print (stored parser_identity key c)) ≡ some (stored parser_identity key c)
      → save sha256 compress print parser_identity budget free now locked key (some c) dir
        ≡ (true, after)
      → (load base_name is_list parse_time sha256 decompress parse parser_identity budget later key
          after).0
        ≡ some c
  unfolding load
  save-load budget free now later locked key c dir after cache apart valid digest unpacked parsed
        h =
      let raw : List ℕ = print (stored parser_identity key c) in
      let bytes : List ℕ = encoded sha256 compress raw in
      let kept : Outcome budget now (file_name key) bytes dir (true, after) =
        subst (Outcome budget now (file_name key) bytes dir) h (
          save-Outcome sha256 compress print parser_identity budget free now locked key c dir cache
            apart) in
      let there : lookup (file_name key) after
          ≡ some (record { regular = true; bytes = bytes; mtime = now }) =
        kept.2 in
      elim (save_cases sha256 compress print parser_identity budget free now locked key c dir) [
        | inl same ↦
            absurd (
              let t : (false, dir) ≡ (true, after) = sym same ∙ h in
              ground (arith, ap (λ p. p.0) t))
        | inr (inl same) ↦ absurd (
            let t : (false, open_lock now dir) ≡ (true, after) = sym same ∙ h in
            ground (arith, ap (λ p. p.0) t))
        | inr (inr (found, read, short, small, ran)) ↦
            let fine : All Fine after =
              subst (λ (p : Bool × Directory). All Fine p.1) (sym ran ∙ h)
                (replace-Fine budget now (file_name key) bytes found (open_lock now dir) cache
                  (entries-Fine (open_lock now dir) found read)) in
            let (found', read') = Fine-entries after fine in
            let size : ltb (min budget max_decoded) (length bytes) ≡ false = ground arith in
            let decoded : decode base_name is_list parse_time sha256 decompress parse
                  parser_identity bytes key
                ≡ ok c =
              decode_lem key c raw valid digest short unpacked parsed in
            rw (load, read', there, size, decoded) refl
      ]
