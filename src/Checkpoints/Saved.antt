-- ===== src/Checkpoints/Saved.antt =====
-- What `save` leaves.
use session_search.Base.{
  ℕ, ◌+◌, ◌*◌, ◌≤◌, ◌≡◌, ◌⊎◌, refl, sym, ap, subst, ◌∙◌, inl, inr, String, Bool, true, false, not,
  some, List, [], ◌∷◌, min, arith, ◌==◌, nat_eq, string_eq, bytes_eq, ltb, length, Bool-cases,
  lookup, lookup_keys, lookup-upsert, upsert, select,
}
use session_search.Base.Result.{Result-cases, ok}
use session_search.Checkpoints.{
  Entry, Directory, is_cache, is_staged, is_leftover, entries, sorted, evict, total_size, file_name,
  replace, save, stored, encoded, open_lock,
}
use session_search.Checkpoints.Decode.{ParseCheckpoint, Stored, max_decoded}
use session_search.Checkpoints.Evict.{
  used, Shrinks, Shrinks-trans, Present, Apart, Evicted, evict-Evicted, All-sorted, Apart-sorted,
}
use session_search.Checkpoints.Lock.{
  Shrunk, Framed, Apart-open_lock, Shrunk-Framed, open_lock-target,
}
use session_search.Checkpoints.Found.{
  is_cache-is_staged, used-select, entries_size, entries-Apart, entries-Present,
}

used-upsert :
    (name : String) (e : Entry) (dir : Directory)
    → used (upsert name e dir) ≤ used dir + length e.bytes
unfolding used upsert
used-upsert name e [] = ground arith
used-upsert name e ((n, x) ∷ dir) = elim (Bool-cases (name == n)) [
  | inl same ↦
      let named : is_cache n ≡ is_cache name = ap is_cache (let t : n ≡ name = ground arith in t) in
      ground (arith, named)
  | inr differ ↦ ground (arith, used-upsert name e dir)
]

Shrinks-select : (keep : String → Bool) (dir : Directory) → Shrinks dir (select (λ p. keep p.0) dir)
Shrinks-select keep dir n = elim (Bool-cases (keep n)) [
  | inl yes_ ↦ inl (ground (arith, lookup_keys n keep dir))
  | inr no_ ↦ inr (ground (arith, lookup_keys n keep dir))
]

-- After True the cache is within its budget and the file of the key holds the bytes; after False
-- that file is as it was.
abbrev pub Ending :
    (Directory → Type 0) → ℕ → ℕ → String → List ℕ → Directory → Bool × Directory → Type 0
Ending Frame budget now target bytes dir (true, after) =
    Frame after
    × (used after ≤ budget)
    × (lookup target after ≡ some (record { regular = true; bytes = bytes; mtime = now }))
Ending Frame budget now target bytes dir (false, after) =
    Frame after × (lookup target after ≡ lookup target dir)

abbrev pub Outcome : ℕ → ℕ → String → List ℕ → Directory → Bool × Directory → Type 0
Outcome budget now target bytes dir = Ending (Framed now target dir) budget now target bytes dir

Ending-map :
    (F G : Directory → Type 0) (budget now : ℕ) (target : String) (bytes : List ℕ)
    (dir opened : Directory)
    → ((after : Directory) → F after → G after)
    → lookup target opened ≡ lookup target dir
    → (r : Bool × Directory) → Ending F budget now target bytes opened r
    → Ending G budget now target bytes dir r
Ending-map F G budget now target bytes dir opened f own (true, after) h = (f after h.0, h.1, h.2)
Ending-map F G budget now target bytes dir opened f own (false, after) h = (f after h.0, h.1 ∙ own)

replace-Outcome :
    (budget now : ℕ) (target : String) (bytes : List ℕ) (found dir : Directory)
    → is_cache target ≡ true
    → Apart dir
    → entries dir ≡ ok found
    → Ending
        (Shrunk target dir)
        budget
        now
        target
        bytes
        dir
        (replace budget now target bytes found dir)
unfolding replace
replace-Outcome budget now target bytes found dir cache apart read =
    let swept : Directory = select (λ p. not (is_leftover p)) dir in
    let call : ℕ × Directory =
      evict budget (length bytes) target (sorted found) (total_size found) swept in
    let gone : Evicted target swept call =
      evict-Evicted budget (length bytes) target (sorted found) (total_size found) swept
        (All-sorted (Present swept) found (entries-Present dir found apart read))
        (Apart-sorted found (entries-Apart dir found apart read))
        (let e : total_size found ≡ used dir = entries_size dir found read in
          omega (arith, e, used-select dir)) in
    let shrunk : Shrinks dir call.1 =
      Shrinks-trans dir swept call.1 (Shrinks-select (λ n. not (is_staged n)) dir) gone.2 in
    let own : lookup target call.1 ≡ lookup target dir =
      gone.1
      ∙ ground (
        arith,
        lookup_keys target (λ n. not (is_staged n)) dir,
        is_cache-is_staged target cache,
      ) in
    let entry : Entry = record { regular = true; bytes = bytes; mtime = now } in
    elim (Bool-cases (ltb budget (call.0 + length bytes))) [
      | inl full ↦
          let out : replace budget now target bytes found dir ≡ (false, call.1) =
            rw (replace, full) refl in
          subst (Ending (Shrunk target dir) budget now target bytes dir) (sym out)
            ((λ n other. shrunk n), own)
      | inr fits ↦
          let out : replace budget now target bytes found dir ≡ (true, upsert target entry call.1) =
            rw (replace, fits) refl in
          subst (Ending (Shrunk target dir) budget now target bytes dir) (sym out) (
            (λ n other. elim (shrunk n) [
              | inl same ↦ inl (ground (arith, lookup-upsert n target entry call.1, same, other))
              | inr none_ ↦ inr (ground (arith, lookup-upsert n target entry call.1, none_, other))
            ]),
            (let bound : used (upsert target entry call.1) ≤ used call.1 + length bytes =
                  used-upsert target entry call.1 in
                let size : used call.1 ≤ call.0 = gone.0 in ground (arith, bound, size, fits)),
            ground (arith, lookup-upsert target target entry call.1),
          )
    ]

module _ (sha256 : List ℕ → List ℕ) (compress : List ℕ → List ℕ) (print : Stored → List ℕ)
    (parser_identity : String) where
  -- `save` gives up before it changes anything, or once it has opened the lock file, or comes to
  -- `replace`.
  pub save_cases :
      (budget free now : ℕ) (locked : Bool) (key : String) (c : ParseCheckpoint) (dir : Directory)
      → (save sha256 compress print parser_identity budget free now locked key (some c) dir
          ≡ (false, dir))
        ⊎ ((save sha256 compress print parser_identity budget free now locked key (some c) dir
              ≡ (false, open_lock now dir))
            ⊎ ((found : Directory) × (entries (open_lock now dir) ≡ ok found)
                × (length (print (stored parser_identity key c)) ≤ max_decoded)
                × (length (encoded sha256 compress (print (stored parser_identity key c)))
                    ≤ min budget max_decoded)
                × (save sha256 compress print parser_identity budget free now locked key
                      (some c)
                      dir
                    ≡ replace budget now
                        (file_name key)
                        (encoded sha256 compress (print (stored parser_identity key c)))
                        found
                        (open_lock now dir))))
  unfolding save
  save_cases budget free now locked key c dir =
      let raw : List ℕ = print (stored parser_identity key c) in
      let bytes : List ℕ = encoded sha256 compress raw in
      elim (Result-cases (entries dir)) [
        | inr (e, failed) ↦ inl (rw (save, failed) refl)
        | inl (found, read) ↦ elim (Bool-cases (ltb max_decoded (length raw))) [
          | inl long ↦ inl (rw (save, read, long) refl)
          | inr short ↦ elim (Bool-cases (ltb (min budget max_decoded) (length bytes))) [
            | inl large ↦ inl (rw (save, read, short, large) refl)
            | inr small ↦ elim (Bool-cases (ltb free (length bytes + 64 * 1024 * 1024))) [
              | inl full ↦ inl (rw (save, read, short, small, full) refl)
              | inr room ↦ elim (Bool-cases locked) [
                | inl held ↦ inr (inl (rw (save, read, short, small, room, held) refl))
                | inr free_ ↦ elim (Result-cases (entries (open_lock now dir))) [
                  | inr (e, failed) ↦
                      inr (inl (rw (save, read, short, small, room, free_, failed) refl))
                  | inl (found', read') ↦ inr (
                      inr (
                        found',
                        read',
                        ground arith,
                        ground arith,
                        rw (save, read, short, small, room, free_, read') refl,
                      ))
                ]
              ]
            ]
          ]
        ]
      ]

  -- In a directory without repeated names, save changes no other file, though it may remove some
  -- and creates .lock where there is none; after True the cache files are together within the
  -- budget and the file of the key holds the encoded checkpoint, and after False that file is as it
  -- was.
  pub save-Outcome :
      (budget free now : ℕ) (locked : Bool) (key : String) (c : ParseCheckpoint) (dir : Directory)
      → is_cache (file_name key) ≡ true
      → Apart dir
      → Outcome budget now
          (file_name key)
          (encoded sha256 compress (print (stored parser_identity key c)))
          dir
          (save sha256 compress print parser_identity budget free now locked key (some c) dir)
  save-Outcome budget free now locked key c dir cache apart =
      let bytes : List ℕ = encoded sha256 compress (print (stored parser_identity key c)) in
      let opened : Directory = open_lock now dir in
      elim (save_cases budget free now locked key c dir) [
        | inl same ↦
            subst (Outcome budget now (file_name key) bytes dir) (sym same)
              ((λ n other. inl refl), refl)
        | inr (inl locked_out) ↦
            subst (Outcome budget now (file_name key) bytes dir) (sym locked_out) (
              Shrunk-Framed now (file_name key) dir opened (λ n other. inl refl),
              open_lock-target now (file_name key) dir cache,
            )
        | inr (inr (found, read, _, _, ran)) ↦
            subst (Outcome budget now (file_name key) bytes dir) (sym ran) (
              Ending-map (Shrunk (file_name key) opened) (Framed now (file_name key) dir) budget now
                (file_name key) bytes dir opened (Shrunk-Framed now (file_name key) dir)
                (open_lock-target now (file_name key) dir cache)
                (replace budget now (file_name key) bytes found opened)
                (replace-Outcome budget now (file_name key) bytes found opened cache
                  (Apart-open_lock now dir apart) read))
      ]
