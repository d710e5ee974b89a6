-- ===== src/Transfers/Upload/Ends.antt =====
-- The client's loop against the server's appends ends.
use session_search.Base.{
  ℕ, zero, suc, ◌+◌, ◌-◌, ◌≤◌, ◌<◌, ◌≡◌, ◌⊎◌, refl, ap, ◌∙◌, String, Bool, true, false, not, ◌&&◌,
  ◌||◌, inl, inr, none, List, ◌++◌, arith, min, ltb, leb, ◌==◌, nat_eq, string_eq, if◌then◌else◌,
  Bool-cases, length, length-take, length-drop, take, drop, upsert, lookup-upsert, is_digest,
}
use session_search.Base.Result.{Result, ok}
use session_search.Chunks.{Recipe}
use session_search.Transfers.{
  Setting, State, Progress, Surroundings, completed, stem, staged, retire, finish, append, status,
  max_chunk,
}
use session_search.Transfers.Complete.{Held, file-Held}
use session_search.Transfers.Upload.{upload_loop, upload_object}
use session_search.Transfers.Upload.Rounds.{
  loop_end, loop_step, resume, take-take, take-length, take-all,
}

module _ (sha256 : List ℕ → String) (json_size : Recipe → ℕ) (setting : Setting)
    (producer_digest : String → String) where
  module _ (around : Surroundings) (producer key : String) (file : List ℕ) where
    abbrev pub name : String
    name = stem sha256 json_size setting producer_digest producer key

    -- A store of single files that meets no obstacle.
    abbrev pub IsOpen : Type 0
    IsOpen =
        (setting.chunked ≡ false)
        × (around.linked ≡ none)
        × ((n : ℕ) → around.admission n ≡ ok tt)
        × ((n : ℕ) → around.room n ≡ true)

    -- A file that the store takes, under its digest.
    abbrev pub IsDue : Type 0
    IsDue = (sha256 file == key ≡ true) × (is_digest key ≡ true) × (length file ≤ setting.max_size)

    abbrev pub put : ℕ → ℕ → List ℕ → State → Result Progress × State
    put offset total chunk s =
        append sha256 json_size setting producer_digest around producer key offset total chunk s

    abbrev written : List ℕ → State → State
    written content s = record s { partials = upsert name content s.partials }

    append_open :
        (offset : ℕ) (chunk : List ℕ) (s : State)
        → IsOpen
        → IsDue
        → completed sha256 json_size setting key s ≡ false
        → length (staged sha256 json_size setting producer_digest name s) ≡ offset
        → offset + length chunk ≤ length file
        → length chunk ≤ max_chunk
        → (1 ≤ length chunk) ⊎ (offset ≡ length file)
        → put offset (length file) chunk s ≡ (
            if offset + length chunk == length file
            then finish sha256 json_size setting producer_digest around name key
                (length file)
                (staged sha256 json_size setting producer_digest name s ++ chunk)
                (written (staged sha256 json_size setting producer_digest name s ++ chunk) s)
            else (
              ok (record { complete = false; offset = offset + length chunk }),
              written (staged sha256 json_size setting producer_digest name s ++ chunk) s,
            ))
    unfolding append
    append_open offset chunk s clear due fresh at fits small empty =
        let right : not (
              leb offset (length file)
              && (leb (length file) setting.max_size && leb (length chunk) max_chunk))
            ≡ false =
          ground (arith, due.2) in
        let within : ltb (length file) (offset + length chunk)
              || (length chunk == 0 && not (offset == length file))
            ≡ false =
          elim empty [ inl more ↦ ground arith | inr end ↦ ground arith ] in
        let next : not (offset == length (staged sha256 json_size setting producer_digest name s))
            ≡ false =
          ground arith in
        rw (right, within, due.1, fresh, next, clear.2 (length chunk), clear.3 (length chunk), at)
          refl

    finish_open :
        (s : State)
        → IsOpen
        → IsDue
        → finish sha256 json_size setting producer_digest around name key (length file) file s ≡ (
          ok (record { complete = true; offset = length file }),
          retire sha256 json_size setting producer_digest name
              (record s { files = upsert key file s.files }),
        )
    unfolding finish
    finish_open s clear due = rw (due.0, clear.0, clear.1) refl

    staged-written :
        (content : List ℕ) (s : State)
        → staged sha256 json_size setting producer_digest name (written content s) ≡ content
    unfolding staged
    staged-written content s = ground (arith, lookup-upsert name name content s.partials)

    completed-written :
        (content : List ℕ) (s : State)
        → completed sha256 json_size setting key (written content s)
          ≡ completed sha256 json_size setting key s
    unfolding completed
    completed-written content s = refl

    loop-Held :
        (fuel offset : ℕ) (s : State)
        → IsOpen
        → IsDue
        → length file < fuel + offset
        → offset ≤ length file
        → completed sha256 json_size setting key s ≡ false
        → staged sha256 json_size setting producer_digest name s ≡ take offset file
        → (t : State) × (upload_loop fuel put offset file s
            ≡ (ok (record { complete = true; offset = length file }), t))
          × Held sha256 json_size setting name key (length file) t
    loop-Held zero offset s clear due enough within fresh prefix = absurd (omega arith)
    loop-Held (suc fuel) offset s clear due enough within fresh prefix =
        let chunk : List ℕ = take (min max_chunk (length file - offset)) (drop offset file) in
        let old : List ℕ = staged sha256 json_size setting producer_digest name s in
        let size_of : length chunk ≡ min max_chunk (length file - offset) = omega (
          arith,
          length-take (min max_chunk (length file - offset)) (drop offset file),
          length-drop offset file,
        ) in
        let grown : old ++ chunk ≡ take (offset + length chunk) file =
          ap (λ xs. xs ++ chunk) prefix
          ∙ take-take (offset + length chunk) offset (min max_chunk (length file - offset)) file
              (ap (λ n. offset + n) size_of) in
        let at : length old ≡ offset = ap length prefix ∙ omega (arith, length-take offset file) in
        let some_left : (1 ≤ length chunk) ⊎ (offset ≡ length file) =
          elim (Bool-cases (offset == length file)) [
            | inl end ↦ inr (ground arith)
            | inr more ↦ inl (let differ : ¬ (offset ≡ length file) = ground arith in omega arith)
          ] in
        let answer : put offset (length file) chunk s ≡ (
            if offset + length chunk == length file
            then finish sha256 json_size setting producer_digest around name key (length file)
                (old ++ chunk) (written (old ++ chunk) s)
            else (
              ok (record { complete = false; offset = offset + length chunk }),
              written (old ++ chunk) s,
            )) =
          append_open offset chunk s clear due fresh at (omega arith) (omega arith) some_left in
        elim (Bool-cases (offset + length chunk == length file)) [
          | inl last ↦
              let whole : old ++ chunk ≡ file =
                grown ∙ take-all (offset + length chunk) file (ground arith) in
              let u : State = record (written (old ++ chunk) s) {
                files = upsert key file s.files;
              } in
              let e : put offset (length file) chunk s ≡ (
                ok (record { complete = true; offset = length file }),
                retire sha256 json_size setting producer_digest name u,
              ) =
                rw last at answer
                ∙ ap
                    (λ c.
                      finish sha256 json_size setting producer_digest around name key (length file)
                        c (written (old ++ chunk) s))
                    whole
                ∙ finish_open (written (old ++ chunk) s) clear due in
              (
                retire sha256 json_size setting producer_digest name u,
                loop_end fuel offset put file s
                    (retire sha256 json_size setting producer_digest name u) e last,
                file-Held sha256 json_size setting producer_digest name key (length file) file u
                    (ground (arith, lookup-upsert key key file s.files)) due.0 refl,
              )
          | inr more ↦
              let e : put offset (length file) chunk s ≡ (
                ok (record { complete = false; offset = offset + length chunk }),
                written (old ++ chunk) s,
              ) =
                rw more at answer in
              let some_sent : 1 ≤ length chunk =
                (let differ : ¬ (offset + length chunk ≡ length file) = ground arith in
                  omega arith) in
              let ih : (t : State) × (upload_loop fuel put (offset + length chunk) file
                      (written (old ++ chunk) s)
                    ≡ (ok (record { complete = true; offset = length file }), t))
                  × Held sha256 json_size setting name key (length file) t =
                loop-Held fuel (offset + length chunk) (written (old ++ chunk) s) clear due
                  (omega arith) (omega arith) (completed-written (old ++ chunk) s ∙ fresh)
                  (staged-written (old ++ chunk) s ∙ grown) in
              (
                ih.0,
                loop_step fuel offset put file s (written (old ++ chunk) s) e some_sent ∙ ih.1,
                ih.2,
              )
        ]

    abbrev pub ask : Bool → State → Result Progress × State
    ask free s = status sha256 json_size setting producer_digest free producer key s

    status_fresh :
        (free : Bool) (s : State)
        → IsDue
        → completed sha256 json_size setting key s ≡ false
        → ask free s ≡ (
          ok (record {
            complete = false;
            offset = length (staged sha256 json_size setting producer_digest name s);
          }),
          s,
        )
    unfolding status
    status_fresh free s due fresh = rw (due.1, fresh) refl

    -- In a store of single files whose appends meet no obstacle, an upload that finds any prefix of
    -- the file staged and the object absent ends with the answer complete at the length of the
    -- file, the object then verifies with that length, and its partial file is gone.
    pub upload_object-Held :
        (free : Bool) (n : ℕ) (s : State)
        → IsOpen
        → IsDue
        → completed sha256 json_size setting key s ≡ false
        → staged sha256 json_size setting producer_digest name s ≡ take n file
        → (t : State) × (upload_object (ask free) put file s
            ≡ (ok (record { complete = true; offset = length file }), t))
          × Held sha256 json_size setting name key (length file) t
    upload_object-Held free n s clear due fresh prefix =
        let offset : ℕ = length (staged sha256 json_size setting producer_digest name s) in
        let size_of : offset ≡ min n (length file) = ap length prefix ∙ length-take n file in
        let whole : staged sha256 json_size setting producer_digest name s ≡ take offset file =
          prefix ∙ take-length n offset file size_of in
        let fits : leb offset (length file) ≡ true =
          (let le : offset ≤ length file = omega arith in ground arith) in
        let rest : (t : State) × (upload_loop (suc (length file - offset)) put offset file s
              ≡ (ok (record { complete = true; offset = length file }), t))
            × Held sha256 json_size setting name key (length file) t =
          loop-Held (suc (length file - offset)) offset s clear due (omega arith) (omega arith)
            fresh whole in
        (
          rest.0,
          resume (ask free) put file s offset (status_fresh free s due fresh) fits ∙ rest.1,
          rest.2,
        )
