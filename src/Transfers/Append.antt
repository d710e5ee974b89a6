-- ===== src/Transfers/Append.antt =====
-- What an append that succeeds has done.
use session_search.Base.{
  ℕ, ◌+◌, ◌≤◌, ◌<◌, ◌≡◌, ◌⊎◌, refl, sym, ap, subst, ◌∙◌, String, true, false, not, ◌&&◌, ◌||◌, inl,
  inr, none, List, ◌++◌, arith, ltb, leb, ◌==◌, nat_eq, string_eq, if◌then◌else◌, Bool-cases,
  length, length-append, lookup, upsert, lookup-without, is_digest,
}
use session_search.Base.Result.{Result, Result-cases, ok}
use session_search.Chunks.{Recipe}
use session_search.Transfers.{
  Setting, State, Progress, Surroundings, completed, verify, size, matches, stem, staged, retire,
  finish, append, max_chunk,
}
use session_search.Transfers.Complete.{Held, Short, finish-Held}

module _ (sha256 : List ℕ → String) (json_size : Recipe → ℕ) (setting : Setting)
    (producer_digest : String → String) where
  abbrev pub name_of : String → String → String
  name_of producer key = stem sha256 json_size setting producer_digest producer key

  abbrev pub content_of : String → String → List ℕ → State → List ℕ
  content_of producer key chunk s =
      staged sha256 json_size setting producer_digest (name_of producer key) s ++ chunk

  -- The chunk is staged behind what was there, and nothing else has changed.
  abbrev pub Staged : String → String → ℕ → ℕ → List ℕ → Progress → State → State → Type 0
  Staged producer key offset total chunk p s t =
      (p ≡ record { complete = false; offset = offset + length chunk })
      × (offset + length chunk < total)
      × (t ≡ record s {
        partials = upsert (name_of producer key) (content_of producer key chunk s) s.partials;
      })
      × (offset ≡ length (staged sha256 json_size setting producer_digest (name_of producer key) s))

  matches-Held :
      (name key : String) (total : ℕ) (s : State)
      → matches sha256 json_size setting key total s ≡ true
      → Held sha256 json_size setting name key total
          (retire sha256 json_size setting producer_digest name s)
  unfolding matches verify size
  matches-Held name key total s h = elim (Result-cases (size sha256 json_size setting key s)) [
    | inl (n, sized) ↦ (
      ground arith,
      sized ∙ ap ok (ground arith),
      ground (arith, lookup-without name name s.partials),
    )
    | inr (e, failed) ↦ absurd (ground arith)
  ]

  completed-none :
      (key : String) (s : State)
      → completed sha256 json_size setting key s ≡ false
      → lookup key s.files ≡ none
  unfolding completed
  completed-none key s h = ground arith

  abbrev outcome : Surroundings → String → String → ℕ → ℕ → List ℕ → State → Result Progress × State
  outcome around producer key offset total chunk s =
      append sha256 json_size setting producer_digest around producer key offset total chunk s

  abbrev written : String → String → List ℕ → State → State
  written producer key chunk s = record s {
    partials = upsert (name_of producer key) (content_of producer key chunk s) s.partials;
  }

  -- What a successful append has come to, past all its checks.
  accepted :
      (around : Surroundings) (producer key : String) (offset total : ℕ) (chunk : List ℕ)
      (s : State) (p : Progress)
      → (outcome around producer key offset total chunk s).0 ≡ ok p
      → ((matches sha256 json_size setting key total s ≡ true)
          × (outcome around producer key offset total chunk s ≡ (
            ok (record { complete = true; offset = total }),
            retire sha256 json_size setting producer_digest (name_of producer key) s,
          )))
        ⊎ ((completed sha256 json_size setting key s ≡ false)
            × (offset
                ≡ length (staged sha256 json_size setting producer_digest (name_of producer key) s))
            × (offset + length chunk ≤ total)
            × (outcome around producer key offset total chunk s ≡ (
                if length (staged sha256 json_size setting producer_digest (name_of producer key) s)
                    + length chunk
                  == total
                then finish sha256 json_size setting producer_digest around
                    (name_of producer key)
                    key
                    total
                    (content_of producer key chunk s)
                    (written producer key chunk s)
                else (
                  ok (record {
                    complete = false;
                    offset =
                        length
                          (staged sha256 json_size setting producer_digest (name_of producer key) s)
                        + length chunk;
                  }),
                  written producer key chunk s,
                ))))
  unfolding append
  accepted around producer key offset total chunk s p h =
      let old : List ℕ = staged sha256 json_size setting producer_digest (name_of producer key) s in
      elim (Bool-cases
        (not (leb offset total && (leb total setting.max_size && leb (length chunk) max_chunk)))) [
          | inl bad ↦ absurd (ground arith)
          | inr right ↦
              elim (Bool-cases (
                ltb total (offset + length chunk)
                || (length chunk == 0 && not (offset == total)))) [
                  | inl bad ↦ absurd (ground arith)
                  | inr within ↦ elim (Bool-cases (not (is_digest key))) [
                    | inl bad ↦ absurd (ground arith)
                    | inr named ↦ elim (Bool-cases (completed sha256 json_size setting key s)) [
                      | inl there ↦
                          elim (Bool-cases (matches sha256 json_size setting key total s)) [
                            | inl same ↦ inl (same, rw (right, within, named, there, same) refl)
                            | inr differ ↦ absurd (ground arith)
                          ]
                      | inr fresh ↦ elim (Bool-cases (not (offset == length old))) [
                        | inl bad ↦ absurd (ground arith)
                        | inr next ↦ elim (Result-cases (around.admission (length chunk))) [
                          | inr (e, failed) ↦ absurd (ground arith)
                          | inl (_, admitted) ↦
                              elim (Bool-cases (not (around.room (length chunk)))) [
                                | inl bad ↦ absurd (ground arith)
                                | inr space ↦ inr (
                                  fresh,
                                  ground arith,
                                  ground arith,
                                  rw (right, within, named, fresh, next, admitted, space) refl,
                                )
                              ]
                        ]
                      ]
                    ]
                  ]
                ]
        ]

  -- In a setting where only the raw namespace is chunked, and when the recipe of a chunked object
  -- is within its limit: an append that succeeds either answers complete with the declared length,
  -- and then the object verifies, has that length and its partial file is gone, or answers pending,
  -- and then it was sent at the durable offset, stays below the declared length, has put its chunk
  -- behind the staged bytes and has changed nothing else.
  pub append-Staged :
      (around : Surroundings) (producer key : String) (offset total : ℕ) (chunk : List ℕ)
      (s : State) (p : Progress)
      → (setting.chunked ≡ true → setting.raw ≡ true)
      → Short sha256 json_size setting producer_digest around
          (name_of producer key)
          key
          total
          (content_of producer key chunk s)
          s
      → (append sha256 json_size setting producer_digest around producer key offset total chunk s).0
        ≡ ok p
      → ((p ≡ record { complete = true; offset = total })
          × Held sha256 json_size setting
              (name_of producer key)
              key
              total
              (append sha256 json_size setting producer_digest around producer key offset total
                chunk s).1)
        ⊎ Staged producer key offset total chunk p s
            (append sha256 json_size setting producer_digest around producer key offset total chunk
              s).1
  append-Staged around producer key offset total chunk s p archival short h =
      let old : List ℕ = staged sha256 json_size setting producer_digest (name_of producer key) s in
      elim (accepted around producer key offset total chunk s p h) [
        | inl (same, e) ↦ inl (
          ground (arith, ap (λ x. x.0) e),
          rw e (matches-Held (name_of producer key) key total s same),
        )
        | inr (fresh, next, fits, e) ↦ elim (Bool-cases (length old + length chunk == total)) [
          | inl last ↦
              let e' : outcome around producer key offset total chunk s
                  ≡ finish sha256 json_size setting producer_digest around (name_of producer key)
                      key total (content_of producer key chunk s) (written producer key chunk s) =
                rw last at e in
              inl (
                subst
                  (λ r.
                    (p ≡ record { complete = true; offset = total })
                    × Held sha256 json_size setting (name_of producer key) key total r.1)
                  (sym e')
                  (finish-Held sha256 json_size setting producer_digest around
                    (name_of producer key) key total (content_of producer key chunk s)
                    (written producer key chunk s) p (completed-none key s fresh)
                    (ground (arith, length-append old chunk)) archival short
                    (ap (λ x. x.0) (sym e') ∙ h)))
          | inr more ↦
              let e' : outcome around producer key offset total chunk s ≡ (
                ok (record { complete = false; offset = length old + length chunk }),
                written producer key chunk s,
              ) =
                rw more at e in
              inr (ground (arith, ap (λ x. x.0) e'), ground arith, ap (λ x. x.1) e', next)
        ]
      ]
