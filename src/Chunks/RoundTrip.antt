-- ===== src/Chunks/RoundTrip.antt =====
-- What the loop of `put` stores: the chunks it lists, and that they fit the checks of `recipe`.
use session_search.Base.{
  ℕ, zero, suc, ◌+◌, ◌-◌, ◌*◌, ◌/◌, ◌≤◌, ◌<◌, ◌≡◌, ◌⊎◌, refl, sym, ap, subst, ◌∙◌, String, Bool,
  true, inl, inr, some, List, [], ◌∷◌, ◌++◌, arith, leb, string_eq, nat_eq, bytes_eq, Bool-cases,
  length, length-append, length-take, length-drop, drop, lookup, is_digest, concat, split,
}
use session_search.Base.Result.{Result, Result-cases, ok}
use session_search.Chunks.{
  Chunk, Recipe, recipe_eq, publish, put_blocks, max_size, chunk_size, chunk_size_pos, chunks_valid,
  read_chunks,
}
use session_search.Chunks.Immutable.{Extends, publish_ok, put_blocks-Extends}

drop-all : (n : ℕ) (xs : List ℕ) → length xs ≤ n → drop n xs ≡ []
drop-all zero [] h = refl
drop-all zero (x ∷ xs) h = absurd (omega arith)
drop-all (suc n) [] h = refl
drop-all (suc n) (x ∷ xs) h = drop-all n xs (omega arith)

split-nil : (fuel n : ℕ) → split fuel n [] ≡ []
unfolding split
split-nil zero n = refl
split-nil (suc fuel) n = refl

module _ (sha256 : List ℕ → String) (json_size : Recipe → ℕ) where
  -- The chunks describe the blocks, and the store has their contents.
  abbrev pub Stored : List (String × List ℕ) → List Chunk → List (List ℕ) → Type 0
  Stored stored [] [] = Unit
  Stored stored [] (b ∷ bs) = ⊥
  Stored stored (c ∷ cs) [] = ⊥
  Stored stored (c ∷ cs) (b ∷ bs) =
      (lookup c.digest stored ≡ some b)
      × (c.size ≡ length b)
      × (c.digest ≡ sha256 b)
      × (is_digest c.digest ≡ true)
      × Stored stored cs bs

  pub read_chunks_lem :
      (stored : List (String × List ℕ)) (cs : List Chunk) (bs : List (List ℕ))
      → Stored stored cs bs
      → read_chunks sha256 json_size cs stored ≡ record { given = bs; outcome = ok tt }
  unfolding read_chunks
  read_chunks_lem stored [] [] h = refl
  read_chunks_lem stored [] (b ∷ bs) h = absurd h
  read_chunks_lem stored (c ∷ cs) [] h = absurd h
  read_chunks_lem stored (c ∷ cs) (b ∷ bs) h =
      ground (arith, read_chunks_lem stored cs bs h.4, h.0, h.1, h.2)

  -- Every block but the last is full.
  abbrev pub Full : ℕ → List (List ℕ) → Type 0
  Full n [] = Unit
  Full n (b ∷ bs) = (1 ≤ length b) × (length b ≤ n) × ((length b ≡ n) ⊎ (bs ≡ [])) × Full n bs

  pub split-Full : (fuel n : ℕ) (bs : List ℕ) → 0 < n → length bs ≤ fuel → Full n (split fuel n bs)
  unfolding split
  split-Full zero n bs p h = tt
  split-Full (suc fuel) n [] p h = tt
  split-Full (suc fuel) n (b ∷ bs) p h =
      let xs : List ℕ = b ∷ bs in
      (
        omega (arith, length-take n xs),
        omega (arith, length-take n xs),
        elim (Bool-cases (leb n (length xs))) [
          | inl long ↦
              let le : n ≤ length xs = ground arith in inl (omega (arith, length-take n xs))
          | inr short ↦
              let le : length xs ≤ n = ground arith in
              inr (ap (split fuel n) (drop-all n xs le) ∙ split-nil fuel n)
        ],
        split-Full fuel n (drop n xs) p (omega (arith, length-drop n xs)),
      )

  Stored-nil :
      (stored : List (String × List ℕ)) (cs : List Chunk) (bs : List (List ℕ))
      → Stored stored cs bs
      → bs ≡ []
      → (cs ≡ []) × (length (concat bs) ≡ 0)
  Stored-nil stored [] [] h e = (refl, refl)
  Stored-nil stored [] (b ∷ bs) h e = absurd h
  Stored-nil stored (c ∷ cs) [] h e = absurd h
  Stored-nil stored (c ∷ cs) (b ∷ bs) h e = cc

  pub chunks_valid_lem :
      (stored : List (String × List ℕ)) (i size : ℕ) (cs : List Chunk) (bs : List (List ℕ))
      → Stored stored cs bs
      → Full chunk_size bs
      → size ≡ i * chunk_size + length (concat bs)
      → chunks_valid sha256 json_size i size cs ≡ true
  unfolding chunks_valid
  chunks_valid_lem stored i size [] bs h f e = refl
  chunks_valid_lem stored i size (c ∷ cs) [] h f e = absurd h
  chunks_valid_lem stored i size (c ∷ cs) (b ∷ bs) h f e =
      let whole : length (b ++ concat bs) ≡ length b + length (concat bs) =
        length-append b (concat bs) in
      elim f.2 [
        | inl full ↦
            let ih : chunks_valid sha256 json_size (suc i) size cs ≡ true =
              chunks_valid_lem stored (suc i) size cs bs h.4 f.3 (omega arith) in
            ground (arith, ih, h.1, h.3)
        | inr last ↦
            let tail : (cs ≡ []) × (length (concat bs) ≡ 0) = Stored-nil stored cs bs h.4 last in
            let ih : chunks_valid sha256 json_size (suc i) size cs ≡ true = rw tail.0 refl in
            ground (arith, ih, h.1, h.3)
      ]

  pub count_lem :
      (stored : List (String × List ℕ)) (cs : List Chunk) (bs : List (List ℕ))
      → Stored stored cs bs
      → Full chunk_size bs
      → (length cs * chunk_size < length (concat bs) + chunk_size)
        × (length (concat bs) ≤ length cs * chunk_size)
  count_lem stored [] [] h f = (omega (arith, chunk_size_pos), omega arith)
  count_lem stored [] (b ∷ bs) h f = absurd h
  count_lem stored (c ∷ cs) [] h f = absurd h
  count_lem stored (c ∷ cs) (b ∷ bs) h f =
      let whole : length (b ++ concat bs) ≡ length b + length (concat bs) =
        length-append b (concat bs) in
      elim f.2 [
        | inl full ↦
            let ih : (length cs * chunk_size < length (concat bs) + chunk_size)
                × (length (concat bs) ≤ length cs * chunk_size) =
              count_lem stored cs bs h.4 f.3 in
            (omega arith, omega arith)
        | inr last ↦
            let tail : (cs ≡ []) × (length (concat bs) ≡ 0) = Stored-nil stored cs bs h.4 last in
            let none_left : length cs ≡ 0 = ap length tail.0 in (grind arith, grind arith)
      ]

pub ceiling :
    (n k : ℕ)
    → k * chunk_size < n + chunk_size
    → n ≤ k * chunk_size
    → k ≡ (n + chunk_size - 1) / chunk_size
unfolding chunk_size
ceiling n k low high = omega arith

module _ (sha256 : List ℕ → String) (json_size : Recipe → ℕ) where
  pub Stored-Extends :
      {a b : List (String × List ℕ)} (cs : List Chunk) (bs : List (List ℕ))
      → Extends a b
      → Stored sha256 json_size a cs bs
      → Stored sha256 json_size b cs bs
  Stored-Extends [] [] x h = tt
  Stored-Extends [] (b ∷ bs) x h = absurd h
  Stored-Extends (c ∷ cs) [] x h = absurd h
  Stored-Extends (c ∷ cs) (b ∷ bs) x h =
      (x.at_key c.digest b h.0, h.1, h.2, h.3, Stored-Extends cs bs x h.4)

  module _ (room : ℕ → Bool) where
    -- A loop that succeeds published its first block and succeeded on the others.
    put_blocks-first :
        (size : ℕ) (b : List ℕ) (bs : List (List ℕ)) (stored : List (String × List ℕ))
        (cs : List Chunk) (published : Result (Unit {0}) × List (String × List ℕ))
        (later : Result (List Chunk) × List (String × List ℕ))
        → published ≡ publish room (length b) (sha256 b) b stored
        → later ≡ put_blocks sha256 json_size room (size + length b) bs published.1
        → (put_blocks sha256 json_size room size (b ∷ bs) stored).0 ≡ ok cs
        → (size + length b ≤ max_size)
          × (published.0 ≡ ok tt)
          × (tail : List Chunk) × (later.0 ≡ ok tail)
          × (cs ≡ record { digest = sha256 b; size = length b } ∷ tail)
          × ((put_blocks sha256 json_size room size (b ∷ bs) stored).1 ≡ later.1)
    unfolding put_blocks
    put_blocks-first size b bs stored cs published later p l h = elim (Result-cases published.0) [
      | inr (e, failed) ↦ absurd (ground arith)
      | inl (_, done) ↦ elim (Result-cases later.0) [
        | inr (e, failed) ↦ absurd (ground arith)
        | inl (tail, rest) ↦ (ground arith, done, tail, rest, ground arith, ground arith)
      ]
    ]

    pub put_blocks-Stored :
        (size : ℕ) (bs : List (List ℕ)) (stored : List (String × List ℕ)) (cs : List Chunk)
        → (put_blocks sha256 json_size room size bs stored).0 ≡ ok cs
        → Stored sha256 json_size (put_blocks sha256 json_size room size bs stored).1 cs bs
          × (size ≤ max_size → size + length (concat bs) ≤ max_size)
    unfolding put_blocks
    put_blocks-Stored size [] stored [] h = (tt, λ fits. omega arith)
    put_blocks-Stored size [] stored (c ∷ cs) h = absurd (ground arith)
    put_blocks-Stored size (b ∷ bs) stored cs h =
        let published : Result (Unit {0}) × List (String × List ℕ) =
          publish room (length b) (sha256 b) b stored in
        let later : Result (List Chunk) × List (String × List ℕ) =
          put_blocks sha256 json_size room (size + length b) bs published.1 in
        let (small, done, tail, rest, same, kept) =
          put_blocks-first size b bs stored cs published later refl refl h in
        let ih : Stored sha256 json_size later.1 tail bs
            × (size + length b ≤ max_size → size + length b + length (concat bs) ≤ max_size) =
          put_blocks-Stored (size + length b) bs published.1 tail rest in
        let there : (lookup (sha256 b) published.1 ≡ some b) × (is_digest (sha256 b) ≡ true) =
          publish_ok room (length b) (sha256 b) b stored done in
        let later_there : lookup (sha256 b) later.1 ≡ some b =
          (put_blocks-Extends sha256 json_size room (size + length b) bs published.1).at_key
            (sha256 b) b there.0 in
        let total : length (b ++ concat bs) ≡ length b + length (concat bs) =
          length-append b (concat bs) in
        (
          subst (λ st. Stored sha256 json_size st cs (b ∷ bs)) (sym kept)
              (subst (λ l. Stored sha256 json_size later.1 l (b ∷ bs)) (sym same)
                (later_there, refl, refl, there.1, ih.0)),
          λ fits.
              (let bound : size + length b + length (concat bs) ≤ max_size = ih.1 small in
                omega arith),
        )
