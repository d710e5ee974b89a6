-- ===== src/Transfers/Upload/Rounds.antt =====
-- One round of the client's loop, and prefixes of the file.
use session_search.Base.{
  ℕ, zero, suc, ◌+◌, ◌-◌, ◌≤◌, ◌≡◌, refl, ap, true, false, List, [], ◌∷◌, ◌++◌, arith, min, leb,
  ◌==◌, nat_eq, string_eq, length, take, drop,
}
use session_search.Base.Result.{Result, ok}
use session_search.Transfers.{Progress, max_chunk}
use session_search.Transfers.Upload.{upload_loop, upload_object}

-- One round of the loop, that completes the upload or goes on.
module _ {S : Type 0} (fuel offset : ℕ) (put : ℕ → ℕ → List ℕ → S → Result Progress × S)
    (file : List ℕ) (s t : S) where
  abbrev chunk_at : List ℕ
  chunk_at = take (min max_chunk (length file - offset)) (drop offset file)

  pub loop_end :
      put offset (length file) chunk_at s
        ≡ (ok (record { complete = true; offset = length file }), t)
      → offset + length chunk_at == length file ≡ true
      → upload_loop (suc fuel) put offset file s
        ≡ (ok (record { complete = true; offset = length file }), t)
  unfolding upload_loop
  loop_end e last =
      let same : length file == offset + length chunk_at ≡ true = ground arith in
      rw (upload_loop, e, same)
        (ap (λ r. (ok (record { complete = true; offset = length file }), r.1)) e)

  pub loop_step :
      put offset (length file) chunk_at s
        ≡ (ok (record { complete = false; offset = offset + length chunk_at }), t)
      → 1 ≤ length chunk_at
      → upload_loop (suc fuel) put offset file s
        ≡ upload_loop fuel put (offset + length chunk_at) file t
  unfolding upload_loop
  loop_step e some_sent =
      let same : offset + length chunk_at == offset + length chunk_at ≡ true = ground arith in
      let sent : length chunk_at == 0 ≡ false = ground arith in
      rw (upload_loop, e, same, sent)
        (ap (λ r. upload_loop fuel put (offset + length chunk_at) file r.1) e)

pub resume :
    {S : Type 0} (ask : S → Result Progress × S) (put : ℕ → ℕ → List ℕ → S → Result Progress × S)
    (file : List ℕ) (s : S) (n : ℕ)
    → ask s ≡ (ok (record { complete = false; offset = n }), s)
    → leb n (length file) ≡ true
    → upload_object ask put file s ≡ upload_loop (suc (length file - n)) put n file s
unfolding upload_object
resume ask put file s n e fits =
    rw (upload_object, e, fits) (ap (λ r. upload_loop (suc (length file - n)) put n file r.1) e)

pub take-take : (n a b : ℕ) (xs : List ℕ) → n ≡ a + b → take a xs ++ take b (drop a xs) ≡ take n xs
take-take n zero b xs e = ap (λ k. take k xs) (omega arith)
take-take zero (suc a) b xs e = absurd (omega arith)
take-take (suc n) (suc a) zero [] e = refl
take-take (suc n) (suc a) (suc b) [] e = refl
take-take (suc n) (suc a) b (x ∷ xs) e = ap (λ ys. x ∷ ys) (take-take n a b xs (omega arith))

pub take-length : (n m : ℕ) (xs : List ℕ) → m ≡ min n (length xs) → take n xs ≡ take m xs
take-length zero m xs e = (let none_of : 0 ≡ m = omega arith in ap (λ k. take k xs) none_of)
take-length (suc n) zero [] e = refl
take-length (suc n) (suc m) [] e = absurd (omega arith)
take-length (suc n) zero (x ∷ xs) e = absurd (omega arith)
take-length (suc n) (suc m) (x ∷ xs) e = ap (λ ys. x ∷ ys) (take-length n m xs (omega arith))

pub take-all : (n : ℕ) (xs : List ℕ) → length xs ≤ n → take n xs ≡ xs
take-all zero [] h = refl
take-all zero (x ∷ xs) h = absurd (omega arith)
take-all (suc n) [] h = refl
take-all (suc n) (x ∷ xs) h = ap (λ ys. x ∷ ys) (take-all n xs (omega arith))
