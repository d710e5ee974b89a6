-- ===== src/Incremental/Prefix.antt =====
-- What `scan_bytes` finds out about a file.
use session_search.Base.{
  ℕ, zero, suc, ◌+◌, ◌-◌, ◌≤◌, ◌<◌, ◌≡◌, refl, sym, ap, subst, ◌∙◌, inl, inr, String, not, ◌&&◌,
  Option, none, some, List, [], ◌∷◌, ◌++◌, arith, if◌then◌else◌, ◌==◌, nat_eq, leb, length,
  length-append, take, drop, take-append-drop, append_assoc, append-nil, concat, concat-split,
  blocks, Bool-cases, ℕ_discrete,
}
use session_search.Base.Result.{ok, err, value_error}
use session_search.Incremental.{
  newline, count, last_byte, Scan, start_scan, scan_block, scan_blocks, scan_bytes,
}

pub count-append : (a b : List ℕ) → count (a ++ b) ≡ count a + count b
unfolding count
count-append [] b = omega arith
count-append (x ∷ a) b = ground (arith, count-append a b)

last_byte-append : (x : ℕ) (a b : List ℕ) → last_byte x (a ++ b) ≡ last_byte (last_byte x a) b
unfolding last_byte
last_byte-append x [] b = refl
last_byte-append x (y ∷ a) b = last_byte-append y a b

take_within : (n : ℕ) (a b : List ℕ) → n ≤ length a → take n (a ++ b) ≡ take n a
take_within zero a b h = refl
take_within (suc n) [] b h = absurd (omega arith)
take_within (suc n) (x ∷ a) b h = ap (◌∷◌ x) (take_within n a b (omega arith))

take_beyond : (n : ℕ) (a b : List ℕ) → length a ≤ n → take n (a ++ b) ≡ a ++ take (n - length a) b
take_beyond n [] b h = ap (λ k. take k b) (let e : n ≡ n - 0 = omega arith in e)
take_beyond zero (x ∷ a) b h = absurd (omega arith)
take_beyond (suc n) (x ∷ a) b h = ap (◌∷◌ x) (
    take_beyond n a b (omega arith)
    ∙ ap (λ k. a ++ take k b) (let e : n - length a ≡ suc n - suc (length a) = omega arith in e))

module _ (sha256 : List ℕ → String) where
  abbrev prefix_of : ℕ → List ℕ → Option String
  prefix_of n bytes = if leb n (length bytes) then some (sha256 (take n bytes)) else none

  -- The loop has read `seen`.
  record Scanned (n : ℕ) (seen : List ℕ) (s : Scan) : Type 0 where
    full : s.full ≡ seen
    prefix : s.prefix_digest ≡ prefix_of n seen
    size : s.size ≡ length seen
    lines : s.lines ≡ count seen
    last : s.last ≡ last_byte 0 seen

  scan_block-full :
      (n : ℕ) (block : List ℕ) (s : Scan) → (scan_block sha256 n block s).full ≡ s.full ++ block
  unfolding scan_block
  scan_block-full n block s =
      let whole : (s.full ++ take (n - s.size) block) ++ drop (n - s.size) block ≡ s.full ++ block =
        append_assoc s.full (take (n - s.size) block) (drop (n - s.size) block)
        ∙ ap (◌++◌ s.full) (take-append-drop (n - s.size) block) in
      ground (arith, whole)

  scan_block-prefix :
      (n : ℕ) (seen block : List ℕ) (s : Scan)
      → Scanned n seen s
      → (scan_block sha256 n block s).prefix_digest ≡ prefix_of n (seen ++ block)
  unfolding scan_block
  scan_block-prefix n seen block s h = elim (Bool-cases (leb n (length seen))) [
    | inl early ↦
        ground (arith, h.prefix, length-append seen block, take_within n seen block (ground arith))
    | inr late ↦ ground (
      arith,
      h.prefix,
      h.size,
      h.full,
      length-append seen block,
      take_beyond n seen block (ground arith),
    )
  ]

  scan_block-Scanned :
      (n : ℕ) (seen block : List ℕ) (s : Scan)
      → Scanned n seen s
      → Scanned n (seen ++ block) (scan_block sha256 n block s)
  unfolding scan_block
  scan_block-Scanned n seen block s h = record {
    full = scan_block-full n block s ∙ ap (λ x. x ++ block) h.full;
    prefix = scan_block-prefix n seen block s h;
    size = ground (arith, h.size, length-append seen block);
    lines = ground (arith, h.lines, count-append seen block);
    last = ap (λ x. last_byte x block) h.last ∙ sym (last_byte-append 0 seen block);
  }

  scan_blocks-Scanned :
      (n : ℕ) (parts : List (List ℕ)) (seen : List ℕ) (s : Scan)
      → Scanned n seen s
      → Scanned n (seen ++ concat parts) (scan_blocks sha256 n parts s)
  unfolding scan_blocks
  scan_blocks-Scanned n [] seen s h = subst (λ x. Scanned n x s) (sym (append-nil seen)) h
  scan_blocks-Scanned n (block ∷ parts) seen s h =
      subst (λ x. Scanned n x (scan_blocks sha256 n parts (scan_block sha256 n block s)))
        (append_assoc seen block (concat parts))
        (scan_blocks-Scanned n parts (seen ++ block) (scan_block sha256 n block s)
          (scan_block-Scanned n seen block s h))

  start_scan-Scanned : (n : ℕ) → Scanned n [] (start_scan sha256 n)
  unfolding start_scan count last_byte ℕ_discrete
  start_scan-Scanned zero = record {
    full = refl;
    prefix = refl;
    size = refl;
    lines = refl;
    last = refl;
  }
  start_scan-Scanned (suc n) = record {
    full = refl;
    prefix = ground arith;
    size = refl;
    lines = refl;
    last = refl;
  }

  -- For blocks that are not empty, scan_bytes gives the length of the file, its number of newlines,
  -- its digest, and the digest of its prefix if the file is long enough; it refuses just those
  -- files that are not empty and do not end with a newline.
  pub scan_bytes_lem :
      (block_size : ℕ) (content : List ℕ) (n : ℕ)
      → 0 < block_size
      → scan_bytes sha256 block_size content n ≡ (
          if not (length content == 0) && not (last_byte 0 content == newline)
          then err value_error
          else ok (length content, count content, sha256 content, prefix_of n content))
  unfolding scan_bytes
  scan_bytes_lem block_size content n positive =
      let s : Scan = scan_blocks sha256 n (blocks block_size content) (start_scan sha256 n) in
      let done : Scanned n content s =
        subst (λ x. Scanned n x s)
          (concat-split (length content) block_size content positive (omega arith))
          (scan_blocks-Scanned n (blocks block_size content) [] (start_scan sha256 n)
            (start_scan-Scanned n)) in
      ground (arith, done.full, done.prefix, done.size, done.lines, done.last)
