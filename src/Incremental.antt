-- ===== src/Incremental.antt =====
-- src/session_search/capture/incremental.py: `scan_bytes` and `line_offset` over a file that is
-- read in blocks. A hash object is the bytes that it has been fed. Parameters: SHA-256, and the
-- size of a block.
pub mod Prefix
pub mod Lines
mod Examples
use session_search.Base.{
  ℕ, zero, suc, ◌+◌, ◌-◌, ◌≤◌, ◌<◌, String, Bool, true, false, not, ◌&&◌, Option, none, some, List,
  [], ◌∷◌, ◌++◌, if◌then◌else◌, ◌==◌, nat_eq, ltb, leb, length, take, drop, blocks,
}
use session_search.Base.Result.{Result, ok, err, value_error}

abbrev pub newline : ℕ
newline = 10

-- `block.count(b"\n")`
unfoldable pub count : List ℕ → ℕ
count [] = 0
count (b ∷ bs) = if b == newline then suc (count bs) else count bs

-- `block[-1:]`, where `last` stays for an empty block
unfoldable pub last_byte : ℕ → List ℕ → ℕ
last_byte b [] = b
last_byte b (c ∷ cs) = last_byte c cs

pub record Scan : Type 0 where
  pub full : List ℕ
  pub prefix_digest : Option String
  pub size : ℕ
  pub lines : ℕ
  pub last : ℕ

module _ (sha256 : List ℕ → String) where
  unfoldable pub start_scan : ℕ → Scan
  start_scan prefix_size = record {
    full = [];
    prefix_digest = if prefix_size == 0 then some (sha256 []) else none;
    size = 0;
    lines = 0;
    last = 0;
  }

  -- One round of the loop of `scan_bytes`.
  unfoldable pub scan_block : ℕ → List ℕ → Scan → Scan
  scan_block prefix_size block s =
      let split : ℕ = prefix_size - s.size in
      let inside : Bool = ltb s.size prefix_size && leb split (length block) in
      record {
        full = elim s.prefix_digest [
          | some d ↦ s.full ++ block
          | none ↦
              if inside then (s.full ++ take split block) ++ drop split block else s.full ++ block
        ];
        prefix_digest = elim s.prefix_digest [
          | some d ↦ some d
          | none ↦ if inside then some (sha256 (s.full ++ take split block)) else none
        ];
        size = s.size + length block;
        lines = s.lines + count block;
        last = last_byte s.last block;
      }

  unfoldable pub scan_blocks : ℕ → List (List ℕ) → Scan → Scan
  scan_blocks prefix_size [] s = s
  scan_blocks prefix_size (block ∷ rest) s =
      scan_blocks prefix_size rest (scan_block prefix_size block s)

  -- `scan_bytes`: size, lines, digest of the file and digest of its prefix.
  unfoldable pub scan_bytes : ℕ → List ℕ → ℕ → Result (ℕ × ℕ × String × Option String)
  scan_bytes block_size content prefix_size =
      let s : Scan = scan_blocks prefix_size (blocks block_size content) (start_scan prefix_size) in
      if not (s.size == 0) && not (s.last == newline)
      then err value_error
      else ok (s.size, s.lines, sha256 s.full, s.prefix_digest)

-- `block.find(b"\n")`
unfoldable pub find_newline : List ℕ → Option ℕ
find_newline [] = none
find_newline (b ∷ bs) =
    if b == newline then some 0 else elim (find_newline bs) [ none ↦ none | some i ↦ some (suc i) ]

-- `position = block.find(b"\n", position + 1)`, `remaining` times: the value is `position + 1`.
unfoldable pub seek : ℕ → ℕ → List ℕ → ℕ
seek zero next block = next
seek (suc remaining) next block =
    seek remaining (elim (find_newline (drop next block)) [ none ↦ 0 | some i ↦ suc (next + i) ])
      block

-- The loop of `line_offset`.
unfoldable pub line_loop : ℕ → ℕ → List (List ℕ) → Result ℕ
line_loop zero offset parts = ok offset
line_loop (suc remaining) offset [] = err value_error
line_loop (suc remaining) offset (block ∷ parts) =
    let rest : Result ℕ = line_loop (suc remaining - count block) (offset + length block) parts in
    if ltb (count block) (suc remaining) then rest else ok (offset + seek (suc remaining) 0 block)

-- `line_offset`
unfoldable pub line_offset : ℕ → List ℕ → ℕ → ℕ → ℕ → Result ℕ
line_offset block_size content target start_offset start_line =
    if ltb target start_line
    then err value_error
    else line_loop (target - start_line) start_offset
        (blocks block_size (drop start_offset content))
