-- ===== src/Incremental/Examples.antt =====
-- Two lines of two bytes, read three bytes at a time.
use session_search.Base.{ℕ, ◌≡◌, String, some, List, [], ◌∷◌, arith, bytes_eq, ℕ_discrete}
use session_search.Base.Result.{ok}
use session_search.Incremental.{scan_bytes, line_offset, count, last_byte}
use session_search.Incremental.Prefix.{scan_bytes_lem}
use session_search.Incremental.Lines.{line_offset_lem, after_lines}

abbrev content : List ℕ
content = b'a' ∷ 10 ∷ b'b' ∷ 10 ∷ []

abbrev digest : List ℕ → String
digest [] = "none"
digest (b ∷ []) = "one"
digest (b ∷ c ∷ []) = "two"
digest (b ∷ c ∷ d ∷ bs) = "many"

scan_bytes_lem_example : scan_bytes digest 3 content 2 ≡ ok (4, 2, "many", some "two")
unfolding count last_byte ℕ_discrete
scan_bytes_lem_example = scan_bytes_lem digest 3 content 2 (omega arith)

line_offset_lem_example : line_offset 3 content 3 0 1 ≡ ok 4
unfolding after_lines ℕ_discrete
line_offset_lem_example = line_offset_lem 3 content 3 0 1 (omega arith)
