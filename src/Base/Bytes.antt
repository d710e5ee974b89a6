-- ===== src/Base/Bytes.antt =====
-- Bytes and blocks of bytes, and the names of immutable objects.
use Prim.Native.Nat.{ℕ, zero, suc, ◌≤◌, ◌<◌}
use Prim.Native.Char.{code}
use Prim.Native.String.{String}
use mathlib.Core.Path.{◌≡◌, refl, ap, ◌∙◌}
use mathlib.Core.Bool.{Bool, true, ◌&&◌, ◌||◌}
use mathlib.Core.List.{List, [], ◌∷◌, ◌++◌}
use native.Mathlib.Decide.{ℕ_discrete}
use native.Mathlib.Omega.{arith}
use session_search.Base.Tests.{leb}
use session_search.Base.Equality.{Eq, ◌==◌, nat_eq}
use session_search.Base.Lists.{length, take, drop, take-append-drop, length-drop}

abbrev pub Bytes : Type 0
Bytes = List ℕ

unfoldable pub bytes_dec : Discrete (List ℕ)
bytes_dec = hlevel ℕ_discrete

instance abbrev pub bytes_eq : Eq (List ℕ)
bytes_eq = record { dec = bytes_dec }

abbrev pub concat : List (List ℕ) → List ℕ
concat [] = []
concat (b ∷ bs) = b ++ concat bs

-- `while block := stream.read(n)`: slices of `n` bytes. A fuel of one for each byte is enough.
unfoldable pub split : ℕ → ℕ → List ℕ → List (List ℕ)
split zero n bs = []
split (suc fuel) n [] = []
split (suc fuel) n (b ∷ bs) = take n (b ∷ bs) ∷ split fuel n (drop n (b ∷ bs))

abbrev pub blocks : ℕ → List ℕ → List (List ℕ)
blocks n bs = split (length bs) n bs

pub concat-split :
    (fuel n : ℕ) (bs : List ℕ) → 0 < n → length bs ≤ fuel → concat (split fuel n bs) ≡ bs
unfolding split
concat-split zero n [] p h = refl
concat-split zero n (b ∷ bs) p h = absurd (omega arith)
concat-split (suc fuel) n [] p h = refl
concat-split (suc fuel) n (b ∷ bs) p h =
    ap (◌++◌ (take n (b ∷ bs)))
      (concat-split fuel n (drop n (b ∷ bs)) p (omega (arith, length-drop n (b ∷ bs))))
    ∙ take-append-drop n (b ∷ bs)

unfoldable pub codes : String → List ℕ
codes String.[] = []
codes (String.◌∷◌ c s) = code c ∷ codes s

abbrev pub is_hex : ℕ → Bool
is_hex c = (leb b'0' c && leb c b'9') || (leb b'a' c && leb c b'f')

unfoldable pub all_hex : List ℕ → Bool
all_hex [] = true
all_hex (c ∷ cs) = is_hex c && all_hex cs

-- `re.fullmatch('[0-9a-f]{64}', value)`
unfoldable pub is_digest : String → Bool
is_digest s = length (codes s) == 64 && all_hex (codes s)
