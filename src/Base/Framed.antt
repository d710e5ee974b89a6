-- ===== src/Base/Framed.antt =====
-- Texts that are set one behind the other and can be told apart again.
use Prim.Native.Char.{Char, code}
use Prim.Native.String.{String, [], ◌∷◌}
use session_search.Base.{ℕ, ◌≡◌, ◌≢◌, refl, ap, ◌∙◌, arith}

-- A text, marked off from what follows it.
unfoldable pub framed : String → String → String
framed [] rest = "z" ∷ rest
framed (c ∷ s) rest = "a" ∷ c ∷ framed s rest

unfoldable head_code : String → ℕ
head_code [] = 0
head_code (c ∷ s) = code c

unfoldable head_char : String → Char
head_char [] = "z"
head_char (c ∷ s) = c

unfoldable tail : String → String
tail [] = []
tail (c ∷ s) = s

pub framed_apart : (s t a b : String) → framed s a ≡ framed t b → (s ≡ t) × (a ≡ b)
unfolding framed head_code head_char tail
framed_apart [] [] a b h = (refl, ap tail h)
framed_apart [] (d ∷ t) a b h = absurd (let e : 122 ≡ 97 = ap head_code h in omega arith)
framed_apart (c ∷ s) [] a b h = absurd (let e : 97 ≡ 122 = ap head_code h in omega arith)
framed_apart (c ∷ s) (d ∷ t) a b h =
    let later : (s ≡ t) × (a ≡ b) = framed_apart s t a b (ap (λ x. tail (tail x)) h) in
    ((ap (λ x. head_char (tail x) ∷ s) h) ∙ ap (λ x. d ∷ x) later.0, later.1)

pub empty_apart : ◌≢◌ {A = String} "" "x"
unfolding head_code
empty_apart h = (let e : Path ℕ 0 120 = ap head_code h in omega arith)
