-- ===== src/Output/Kept.antt =====
-- What a cut response keeps of the response that it was cut from, and that each cut of
-- `bounded_response` keeps it.
use session_search.Base.{
  ℕ, zero, suc, ◌+◌, ◌/◌, ◌≤◌, ◌<◌, ◌≡◌, refl, ap, ◌∙◌, String, false, ◌⊎◌, inl, inr, Option, List,
  [], ◌∷◌, ◌++◌, arith, max, length, take, length-take, length-append,
}
use session_search.Output.Fields.{Event, Item, is_target, ellipsis, cut}

-- A text that is shown: the whole text, or at least 128 characters of its start and an ellipsis.
abbrev pub Shown : List ℕ → List ℕ → Type 0
Shown original t =
    (t ≡ original)
    ⊎ ((k : ℕ) × (128 ≤ k) × (k < length original) × (t ≡ take k original ++ ellipsis ∷ []))

abbrev pub KeptEvent : Event → Event → Type 0
KeptEvent e f = (f.event_id ≡ e.event_id) × (f.rest ≡ e.rest) × Shown e.text f.text

-- Only events other than the cited one are missing, and the order is kept.
pub data KeptEvents (t : Option String) : List Event → List Event → Type 0 where
  end : KeptEvents t [] []
  dropped :
      {e : Event} {xs ys : List Event}
      → is_target t e ≡ false
      → KeptEvents t xs ys
      → KeptEvents t (e ∷ xs) ys
  kept :
      {e f : Event} {xs ys : List Event}
      → KeptEvent e f
      → KeptEvents t xs ys
      → KeptEvents t (e ∷ xs) (f ∷ ys)

abbrev pub KeptItem : Item → Item → Type 0
KeptItem x y =
    (y.target ≡ x.target)
    × (y.rest ≡ x.rest)
    × Shown x.excerpt y.excerpt
    × KeptEvents x.target x.events y.events

-- The results that are left are the first ones.
abbrev pub KeptItems : List Item → List Item → Type 0
KeptItems xs [] = Unit
KeptItems [] (y ∷ ys) = ⊥
KeptItems (x ∷ xs) (y ∷ ys) = KeptItem x y × KeptItems xs ys

pub Shown-refl : (s : List ℕ) → Shown s s
Shown-refl s = inl refl

pub KeptEvents-refl : (t : Option String) (es : List Event) → KeptEvents t es es
KeptEvents-refl t [] = end
KeptEvents-refl t (e ∷ es) = kept (refl, refl, inl refl) (KeptEvents-refl t es)

pub KeptItems-refl : (xs : List Item) → KeptItems xs xs
KeptItems-refl [] = tt
KeptItems-refl (x ∷ xs) =
    ((refl, refl, inl refl, KeptEvents-refl x.target x.events), KeptItems-refl xs)

-- Cutting a text that was cut before cuts the ellipsis off first.
take-take_append :
    {A : Type 0} (j k : ℕ) (s u : List A) → j ≤ k → k ≤ length s → take j (take k s ++ u) ≡ take j s
take-take_append zero k s u h l = refl
take-take_append (suc j) zero s u h l = absurd (omega arith)
take-take_append (suc j) (suc k) [] u h l = absurd (omega arith)
take-take_append (suc j) (suc k) (x ∷ s) u h l =
    rw (take-take_append j k s u (omega arith) (omega arith))

pub Shown-cut : (s t : List ℕ) → Shown s t → 129 < length t → Shown s (cut t)
unfolding cut
Shown-cut s t (inl e) h =
    inr (max 128 (length t / 2), omega arith, omega (arith, ap length e), rw e)
Shown-cut s t (inr (k, low, high, e)) h =
    let size : length t ≡ k + 1 =
      omega (arith, ap length e, length-append (take k s) (ellipsis ∷ []), length-take k s) in
    let j : ℕ = max 128 (length t / 2) in
    inr (
      j,
      omega arith,
      omega arith,
      ap (λ u. u ++ ellipsis ∷ [])
          (ap (take j) e ∙ take-take_append j k s (ellipsis ∷ []) (omega arith) (omega arith)),
    )
