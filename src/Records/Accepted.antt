-- ===== src/Records/Accepted.antt =====
-- Which sessions the constructor accepts.
use session_search.Base.{
  ◌≤◌, ◌≡◌, ◌≢◌, ◌↔◌, refl, String, false, ◌⊎◌, inl, inr, List, [], ◌∷◌, map, arith, length,
  string_eq, nat_eq, contains, All, Bool-cases,
}
use session_search.Base.Result.{ok, err, value_error}
use session_search.Records.{Event, SessionRevision, to_set, make_session}

-- No text stands twice.
abbrev pub Distinct : List String → Type 0
Distinct [] = Unit
Distinct (x ∷ xs) = All (λ y. y ≢ x) xs × Distinct xs

contains-All : (xs : List String) (x : String) → contains xs x ≡ false → All (λ y. y ≢ x) xs
contains-All [] x h = tt
contains-All (y ∷ xs) x h = (ground arith, contains-All xs x (ground arith))

All-contains : (xs : List String) (x : String) → All (λ y. y ≢ x) xs → contains xs x ≡ false
All-contains [] x h = refl
All-contains (y ∷ xs) x h = ground (arith, All-contains xs x h.1)

length-to_set : (xs : List String) → length (to_set xs) ≤ length xs
unfolding to_set
length-to_set [] = omega arith
length-to_set (x ∷ xs) = ground (arith, length-to_set xs)

pub to_set-Distinct : (xs : List String) → length (to_set xs) ≡ length xs → Distinct xs
unfolding to_set
to_set-Distinct [] h = tt
to_set-Distinct (x ∷ xs) h = elim (Bool-cases (contains xs x)) [
  | inl e ↦ absurd (ground (arith, length-to_set xs))
  | inr e ↦ (contains-All xs x e, to_set-Distinct xs (ground arith))
]

Distinct-to_set : (xs : List String) → Distinct xs → length (to_set xs) ≡ length xs
unfolding to_set
Distinct-to_set [] h = refl
Distinct-to_set (x ∷ xs) h = rw (All-contains xs x h.0, Distinct-to_set xs h.1)

abbrev pub event_ids : SessionRevision → List String
event_ids s = map (λ (e : Event). e.event_id) s.events

pub record IsSession (s : SessionRevision) : Type 0 where
  pub named : s.session_id ≢ ""
  pub sourced : s.source ≢ ""
  pub distinct : Distinct (event_ids s)

-- A session is accepted, unchanged, exactly when it has an identity and a source and no two of its
-- events share an identity, and any other session is a ValueError.
pub make_session_iff :
    (s : SessionRevision)
    → ((make_session s ≡ ok s) ↔ IsSession s)
      × ((make_session s ≡ ok s) ⊎ (make_session s ≡ err value_error))
unfolding make_session
make_session_iff s = (
  (
    λ h. record {
      named = ground arith;
      sourced = ground arith;
      distinct = to_set-Distinct (event_ids s) (ground arith);
    },
    λ v. ground (arith, Distinct-to_set (event_ids s) v.distinct, v.named, v.sourced),
  ),
  ground arith,
)
