-- ===== src/Base/Assoc.antt =====
-- SQL tables with a primary key, and Python dicts: association lists.
use mathlib.Core.Path.{◌≡◌, refl, ap, subst}
use mathlib.Core.List.{List, [], ◌∷◌}
use mathlib.Core.Option.{Option, none, some}
use Prim.Native.Nat.{suc}
use native.Mathlib.Omega.{arith}
use session_search.Base.Tests.{if◌then◌else◌, Bool-cases}
use session_search.Base.Equality.{Eq, ◌==◌}
use session_search.Base.Lists.{select, All, length}
use mathlib.Core.Bool.{Bool}
use mathlib.Core.Logic.{inl, inr}

module _ {ℓ} {K V : Type ℓ} ⦃e : Eq K⦄ where
  -- `SELECT … WHERE key=?`, `d.get(k)`
  unfoldable pub lookup : K → List (K × V) → Option V
  lookup k [] = none
  lookup k ((j, v) ∷ d) = if k == j then some v else lookup k d

  -- `INSERT … ON CONFLICT(key) DO UPDATE`, `d[k] = v`
  unfoldable pub upsert : K → V → List (K × V) → List (K × V)
  upsert k v [] = (k, v) ∷ []
  upsert k v ((j, w) ∷ d) = if k == j then (k, v) ∷ d else (j, w) ∷ upsert k v d

  -- `DELETE … WHERE key=?`, `d.pop(k, None)`
  unfoldable pub without : K → List (K × V) → List (K × V)
  without k [] = []
  without k ((j, w) ∷ d) = let rest = without k d in if k == j then rest else (j, w) ∷ rest

  pub lookup-upsert :
      (j k : K) (v : V) (d : List (K × V))
      → lookup j (upsert k v d) ≡ (if j == k then some v else lookup j d)
  unfolding upsert lookup
  lookup-upsert j k v [] = ground arith
  lookup-upsert j k v ((i, w) ∷ d) = ground (arith, lookup-upsert j k v d)

  pub lookup-without :
      (j k : K) (d : List (K × V)) → lookup j (without k d) ≡ (if j == k then none else lookup j d)
  unfolding without lookup
  lookup-without j k [] = ground arith
  lookup-without j k ((i, w) ∷ d) = ground (arith, lookup-without j k d)

  -- The keys decide what is kept.
  pub lookup_keys :
      (j : K) (keep : K → Bool) (d : List (K × V))
      → lookup j (select (λ (p : K × V). keep p.0) d) ≡ (if keep j then lookup j d else none)
  unfolding select lookup
  lookup_keys j keep [] = ground arith
  lookup_keys j keep ((i, w) ∷ d) = elim (Bool-cases (j == i)) [
    | inl same ↦ ground (arith, lookup_keys j keep d, ap keep (let e : j ≡ i = ground arith in e))
    | inr differ ↦ ground (arith, lookup_keys j keep d)
  ]

  pub All-upsert {κ} :
      (P : K × V → Type κ) (k : K) (v : V) (d : List (K × V))
      → P (k, v)
      → All P d
      → All P (upsert k v d)
  unfolding upsert
  All-upsert P k v [] p h = (p, tt)
  All-upsert P k v ((j, w) ∷ d) p h = elim (Bool-cases (k == j)) [
    | inl same ↦ rw same (p, h.1)
    | inr differ ↦ rw differ (h.0, All-upsert P k v d p h.1)
  ]

  pub All-without {κ} :
      (P : K × V → Type κ) (k : K) (d : List (K × V)) → All P d → All P (without k d)
  unfolding without
  All-without P k [] h = tt
  All-without P k ((j, w) ∷ d) h = elim (Bool-cases (k == j)) [
    | inl same ↦ rw same (All-without P k d h.1)
    | inr differ ↦ rw differ (h.0, All-without P k d h.1)
  ]

  pub All-lookup {κ} :
      (P : K × V → Type κ) (k : K) (v : V) (d : List (K × V))
      → All P d
      → lookup k d ≡ some v
      → P (k, v)
  unfolding lookup
  All-lookup P k v [] h e = absurd (ground arith)
  All-lookup P k v ((j, w) ∷ d) h e = elim (Bool-cases (k == j)) [
    | inl same ↦
        let key : j ≡ k = ground arith in
        let value : w ≡ v = ground arith in subst (λ (p : K × V). P p) (λ i. (key i, value i)) h.0
    | inr differ ↦ All-lookup P k v d h.1 (ground arith)
  ]

  pub length-upsert :
      (k : K) (v : V) (d : List (K × V))
      → length (upsert k v d) ≡ elim (lookup k d) [ none ↦ suc (length d) | some w ↦ length d ]
  unfolding upsert lookup
  length-upsert k v [] = refl
  length-upsert k v ((j, w) ∷ d) = ground (arith, length-upsert k v d)
