-- ===== src/Records/Query.antt =====
-- Which queries the constructor accepts, and in what form.
use Prim.Native.Nat.{Ordering}
use Prim.Native.String
use session_search.Base.{
  ◌≤◌, ◌≡◌, ◌≢◌, ◌↔◌, refl, sym, ap, subst, ◌∙◌, String, Bool, true, false, ◌&&◌, ◌⊎◌, inl, inr,
  Option, none, some, List, [], ◌∷◌, arith, length, string_eq, string_dec, nat_eq, All,
}
use session_search.Base.Result.{Result, Result-cases, ok}
use session_search.Records.{
  SearchQuery, make_query, normalize_bound, normalize_time, check_sources, check_role, truthy,
  not_before, source_ok, all,
}

-- No role, or one of the two that a query may ask for.
abbrev pub IsRole : Option String → Type 0
IsRole role = (role ≡ none) ⊎ ((role ≡ some "user") ⊎ (role ≡ some "assistant"))

-- No sources are named, or between one and 32, each with 1 to 64 characters, and `all_sources` is
-- not set.
abbrev pub AreSources : Option (List String) → Bool → Type 0
AreSources sources everything =
    (sources ≡ none)
    ⊎ ((names : List String) × (sources ≡ some names)
        × (1 ≤ length names)
        × (length names ≤ 32)
        × All (λ name. (name ≢ "") × (String.count name ≤ 64)) names
        × (everything ≡ false))

-- A bound that is given and not empty.
abbrev pub Given : Option String → String → Type 0
Given bound t = (bound ≡ some t) × (t ≢ "")

-- The first bound is before the second, if both are given and not empty.
abbrev pub Ordered : Option String → Option String → Type 0
Ordered after before =
    (a b : String) → Given after a → Given before b → String.compare a b ≡ Ordering.lt

-- What the fields of a query have to be, once its time bounds are normalized.
pub record IsQuery (is_blank : String → Bool) (q : SearchQuery) : Type 0 where
  pub asked : is_blank q.text ≡ false
  pub text_short : String.count q.text ≤ 8192
  pub role : IsRole q.role
  pub limit_low : 1 ≤ q.limit
  pub limit_high : q.limit ≤ 100
  pub excluded : length q.exclude_sessions ≤ 100
  pub sources : AreSources q.sources q.all_sources
  pub ordered : Ordered q.after q.before

all-All :
    (xs : List String) → all source_ok xs ≡ true → All (λ x. (x ≢ "") × (String.count x ≤ 64)) xs
unfolding all
all-All [] h = tt
all-All (x ∷ xs) h = ((ground arith, ground arith), all-All xs (ground arith))

All-all :
    (xs : List String) → All (λ x. (x ≢ "") × (String.count x ≤ 64)) xs → all source_ok xs ≡ true
unfolding all
All-all [] h = refl
All-all (x ∷ xs) h = ground (arith, All-all xs h.1, h.0.0, h.0.1)

check_sources_iff :
    (sources : Option (List String)) (everything : Bool)
    → (check_sources sources everything ≡ true) ↔ AreSources sources everything
unfolding check_sources
check_sources_iff none everything = (λ h. inl refl, λ h. refl)
check_sources_iff (some names) everything = (
  λ h. inr (names, refl, ground arith, ground arith, all-All names (ground arith), ground arith),
  λ h. elim h [
    | inl e ↦ absurd (ground arith)
    | inr (xs, e, low, high, fine, only) ↦
        let same : names ≡ xs = ground arith in
        let a : All (λ x. (x ≢ "") × (String.count x ≤ 64)) names =
          subst (All (λ x. (x ≢ "") × (String.count x ≤ 64))) (sym same) fine in
        ground (arith, All-all names a, ap length same)
  ],
)

check_role_iff : (role : Option String) → (check_role role ≡ true) ↔ IsRole role
unfolding check_role
check_role_iff none = (λ h. inl refl, λ h. refl)
check_role_iff (some r) = (
  λ h. elim (string_dec r "user") [
    | yes e ↦ inr (inl (ap some e))
    | no n ↦ inr (inr (ap some (ground arith)))
  ],
  λ h. elim h [
    | inl e ↦ absurd (ground arith)
    | inr (inl e) ↦ ground arith
    | inr (inr e) ↦ ground arith
  ],
)

-- What becomes of a time bound: one that is missing or empty stays, another is normalized.
pub data Normalized (parse_time : String → Result String)
    : Option String → Option String → Type 0 where
  missing : Normalized parse_time none none
  empty : Normalized parse_time (some "") (some "")
  given : {t u : String} → t ≢ "" → parse_time t ≡ ok u → Normalized parse_time (some t) (some u)

compare_cases :
    (a b : String) → (String.compare a b ≡ Ordering.lt) ⊎ (not_before (some a) (some b) ≡ true)
unfolding not_before
compare_cases a b = by_ordering (String.compare a b)
  where
    by_ordering :
        (o : Ordering) → (o ≡ Ordering.lt) ⊎ ((elim o [ Ordering.lt ↦ false | _ ↦ true ]) ≡ true)
    by_ordering Ordering.lt = inl refl
    by_ordering Ordering.eq = inr refl
    by_ordering Ordering.gt = inr refl

before_lem :
    (a b : String) → String.compare a b ≡ Ordering.lt → not_before (some a) (some b) ≡ false
unfolding not_before
before_lem a b h = rw (not_before, h) refl

check_order_iff :
    (after before : Option String)
    → ((truthy after && truthy before && not_before after before) ≡ false) ↔ Ordered after before
unfolding not_before
check_order_iff none before = (λ h a b x y. absurd (ground (arith, x.0)), λ h. refl)
check_order_iff (some s) none = (λ h a b x y. absurd (ground (arith, y.0)), λ h. ground arith)
check_order_iff (some s) (some t) = (
  λ h a b x y. elim (compare_cases s t) [
    | inl e ↦
        let x' : s ≡ a = ground (arith, x.0) in
        let y' : t ≡ b = ground (arith, y.0) in
        subst (λ v. String.compare a v ≡ Ordering.lt) y'
          (subst (λ v. String.compare v t ≡ Ordering.lt) x' e)
    | inr e ↦ absurd (ground (arith, h, e, x.0, x.1, y.0, y.1))
  ],
  λ h. elim (string_dec s "") [
    | yes e ↦ ground (arith, e)
    | no m ↦ elim (string_dec t "") [
      | yes e ↦ ground (arith, e)
      | no n ↦ ground (arith, before_lem s t (h s t (refl, m) (refl, n)))
    ]
  ],
)

module _ (parse_time : String → Result String) where
  normalize_bound-Normalized :
      (bound out : Option String)
      → normalize_bound parse_time bound ≡ ok out
      → Normalized parse_time bound out
  unfolding normalize_bound normalize_time
  normalize_bound-Normalized none out h =
      let e : none ≡ out = ground arith in subst (Normalized parse_time none) e missing
  normalize_bound-Normalized (some t) out h = elim (string_dec t "") [
    | yes e ↦
        let o : some t ≡ out = ground (arith, e) in
        subst (λ b. Normalized parse_time b out) (ap some (sym e))
          (subst (Normalized parse_time (some "")) (ap some (sym e) ∙ o) empty)
    | no n ↦ elim (Result-cases (parse_time t)) [
      | inl (u, parsed) ↦
          let o : some u ≡ out = ground (arith, n, parsed) in
          subst (Normalized parse_time (some t)) o (given n parsed)
      | inr (x, failed) ↦ absurd (ground (arith, n, failed))
    ]
  ]

  Normalized-normalize_bound :
      (bound out : Option String)
      → Normalized parse_time bound out
      → normalize_bound parse_time bound ≡ ok out
  unfolding normalize_bound normalize_time
  Normalized-normalize_bound _ _ missing = refl
  Normalized-normalize_bound _ _ empty = ground arith
  Normalized-normalize_bound _ _ (given n parsed) = ground (arith, n, parsed)

  module _ (is_blank : String → Bool) where
    make_query-accepts :
        (q : SearchQuery) (a b : Option String)
        → Normalized parse_time q.after a
        → Normalized parse_time q.before b
        → IsQuery is_blank (record q { after = a; before = b })
        → make_query parse_time is_blank q ≡ ok (record q { after = a; before = b })
    unfolding make_query
    make_query-accepts q a b after before v = ground (
      arith,
      Normalized-normalize_bound q.after a after,
      Normalized-normalize_bound q.before b before,
      (check_sources_iff q.sources q.all_sources).1 v.sources,
      (check_role_iff q.role).1 v.role,
      (check_order_iff a b).1 v.ordered,
      v.asked,
      v.text_short,
      v.limit_low,
      v.limit_high,
      v.excluded,
    )

    -- A query is accepted, with its time bounds normalized and nothing else changed, exactly when
    -- its text is not blank and has at most 8192 characters, its role is none, user or assistant,
    -- its limit is 1 to 100, at most 100 sessions are excluded, the sources are not given or are 1
    -- to 32 names of 1 to 64 characters without all_sources, and the normalized after precedes
    -- before when both are given and not empty.
    pub make_query-IsQuery :
        (q r : SearchQuery)
        → (make_query parse_time is_blank q ≡ ok r) ↔ (
            (r ≡ record q { after = r.after; before = r.before })
            × Normalized parse_time q.after r.after
            × Normalized parse_time q.before r.before
            × IsQuery is_blank r)
    unfolding make_query
    make_query-IsQuery q r = (
      λ h. (
        ground arith,
        normalize_bound-Normalized q.after r.after (ground arith),
        normalize_bound-Normalized q.before r.before (ground arith),
        record {
          asked = ground arith;
          text_short = ground arith;
          role = (check_role_iff r.role).0 (ground arith);
          limit_low = ground arith;
          limit_high = ground arith;
          excluded = ground arith;
          sources = (check_sources_iff r.sources r.all_sources).0 (ground arith);
          ordered = (check_order_iff r.after r.before).0 (ground arith);
        },
      ),
      λ (same, after, before, v).
          make_query-accepts q r.after r.before after before (subst (IsQuery is_blank) same v)
          ∙ ap ok (sym same),
    )
