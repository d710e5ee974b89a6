-- ===== src/Output/Bounded.antt =====
-- The loop of `bounded_response` ends within the budget, and what it returns.
use session_search.Base.{
  ℕ, zero, suc, ◌+◌, ◌≤◌, ◌<◌, ◌≡◌, refl, ap, true, ◌⊎◌, inl, inr, none, some, List, [], ◌∷◌, arith,
  length, leb, ltb, Bool-cases, Option-cases,
}
use session_search.Output.Fields.{
  Item, Response, drop_neighbor, longest, shorten, pop, weight_items,
}
use session_search.Output.Kept.{KeptItems, KeptItems-refl}
use session_search.Output.Cuts.{
  drop_neighbor-KeptItems, shorten-KeptItems, pop-KeptItems, weight_items-drop_neighbor,
  weight_items-shorten, weight_items-pop, length-drop_neighbor, length-shorten, length-pop,
}
use session_search.Output.{
  Outcome, returned, raised, out_of_fuel, reduce, start, weight, loop, drop_timings,
  bounded_response, min_output_budget, max_output_budget,
}

-- `r` is `a`, cut: the first results are left, each with its citation and cited events, the others
-- are counted, and a response that lost something says so.
pub record Kept (a r : Response) : Type 0 where
  pub items : KeptItems a.results r.results
  pub counted : length r.results + r.omitted_results ≡ length a.results
  pub flagged : (r.truncated ≡ true) ⊎ (r.results ≡ a.results)
  pub timings : (r.timings_ms ≡ none) ⊎ (r.timings_ms ≡ a.timings_ms)
  pub others : r.rest ≡ a.rest

-- What one round does.
abbrev pub Reduced : Response → Response → Type 0
Reduced r s =
    ((items : List Item) × (drop_neighbor r.results ≡ some items)
      × (s ≡ record r { results = items; omitted_events = r.omitted_events + 1; truncated = true }))
    ⊎ ((129 < longest r.results)
        × (s ≡ record r { results = shorten (longest r.results) r.results; truncated = true }))
    ⊎ ((x : Item) × (xs : List Item) × (r.results ≡ x ∷ xs)
        × (s ≡ record r {
          results = pop x xs;
          omitted_results = r.omitted_results + 1;
          truncated = true;
        }))

List-cases : (xs : List Item) → (xs ≡ []) ⊎ ((y : Item) × (ys : List Item) × (xs ≡ y ∷ ys))
List-cases [] = inl refl
List-cases (y ∷ ys) = inr (y, ys, refl)

pub reduce-Reduced : (r s : Response) → reduce r ≡ some s → Reduced r s
unfolding reduce
reduce-Reduced r s h = elim (Option-cases (drop_neighbor r.results)) [
  | inr (items, e) ↦ inl (items, e, ground arith)
  | inl e ↦ elim (Bool-cases (ltb 129 (longest r.results))) [
    | inl l ↦ inr (inl (ground arith, ground arith))
    | inr l ↦ elim (List-cases r.results) [
      | inl f ↦ absurd (ground arith)
      | inr (x, xs, f) ↦ inr (inr (x, xs, f, ground arith))
    ]
  ]
]

reduce-none : (r : Response) → reduce r ≡ none → r.results ≡ []
unfolding reduce
reduce-none r h = ground arith

pub weight-reduce : (r s : Response) → reduce r ≡ some s → weight s < weight r
unfolding weight
weight-reduce r s h = elim (reduce-Reduced r s h) [
  | inl (items, e, p) ↦ rw p (weight_items-drop_neighbor r.results items e)
  | inr (inl (l, p)) ↦ rw p (weight_items-shorten (longest r.results) r.results refl l)
  | inr (inr (x, xs, e, p)) ↦ rw p (omega (arith, ap weight_items e, weight_items-pop x xs))
]

reduce-Kept : (a r s : Response) → Kept a r → reduce r ≡ some s → Kept a s
reduce-Kept a r s k h = elim (reduce-Reduced r s h) [
  | inl (items, e, p) ↦ rw p (record {
    items = drop_neighbor-KeptItems a.results r.results items k.items e;
    counted = omega (arith, k.counted, length-drop_neighbor r.results items e);
    flagged = inl refl;
    timings = k.timings;
    others = k.others;
  })
  | inr (inl (l, p)) ↦ rw p (record {
    items = shorten-KeptItems (longest r.results) a.results r.results l k.items;
    counted = omega (arith, k.counted, length-shorten (longest r.results) r.results);
    flagged = inl refl;
    timings = k.timings;
    others = k.others;
  })
  | inr (inr (x, xs, e, p)) ↦ rw p (record {
    items = pop-KeptItems a.results x xs (rw e at k.items);
    counted = omega (arith, k.counted, length-pop x xs, ap length e);
    flagged = inl refl;
    timings = k.timings;
    others = k.others;
  })
]

pub le→leb : {a b : ℕ} → a ≤ b → leb a b ≡ true
le→leb h = ground arith

weight-start : (a : Response) → weight (start a) ≡ weight a
unfolding weight
weight-start a = refl

module _ (size : Response → ℕ) where
  -- A result within the budget that keeps what it must, or the error, and then a response that
  -- has no result left is still too large.
  abbrev pub Bounded : ℕ → Response → Outcome → Type 0
  Bounded budget a (returned r) = (size r ≤ budget) × Kept a r
  Bounded budget a raised = (r : Response) × (budget < size r) × (r.results ≡ []) × Kept a r
  Bounded budget a out_of_fuel = ⊥

  loop-Bounded :
      (fuel budget : ℕ) (a r : Response)
      → weight r < fuel
      → Kept a r
      → Bounded budget a (loop size fuel budget r)
  unfolding loop
  loop-Bounded zero budget a r w k = absurd (omega arith)
  loop-Bounded (suc fuel) budget a r w k = elim (Bool-cases (leb (size r) budget)) [
    | inl fits ↦ rw fits (ground arith, k)
    | inr more ↦ elim (Option-cases (reduce r)) [
      | inl e ↦ rw (more, e) (r, ground arith, reduce-none r e, k)
      | inr (s, e) ↦
          rw (more, e)
            (loop-Bounded fuel budget a s (omega (arith, weight-reduce r s e))
              (reduce-Kept a r s k e))
    ]
  ]

  start-Kept : (a : Response) → Kept a (start a)
  start-Kept a = record {
    items = KeptItems-refl a.results;
    counted = omega arith;
    flagged = inr refl;
    timings = inr refl;
    others = refl;
  }

  drop_timings-Kept : (budget : ℕ) (a r : Response) → Kept a r → Kept a (drop_timings size budget r)
  unfolding drop_timings
  drop_timings-Kept budget a r k = elim (Bool-cases (leb (size r) budget)) [
    | inl fits ↦ rw fits k
    | inr more ↦ rw more (record {
      items = k.items;
      counted = k.counted;
      flagged = k.flagged;
      timings = inl refl;
      others = k.others;
    })
  ]

  weight-drop_timings : (budget : ℕ) (r : Response) → weight (drop_timings size budget r) ≡ weight r
  unfolding weight drop_timings
  weight-drop_timings budget r = ground arith

  -- For a budget in range bounded_response ends, with a response within the budget or with the
  -- error when not even a response without results fits; the results left are the first ones, with
  -- citation, cited events and texts that are whole or keep at least 128 characters before an
  -- ellipsis; the results that are gone are counted and a response with changed results is marked
  -- truncated.
  pub bounded_response-Bounded :
      (a : Response) (budget : ℕ)
      → min_output_budget ≤ budget
      → budget ≤ max_output_budget
      → Bounded budget a (bounded_response size a budget)
  unfolding bounded_response
  bounded_response-Bounded a budget low high =
      let r : Response = drop_timings size budget (start a) in
      rw (le→leb low, le→leb high)
        (loop-Bounded (suc (weight a)) budget a r
          (omega (arith, weight-drop_timings budget (start a), weight-start a))
          (drop_timings-Kept budget a (start a) (start-Kept a)))

  -- A budget out of range is refused.
  pub bounded_response_range :
      (a : Response) (budget : ℕ)
      → (budget < min_output_budget) ⊎ (max_output_budget < budget)
      → bounded_response size a budget ≡ raised
  unfolding bounded_response
  bounded_response_range a budget out = ground arith
