-- ===== src/Output/Flags.antt =====
-- What `bounded_response` does to the flag, the counters and the timings of a response.
use session_search.Base.{
  ℕ, zero, suc, ◌≤◌, ◌<◌, ◌≡◌, ◌≢◌, refl, ap, ◌∙◌, true, false, ◌⊎◌, inl, inr, none, some, arith,
  leb, Bool-cases, Option-cases,
}
use session_search.Output.Fields.{Response, weight_items}
use session_search.Output.{
  Outcome, returned, raised, out_of_fuel, reduce, weight, loop, drop_timings, bounded_response,
  min_output_budget, max_output_budget,
}
use session_search.Output.Bounded.{reduce-Reduced, weight-reduce, le→leb}

-- The response with its flag and counters at their start.
abbrev pub reset : Response → Response
reset a = record a { truncated = false; omitted_results = 0; omitted_events = 0 }

-- And without its timings.
abbrev pub untimed : Response → Response
untimed a = record a {
  truncated = false;
  omitted_results = 0;
  omitted_events = 0;
  timings_ms = none;
}

-- A response with its timings gone, its results changed, and marked for that.
abbrev pub Cut : Response → Outcome → Type 0
Cut a (returned r) = (r.results ≢ a.results) × (r.truncated ≡ true) × (r.timings_ms ≡ none)
Cut a raised = Unit
Cut a out_of_fuel = ⊥

reduce_flag :
    (r s : Response) → reduce r ≡ some s → (s.truncated ≡ true) × (s.timings_ms ≡ r.timings_ms)
reduce_flag r s h = elim (reduce-Reduced r s h) [
  | inl (items, e, p) ↦ rw p (refl, refl)
  | inr (inl (l, p)) ↦ rw p (refl, refl)
  | inr (inr (x, xs, e, p)) ↦ rw p (refl, refl)
]

weight_apart : (a r : Response) → weight r < weight a → r.results ≢ a.results
unfolding weight
weight_apart a r h e =
    (let t : weight_items r.results ≡ weight_items a.results = ap weight_items e in omega arith)

gtb : {a b : ℕ} → b < a → leb a b ≡ false
gtb h = ground arith

module _ (size : Response → ℕ) where
  loop-Cut :
      (fuel budget : ℕ) (a r : Response)
      → weight r < fuel
      → weight r < weight a
      → r.truncated ≡ true
      → r.timings_ms ≡ none
      → Cut a (loop size fuel budget r)
  unfolding loop
  loop-Cut zero budget a r w less flag timings = absurd (omega arith)
  loop-Cut (suc fuel) budget a r w less flag timings = elim (Bool-cases (leb (size r) budget)) [
    | inl fits ↦ rw fits (weight_apart a r less, flag, timings)
    | inr more ↦ elim (Option-cases (reduce r)) [
      | inl e ↦ rw (more, e) tt
      | inr (s, e) ↦
          let lighter : weight s < weight r = weight-reduce r s e in
          let marks : (s.truncated ≡ true) × (s.timings_ms ≡ r.timings_ms) = reduce_flag r s e in
          rw (more, e)
            (loop-Cut fuel budget a s (omega arith) (omega arith) marks.0 (marks.1 ∙ timings))
    ]
  ]

  -- The first round of a response without timings that is too large.
  loop_large :
      (fuel budget : ℕ) (a r : Response)
      → weight r ≤ fuel
      → weight r ≡ weight a
      → r.timings_ms ≡ none
      → budget < size r
      → Cut a (loop size (suc fuel) budget r)
  unfolding loop
  loop_large fuel budget a r w same timings large = elim (Option-cases (reduce r)) [
    | inl e ↦ rw (gtb large, e) tt
    | inr (s, e) ↦
        let lighter : weight s < weight r = weight-reduce r s e in
        let marks : (s.truncated ≡ true) × (s.timings_ms ≡ r.timings_ms) = reduce_flag r s e in
        rw (gtb large, e)
          (loop-Cut fuel budget a s (omega arith) (omega arith) marks.0 (marks.1 ∙ timings))
  ]

  -- For a budget in range: a response that fits with truncated false and both counters zero comes
  -- back so; one that fits only without its timings comes back without them and otherwise the same;
  -- from any larger response, what comes back has other results, has no timings and is marked
  -- truncated, or the error is raised.
  pub bounded_response-Cut :
      (a : Response) (budget : ℕ)
      → min_output_budget ≤ budget
      → budget ≤ max_output_budget
      → ((size (reset a) ≤ budget) × (bounded_response size a budget ≡ returned (reset a)))
        ⊎ (((budget < size (reset a))
              × (size (untimed a) ≤ budget)
              × (bounded_response size a budget ≡ returned (untimed a)))
            ⊎ ((budget < size (reset a))
                × (budget < size (untimed a))
                × Cut a (bounded_response size a budget)))
  unfolding bounded_response loop drop_timings weight
  bounded_response-Cut a budget low high = elim (Bool-cases (leb (size (reset a)) budget)) [
    | inl fits ↦ inl (
      ground arith,
      rw (bounded_response, le→leb low, le→leb high, drop_timings, fits, loop, fits) refl,
    )
    | inr large ↦ elim (Bool-cases (leb (size (untimed a)) budget)) [
      | inl fits ↦ inr (
          inl (
            ground arith,
            ground arith,
            rw (bounded_response, le→leb low, le→leb high, drop_timings, large, loop, fits) refl,
          ))
      | inr more ↦ inr (
          inr (
            ground arith,
            ground arith,
            rw (bounded_response, le→leb low, le→leb high, drop_timings, large)
                (loop_large (weight a) budget a (untimed a) (omega arith) refl refl (ground arith)),
          ))
    ]
  ]
