-- ===== src/Output.antt =====
-- src/session_search/core/output.py: `bounded_response`, which cuts a response down to a byte
-- budget. Texts are lists of code points. The length of the serialized response (`canonical_json`,
-- that is `json.dumps`) is the parameter `size`. What the code carries along unread is `rest`.
-- The objects of a response are distinct: no item or event occurs twice by reference.
mod Fields
pub mod Kept
mod Cuts
pub mod Bounded
pub mod Flags
mod Examples
unfoldable pub use Fields.*
use session_search.Base.{
  ℕ, zero, suc, ◌+◌, ◌-◌, ◌/◌, String, Bool, true, false, not, ◌&&◌, ◌||◌, Option, none, some, List,
  [], ◌∷◌, max, leb, ltb, if◌then◌else◌, ◌==◌, nat_eq, length,
}

-- The result of a call: the response, the `ValueError`, or (in the model only) no fuel left.
pub data Outcome : Type 0 where
  returned : Response → Outcome
  raised : Outcome
  out_of_fuel : Outcome

abbrev pub min_output_budget : ℕ
min_output_budget = 1024

abbrev pub max_output_budget : ℕ
max_output_budget = 65536

-- One round of `while size() > budget`; `none` is the `ValueError`.
unfoldable pub reduce : Response → Option Response
reduce r = elim (drop_neighbor r.results) [
  | some items ↦
      some (record r { results = items; omitted_events = r.omitted_events + 1; truncated = true })
  | none ↦
      if ltb 129 (longest r.results)
      then some (record r { results = shorten (longest r.results) r.results; truncated = true })
      else elim r.results [
        | [] ↦ none
        | x ∷ xs ↦ some (record r {
          results = pop x xs;
          omitted_results = r.omitted_results + 1;
          truncated = true;
        })
      ]
]

-- `deepcopy` and `update` at the head of the function.
abbrev pub start : Response → Response
start r = record r { truncated = false; omitted_results = 0; omitted_events = 0 }

-- What a response holds that a round can take away.
unfoldable pub weight : Response → ℕ
weight r = weight_items r.results

module _ (size : Response → ℕ) where
  unfoldable pub loop : ℕ → ℕ → Response → Outcome
  loop zero budget r = out_of_fuel
  loop (suc fuel) budget r =
      let rest : Outcome = elim (reduce r) [ none ↦ raised | some r' ↦ loop fuel budget r' ] in
      if leb (size r) budget then returned r else rest

  -- Timings go first, and only from a response that is too large.
  unfoldable pub drop_timings : ℕ → Response → Response
  drop_timings budget r = if leb (size r) budget then r else record r { timings_ms = none }

  unfoldable pub bounded_response : Response → ℕ → Outcome
  bounded_response response budget =
      if leb min_output_budget budget && leb budget max_output_budget
      then loop (suc (weight response)) budget (drop_timings budget (start response))
      else raised
