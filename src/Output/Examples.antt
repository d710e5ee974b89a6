-- ===== src/Output/Examples.antt =====
-- Runs of `bounded_response` on small responses, with a size that counts characters.
use session_search.Base.{
  ℕ, ◌+◌, ◌≡◌, ◌≤◌, ◌<◌, ◌⊎◌, refl, String, false, some, List, [], ◌∷◌, arith, length, map,
  replicate, inl, string_dec,
}
use native.Mathlib.Decide.{ℕ_discrete}
use session_search.Output.Fields.{
  Event, Response, weight_items, weight_events, drop_neighbor, last_neighbor, is_target, remove,
  event_dec, longest, longest_event, shorten, shorten_events, cut,
}
use session_search.Output.{
  Outcome, returned, raised, weight, loop, drop_timings, reduce, bounded_response,
}
use session_search.Output.Bounded.{Bounded, bounded_response-Bounded, bounded_response_range}
use session_search.Output.Flags.{Cut, reset, untimed, bounded_response-Cut}

abbrev event : String → ℕ → Event
event id n = record { event_id = id; text = replicate n 97; text_truncated = false; rest = "{}" }

abbrev sample : Response
sample = record {
  results =
      record {
        target = some "e2";
        excerpt = replicate 140 98;
        text_truncated = false;
        events = event "e1" 200 ∷ event "e2" 300 ∷ event "e3" 150 ∷ [];
        rest = "{}";
      }
      ∷ [];
  truncated = false;
  omitted_results = 0;
  omitted_events = 0;
  timings_ms = some "{}";
  rest = "{}";
}

abbrev count : Response → ℕ
count r = 600 + weight r

abbrev bounded_texts : Outcome → List (List ℕ)
bounded_texts (returned r) = map (λ x. map (λ e. length e.text) x.events) r.results
bounded_texts _ = []

-- The neighbors e3 and e1 go first, then the text of e2 is halved.
sample_cut : bounded_texts (bounded_response count sample 1024) ≡ (151 ∷ []) ∷ []
unfolding bounded_response loop drop_timings reduce weight string_dec weight_items weight_events
    drop_neighbor last_neighbor is_target remove event_dec ℕ_discrete longest longest_event shorten
    shorten_events cut
sample_cut = refl

bounded_response-Bounded_example : Bounded count 1024 sample (bounded_response count sample 1024)
bounded_response-Bounded_example =
    bounded_response-Bounded count sample 1024 (omega arith) (omega arith)

bounded_response-Cut_example :
    ((count (reset sample) ≤ 1024) × (bounded_response count sample 1024 ≡ returned (reset sample)))
    ⊎ (((1024 < count (reset sample))
          × (count (untimed sample) ≤ 1024)
          × (bounded_response count sample 1024 ≡ returned (untimed sample)))
        ⊎ ((1024 < count (reset sample))
            × (1024 < count (untimed sample))
            × Cut sample (bounded_response count sample 1024)))
bounded_response-Cut_example = bounded_response-Cut count sample 1024 (omega arith) (omega arith)

bounded_response_range_example : bounded_response count sample 1000 ≡ raised
bounded_response_range_example = bounded_response_range count sample 1000 (inl (omega arith))
