-- ===== src/Output/Fields.antt =====
-- The data of a response, and the three cuts that `bounded_response` makes.
use session_search.Base.{
  ℕ, suc, ◌+◌, ◌/◌, String, Bool, true, false, Option, none, some, List, [], ◌∷◌, ◌++◌, max,
  if◌then◌else◌, ◌==◌, string_dec, string_eq, nat_eq, length, take,
}
use native.Mathlib.Decide.{ℕ_discrete}

-- One event of an item. A missing "text" reads as the empty text.
pub record Event : Type 0 where
  pub event_id : String
  pub text : List ℕ
  pub text_truncated : Bool
  pub rest : String

-- One result. `target` is the `event_id` of its citation, if it has one.
pub record Item : Type 0 where
  pub target : Option String
  pub excerpt : List ℕ
  pub text_truncated : Bool
  pub events : List Event
  pub rest : String

pub record Response : Type 0 where
  pub results : List Item
  pub truncated : Bool
  pub omitted_results : ℕ
  pub omitted_events : ℕ
  pub timings_ms : Option String
  pub rest : String

-- Python compares two events field by field.
unfoldable pub event_dec : Discrete Event
event_dec = hlevel (string_dec, ℕ_discrete)

-- `event["event_id"] != target`
unfoldable pub is_target : Option String → Event → Bool
is_target none e = false
is_target (some id) e = id == e.event_id

-- `events.remove(event)`: the first event that is equal to it.
unfoldable pub remove : Event → List Event → List Event
remove e [] = []
remove e (x ∷ xs) = let rest = x ∷ remove e xs in elim (event_dec x e) [ yes _ ↦ xs | no _ ↦ rest ]

-- The last event that is not the cited one: the first that `reversed(events)` finds.
unfoldable pub last_neighbor : Option String → List Event → Option Event
last_neighbor t [] = none
last_neighbor t (e ∷ es) = elim (last_neighbor t es) [
  | some x ↦ some x
  | none ↦ if is_target t e then none else some e
]

-- `for item in reversed(results)`: the last item with a neighbor loses its last one.
unfoldable pub drop_neighbor : List Item → Option (List Item)
drop_neighbor [] = none
drop_neighbor (x ∷ xs) = elim (drop_neighbor xs) [
  | some ys ↦ some (x ∷ ys)
  | none ↦ elim (last_neighbor x.target x.events) [
    | none ↦ none
    | some e ↦ some (record x { events = remove e x.events } ∷ xs)
  ]
]

-- The length of the longest text: excerpts and event texts.
unfoldable pub longest_event : List Event → ℕ
longest_event [] = 0
longest_event (e ∷ es) = max (length e.text) (longest_event es)

unfoldable pub longest : List Item → ℕ
longest [] = 0
longest (x ∷ xs) = max (length x.excerpt) (max (longest_event x.events) (longest xs))

-- `obj[key][:max(128, len(obj[key]) // 2)] + "…"`
abbrev pub ellipsis : ℕ
ellipsis = 0x2026

unfoldable pub cut : List ℕ → List ℕ
cut s = take (max 128 (length s / 2)) s ++ ellipsis ∷ []

-- `max(candidates, key=…)` is the first text of the greatest length `n`, in the order in which
-- `candidates` lists them: for each item its excerpt, then the texts of its events.
unfoldable pub shorten_events : ℕ → List Event → List Event
shorten_events n [] = []
shorten_events n (e ∷ es) =
    if length e.text == n
    then record e { text = cut e.text; text_truncated = true } ∷ es
    else e ∷ shorten_events n es

unfoldable pub shorten : ℕ → List Item → List Item
shorten n [] = []
shorten n (x ∷ xs) =
    if length x.excerpt == n
    then record x { excerpt = cut x.excerpt; text_truncated = true } ∷ xs
    else if longest_event x.events == n
    then record x { events = shorten_events n x.events } ∷ xs
    else x ∷ shorten n xs

-- `results.pop()` on `x ∷ xs`.
unfoldable pub pop : Item → List Item → List Item
pop x [] = []
pop x (y ∷ ys) = x ∷ pop y ys

unfoldable pub weight_events : List Event → ℕ
weight_events [] = 0
weight_events (e ∷ es) = suc (length e.text + weight_events es)

unfoldable pub weight_items : List Item → ℕ
weight_items [] = 0
weight_items (x ∷ xs) = suc (length x.excerpt + (weight_events x.events + weight_items xs))
