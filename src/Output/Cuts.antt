-- ===== src/Output/Cuts.antt =====
-- Each cut of `bounded_response` keeps what a response must keep, and makes it smaller.
use session_search.Base.{
  ℕ, suc, ◌/◌, ◌<◌, ◌≡◌, refl, sym, ap, ◌∙◌, String, true, false, ◌⊎◌, inl, inr, Option, none, some,
  List, [], ◌∷◌, arith, max, length, take, Bool-cases, Option-cases, ◌==◌, nat_eq, length-take,
  length-append,
}
use session_search.Output.Fields.{
  Event, Item, event_dec, is_target, remove, last_neighbor, drop_neighbor, longest_event, longest,
  ellipsis, cut, shorten_events, shorten, pop, weight_events, weight_items,
}
use session_search.Output.Kept.{KeptEvent, KeptEvents, end, dropped, kept, KeptItems, Shown-cut}

last_neighbor-is_target :
    (t : Option String) (es : List Event) (e : Event)
    → last_neighbor t es ≡ some e
    → is_target t e ≡ false
unfolding last_neighbor
last_neighbor-is_target t [] e h = cc
last_neighbor-is_target t (x ∷ es) e h = ground (arith, last_neighbor-is_target t es e)

is_target_ext :
    (t : Option String) (x f : Event) → f.event_id ≡ x.event_id → is_target t f ≡ is_target t x
unfolding is_target
is_target_ext none x f h = refl
is_target_ext (some id) x f h = rw h

remove-KeptEvents :
    {t : Option String} {xs ys : List Event} (e : Event)
    → is_target t e ≡ false
    → KeptEvents t xs ys
    → KeptEvents t xs (remove e ys)
unfolding remove
remove-KeptEvents e h end = end
remove-KeptEvents e h (dropped d r) = dropped d (remove-KeptEvents e h r)
remove-KeptEvents {t} e h (kept {e = x} {f = f} {xs = xs} {ys = ys} k r) =
    let rest : KeptEvents t xs (remove e ys) = remove-KeptEvents e h r in
    elim (event_dec f e)
      as (λ d. KeptEvents t (x ∷ xs) (elim d [ yes _ ↦ ys | no _ ↦ f ∷ remove e ys ])) [
        | yes p ↦ dropped (sym (is_target_ext t x f k.0) ∙ ap (is_target t) p ∙ h) r
        | no n ↦ kept k rest
      ]

weight_events-remove :
    (t : Option String) (es : List Event) (e : Event)
    → last_neighbor t es ≡ some e
    → weight_events (remove e es) < weight_events es
unfolding last_neighbor remove weight_events
weight_events-remove t [] e h = cc
weight_events-remove t (x ∷ es) e h = ground (arith, weight_events-remove t es e)

length-cut : (s : List ℕ) → 129 < length s → length (cut s) < length s
unfolding cut
length-cut s h = omega (
  arith,
  length-append (take (max 128 (length s / 2)) s) (ellipsis ∷ []),
  length-take (max 128 (length s / 2)) s,
)

-- Which neighbor goes: one of the last item that has any.
abbrev Dropped : Item → List Item → List Item → Type 0
Dropped y ys zs =
    ((ws : List Item) × (drop_neighbor ys ≡ some ws) × (zs ≡ y ∷ ws))
    ⊎ ((e : Event) × (last_neighbor y.target y.events ≡ some e)
        × (zs ≡ record y { events = remove e y.events } ∷ ys))

drop_neighbor-Dropped :
    (y : Item) (ys zs : List Item) → drop_neighbor (y ∷ ys) ≡ some zs → Dropped y ys zs
unfolding drop_neighbor
drop_neighbor-Dropped y ys zs h = elim (Option-cases (drop_neighbor ys)) [
  | inr (ws, e) ↦ inl (ws, e, ground arith)
  | inl e ↦ elim (Option-cases (last_neighbor y.target y.events)) [
    | inl f ↦ absurd (ground arith)
    | inr (v, f) ↦ inr (v, f, ground arith)
  ]
]

pub drop_neighbor-KeptItems :
    (xs ys zs : List Item) → KeptItems xs ys → drop_neighbor ys ≡ some zs → KeptItems xs zs
drop_neighbor-KeptItems xs [] zs k h = unfold drop_neighbor in cc
drop_neighbor-KeptItems [] (y ∷ ys) zs k h = absurd k
drop_neighbor-KeptItems (x ∷ xs) (y ∷ ys) zs k h = elim (drop_neighbor-Dropped y ys zs h) [
  | inl (ws, e, p) ↦ rw p (k.0, drop_neighbor-KeptItems xs ys ws k.1 e)
  | inr (e, f, p) ↦ rw p (
    (
      k.0.0,
      k.0.1,
      k.0.2,
      remove-KeptEvents e
          (ap (λ t. is_target t e) (sym k.0.0) ∙ last_neighbor-is_target y.target y.events e f)
          k.0.3,
    ),
    k.1,
  )
]

shorten_event-KeptEvent :
    (e f : Event)
    → KeptEvent e f
    → 129 < length f.text
    → KeptEvent e (record f { text = cut f.text; text_truncated = true })
shorten_event-KeptEvent e f k h = (k.0, k.1, Shown-cut e.text f.text k.2 h)

shorten_events-KeptEvents :
    {t : Option String} {xs ys : List Event} (n : ℕ)
    → 129 < n
    → KeptEvents t xs ys
    → KeptEvents t xs (shorten_events n ys)
unfolding shorten_events
shorten_events-KeptEvents n h end = end
shorten_events-KeptEvents n h (dropped d r) = dropped d (shorten_events-KeptEvents n h r)
shorten_events-KeptEvents {t} n h (kept {e = x} {f = f} {xs = xs} {ys = ys} k r) =
    elim (Bool-cases (length f.text == n)) [
      | inl p ↦ rw p (kept (shorten_event-KeptEvent x f k (ground arith)) r)
      | inr q ↦ rw q (kept k (shorten_events-KeptEvents n h r))
    ]

pub shorten-KeptItems :
    (n : ℕ) (xs ys : List Item) → 129 < n → KeptItems xs ys → KeptItems xs (shorten n ys)
unfolding shorten
shorten-KeptItems n xs [] h k = tt
shorten-KeptItems n [] (y ∷ ys) h k = absurd k
shorten-KeptItems n (x ∷ xs) (y ∷ ys) h k = elim (Bool-cases (length y.excerpt == n)) [
  | inl p ↦ rw p ((k.0.0, k.0.1, Shown-cut x.excerpt y.excerpt k.0.2 (ground arith), k.0.3), k.1)
  | inr p ↦ elim (Bool-cases (longest_event y.events == n)) [
    | inl q ↦ rw (p, q) ((k.0.0, k.0.1, k.0.2, shorten_events-KeptEvents n h k.0.3), k.1)
    | inr q ↦ rw (p, q) (k.0, shorten-KeptItems n xs ys h k.1)
  ]
]

weight_events-shorten_events :
    (n : ℕ) (es : List Event)
    → longest_event es ≡ n
    → 129 < n
    → weight_events (shorten_events n es) < weight_events es
unfolding longest_event shorten_events weight_events
weight_events-shorten_events n [] e h = omega arith
weight_events-shorten_events n (x ∷ es) e h =
    ground (arith, weight_events-shorten_events n es, length-cut x.text)

pub weight_items-shorten :
    (n : ℕ) (xs : List Item)
    → longest xs ≡ n
    → 129 < n
    → weight_items (shorten n xs) < weight_items xs
unfolding longest shorten weight_items
weight_items-shorten n [] e h = omega arith
weight_items-shorten n (x ∷ xs) e h = ground (
  arith,
  weight_items-shorten n xs,
  length-cut x.excerpt,
  weight_events-shorten_events n x.events,
)

pub weight_items-pop : (x : Item) (xs : List Item) → weight_items (pop x xs) < weight_items (x ∷ xs)
unfolding pop weight_items
weight_items-pop x [] = omega arith
weight_items-pop x (y ∷ ys) = omega (arith, weight_items-pop y ys)

pub pop-KeptItems :
    (xs : List Item) (y : Item) (ys : List Item) → KeptItems xs (y ∷ ys) → KeptItems xs (pop y ys)
unfolding pop
pop-KeptItems xs y [] k = tt
pop-KeptItems [] y (z ∷ zs) k = absurd k
pop-KeptItems (x ∷ xs) y (z ∷ zs) k = (k.0, pop-KeptItems xs z zs k.1)

pub weight_items-drop_neighbor :
    (xs ys : List Item) → drop_neighbor xs ≡ some ys → weight_items ys < weight_items xs
unfolding weight_items
weight_items-drop_neighbor [] ys h = unfold drop_neighbor in cc
weight_items-drop_neighbor (x ∷ xs) ys h = elim (drop_neighbor-Dropped x xs ys h) [
  | inl (ws, e, p) ↦ rw p (omega (arith, weight_items-drop_neighbor xs ws e))
  | inr (e, f, p) ↦ rw p (omega (arith, weight_events-remove x.target x.events e f))
]

-- Neither of these cuts changes the number of results.
pub length-drop_neighbor : (xs ys : List Item) → drop_neighbor xs ≡ some ys → length ys ≡ length xs
length-drop_neighbor [] ys h = unfold drop_neighbor in cc
length-drop_neighbor (x ∷ xs) ys h = elim (drop_neighbor-Dropped x xs ys h) [
  | inl (ws, e, p) ↦ rw p (ap suc (length-drop_neighbor xs ws e))
  | inr (e, f, p) ↦ rw p
]

pub length-shorten : (n : ℕ) (xs : List Item) → length (shorten n xs) ≡ length xs
unfolding shorten
length-shorten n [] = refl
length-shorten n (x ∷ xs) = ground (arith, length-shorten n xs)

pub length-pop : (x : Item) (xs : List Item) → length (pop x xs) ≡ length xs
unfolding pop
length-pop x [] = refl
length-pop x (y ∷ ys) = ap suc (length-pop y ys)
