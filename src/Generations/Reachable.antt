-- ===== src/Generations/Reachable.antt =====
-- Whatever readers, publishers and retention do, the generations that are named or pinned exist.
use session_search.Base.{
  ◌≡◌, ◌⊎◌, refl, sym, ap, subst, ◌∙◌, inl, inr, String, Bool, true, false, ◌||◌, Option, none,
  some, List, [], ◌∷◌, arith, ◌==◌, string_eq, Bool-cases, Option-cases, contains,
}
use session_search.Base.Result.{Result-cases, ok}
use session_search.Generations.{
  Generation, Replica, Pruned, pointer, entry, pin_current, unpin, publish_locked, names, eligible,
  prune_loop, prune_replica,
}

unfoldable pub present : String → List Generation → Bool
present key [] = false
present key (g ∷ gs) = g.name == key || present key gs

-- A generation that a pointer names or a reader has pinned.
abbrev pub InUse : Replica → String → Type 0
InUse r key =
    (names r.current key ≡ true) ⊎ ((names r.previous key ≡ true) ⊎ (contains r.pins key ≡ true))

abbrev pub IsWhole : Replica → Type 0
IsWhole r = (key : String) → InUse r key → present key r.generations ≡ true

used_stays :
    (current previous : Option String) (pins : List String) (g : Generation)
    → (names current g.name ≡ true)
      ⊎ ((names previous g.name ≡ true) ⊎ (contains pins g.name ≡ true))
    → (eligible current previous g ≡ false) ⊎ (contains pins g.name ≡ true)
unfolding eligible
used_stays current previous pins g (inl a) = inl (rw a refl)
used_stays current previous pins g (inr (inl b)) = inl (ground arith)
used_stays current previous pins g (inr (inr c)) = inr c

prune_keeps :
    (current previous : Option String) (pins : List String) (gs : List Generation) (key : String)
    → (names current key ≡ true) ⊎ ((names previous key ≡ true) ⊎ (contains pins key ≡ true))
    → present key gs ≡ true
    → present key (prune_loop current previous pins gs).kept ≡ true
unfolding present prune_loop
prune_keeps current previous pins [] key used there = there
prune_keeps current previous pins (g ∷ gs) key used there = elim (Bool-cases (g.name == key)) [
  | inr differ ↦
      let ih : present key (prune_loop current previous pins gs).kept ≡ true =
        prune_keeps current previous pins gs key used (ground arith) in
      ground (arith, ih)
  | inl same ↦
      let e : key ≡ g.name = ground arith in
      elim (used_stays current previous pins g (
        subst
          (λ k. (names current k ≡ true) ⊎ ((names previous k ≡ true) ⊎ (contains pins k ≡ true))) e
          used)) [ inl stays ↦ ground arith | inr pinned ↦ ground arith ]
]

-- What readers, publishers and retention may do next. A new generation is complete when its
-- directory appears, and it is published only then.
pub data Step : Replica → Replica → Type 0 where
  pins : (r s : Replica) (key : String) → pin_current r ≡ ok (key, s) → Step r s
  unpins : (r : Replica) (key : String) → Step r (record r { pins = unpin key r.pins })
  adds : (r : Replica) (g : Generation) → Step r (record r { generations = g ∷ r.generations })
  publishes :
      (r s : Replica) (key : String)
      → present key r.generations ≡ true
      → publish_locked key r ≡ ok s
      → Step r s
  prunes : (r s : Replica) (pruned : Pruned) → prune_replica r ≡ ok (pruned, s) → Step r s

pub data Reachable (r : Replica) : Replica → Type 0 where
  start : Reachable r r
  next : (s t : Replica) → Reachable r s → Step s t → Reachable r t

entry-present :
    (key : String) (gs : List Generation) (g : Generation)
    → entry key gs ≡ some g
    → present key gs ≡ true
unfolding entry present
entry-present key [] g h = absurd (ground arith)
entry-present key (x ∷ gs) g h = elim (Bool-cases (x.name == key)) [
  | inl same ↦ ground arith
  | inr differ ↦ ground (arith, entry-present key gs g (ground arith))
]

contains-unpin :
    (key k : String) (ps : List String) → contains (unpin key ps) k ≡ true → contains ps k ≡ true
unfolding unpin
contains-unpin key k [] h = h
contains-unpin key k (p ∷ ps) h = elim (Bool-cases (p == key)) [
  | inl same ↦ ground arith
  | inr differ ↦ elim (Bool-cases (p == k)) [
    | inl it ↦ ground arith
    | inr other ↦ ground (arith, contains-unpin key k ps (ground arith))
  ]
]

pin_lem :
    (r s : Replica) (key : String)
    → pin_current r ≡ ok (key, s)
    → (s ≡ record r { pins = key ∷ r.pins }) × (present key r.generations ≡ true)
unfolding pin_current pointer
pin_lem r s key h = elim (Option-cases r.current) [
  | inl without_pointer ↦ absurd (ground arith)
  | inr (c, there) ↦ elim (Option-cases (entry c r.generations)) [
    | inl missing ↦ absurd (ground arith)
    | inr (g, found) ↦
        let e : key ≡ c = ground arith in
        (
          ground arith,
          subst (λ k. present k r.generations ≡ true) (sym e)
              (entry-present c r.generations g found),
        )
  ]
]

publish_lem :
    (r s : Replica) (key k : String)
    → publish_locked key r ≡ ok s
    → InUse s k
    → (s.generations ≡ r.generations) × ((k ≡ key) ⊎ InUse r k)
unfolding publish_locked pointer names
publish_lem r s key k h (inl c) = (ground arith, ground arith)
publish_lem r s key k h (inr (inl p)) = (ground arith, ground arith)
publish_lem r s key k h (inr (inr p)) = (ground arith, ground arith)

pub pointer_lem : (p q : Option String) → pointer p ≡ ok q → q ≡ p
unfolding pointer
pointer_lem none q h = ground arith
pointer_lem (some v) q h = ground arith

pub prune_same :
    (r s : Replica) (pruned : Pruned)
    → prune_replica r ≡ ok (pruned, s)
    → s ≡ record r { generations = (prune_loop r.current r.previous r.pins r.generations).kept }
unfolding prune_replica
prune_same r s pruned h = elim (Result-cases (pointer r.current)) [
  | inr (e, failed) ↦ absurd (ground arith)
  | inl (none, nothing) ↦ absurd (ground arith)
  | inl (some c, named) ↦ elim (Result-cases (pointer r.previous)) [
    | inr (e, failed) ↦ absurd (ground arith)
    | inl (previous, found) ↦
        let a : some c ≡ r.current = pointer_lem r.current (some c) named in
        let b : previous ≡ r.previous = pointer_lem r.previous previous found in
        let e : s
            ≡ record r { generations = (prune_loop (some c) previous r.pins r.generations).kept } =
          ground arith in
        e
        ∙ ap (λ p. record r { generations = (prune_loop p previous r.pins r.generations).kept }) a
        ∙ ap (λ p. record r { generations = (prune_loop r.current p r.pins r.generations).kept }) b
  ]
]

Step-IsWhole : (r s : Replica) → Step r s → IsWhole r → IsWhole s
unfolding present
Step-IsWhole r s (pins _ _ key e) whole k used =
    let there : (s ≡ record r { pins = key ∷ r.pins }) × (present key r.generations ≡ true) =
      pin_lem r s key e in
    elim (Bool-cases (key == k)) [
      | inl same ↦ ground (arith, there.0, there.1)
      | inr differ ↦
          let before : InUse r k = ground (arith, there.0) in
          ground (arith, there.0, whole k before)
    ]
Step-IsWhole r s (unpins _ key) whole k (inl a) = whole k (inl a)
Step-IsWhole r s (unpins _ key) whole k (inr (inl a)) = whole k (inr (inl a))
Step-IsWhole r s (unpins _ key) whole k (inr (inr a)) =
    whole k (inr (inr (contains-unpin key k r.pins a)))
Step-IsWhole r s (adds _ g) whole k used = ground (arith, whole k used)
Step-IsWhole r s (publishes _ _ key there e) whole k used =
    let (same, cases) = publish_lem r s key k e used in
    elim cases [ inl new ↦ rw (same, new) there | inr before ↦ rw same (whole k before) ]
Step-IsWhole r s (prunes _ _ pruned e) whole k used =
    let same : s
        ≡ record r { generations = (prune_loop r.current r.previous r.pins r.generations).kept } =
      prune_same r s pruned e in
    let before : InUse r k = subst (λ q. InUse q k) same used in
    rw same (prune_keeps r.current r.previous r.pins r.generations k before (whole k before))

-- If every generation that a pointer names or a reader has pinned exists, then so it is after any
-- sequence of pins, unpins, new generations, publications of existing generations and retention
-- runs.
pub reachable-IsWhole : (r s : Replica) → Reachable r s → IsWhole r → IsWhole s
reachable-IsWhole r s start whole = whole
reachable-IsWhole r t (next s _ before step) whole =
    Step-IsWhole s t step (reachable-IsWhole r s before whole)
