-- ===== src/Generations/Exact.antt =====
-- What retention removes, and what it reports.
use session_search.Base.{
  ℕ, suc, ◌≡◌, ◌≢◌, refl, sym, ap, subst, ◌∙◌, inl, inr, Option, none, some, String, true, false,
  List, [], ◌∷◌, arith, string_eq, string_dec, Bool-cases, contains, is_digest,
}
use session_search.Base.Result.{Result-cases, ok}
use session_search.Generations.{
  Generation, Replica, Pruned, eligible, names, prune_loop, prune_replica, pointer,
}
use session_search.Generations.Reachable.{pointer_lem}

-- A managed generation that neither pointer names.
pub record IsRemovable (r : Replica) (g : Generation) : Type 0 where
  pub not_current : r.current ≢ some g.name
  pub not_previous : r.previous ≢ some g.name
  pub not_symlink : g.is_symlink ≡ false
  pub directory : g.is_directory ≡ true
  pub digest : is_digest g.name ≡ true
  pub managed : g.has_lock ≡ true

-- What retention makes of a list of generations: those that are left, in order, how many are
-- removed, and how many are removable but held back by a pin.
pub data Pruning (r : Replica) : List Generation → List Generation → ℕ → ℕ → Type 0 where
  done : Pruning r [] [] 0 0
  protects :
      {g : Generation} {gs kept : List Generation} {removed pinned : ℕ}
      → ¬ IsRemovable r g
      → Pruning r gs kept removed pinned
      → Pruning r (g ∷ gs) (g ∷ kept) removed pinned
  holds_back :
      {g : Generation} {gs kept : List Generation} {removed pinned : ℕ}
      → IsRemovable r g
      → contains r.pins g.name ≡ true
      → Pruning r gs kept removed pinned
      → Pruning r (g ∷ gs) (g ∷ kept) removed (suc pinned)
  removes :
      {g : Generation} {gs kept : List Generation} {removed pinned : ℕ}
      → IsRemovable r g
      → contains r.pins g.name ≡ false
      → Pruning r gs kept removed pinned
      → Pruning r (g ∷ gs) kept (suc removed) pinned

names_lem : (p : Option String) (key : String) → names p key ≡ false → p ≢ some key
unfolding names
names_lem none key h e = absurd (ground arith)
names_lem (some value) key h e = absurd (ground arith)

named_lem : (p : Option String) (key : String) → p ≢ some key → names p key ≡ false
unfolding names
named_lem none key h = refl
named_lem (some value) key h = elim (string_dec value key) [
  | yes e ↦ absurd (h (ap some e))
  | no n ↦ ground arith
]

eligible-IsRemovable :
    (r : Replica) (g : Generation) → eligible r.current r.previous g ≡ true → IsRemovable r g
unfolding eligible
eligible-IsRemovable r g h = record {
  not_current = names_lem r.current g.name (ground arith);
  not_previous = names_lem r.previous g.name (ground arith);
  not_symlink = ground arith;
  directory = ground arith;
  digest = ground arith;
  managed = ground arith;
}

IsRemovable-eligible :
    (r : Replica) (g : Generation) → IsRemovable r g → eligible r.current r.previous g ≡ true
unfolding eligible
IsRemovable-eligible r g h = ground (
  arith,
  named_lem r.current g.name h.not_current,
  named_lem r.previous g.name h.not_previous,
  h.not_symlink,
  h.directory,
  h.digest,
  h.managed,
)

-- What the loop does to the generations `gs` of the replica `r`.
abbrev Prunes : Replica → List Generation → Pruned → Type 0
Prunes r gs p = Pruning r gs p.kept p.removed p.pinned

loop-Prunes :
    (r : Replica) (gs : List Generation) → Prunes r gs (prune_loop r.current r.previous r.pins gs)
unfolding prune_loop
loop-Prunes r [] = done
loop-Prunes r (g ∷ gs) =
    let ih : Prunes r gs (prune_loop r.current r.previous r.pins gs) = loop-Prunes r gs in
    elim (Bool-cases (eligible r.current r.previous g)) [
      | inr other ↦
          rw other (protects (λ m. absurd (ground (arith, other, IsRemovable-eligible r g m))) ih)
      | inl may ↦ elim (Bool-cases (contains r.pins g.name)) [
        | inl pinned ↦ rw (may, pinned) (holds_back (eligible-IsRemovable r g may) pinned ih)
        | inr loose ↦ rw (may, loose) (removes (eligible-IsRemovable r g may) loose ih)
      ]
    ]

-- A retention run that succeeds changes nothing but the list of generations: one that CURRENT or
-- PREVIOUS names, a symbolic link, one that is no directory, or is not named by a digest, or has no
-- lock of readers stays; any other stays if a reader has pinned it and is removed if not; the order
-- is kept, and the two counts are those of the removed and of the pinned ones.
pub prune_replica-Pruning :
    (r s : Replica) (pruned : Pruned)
    → prune_replica r ≡ ok (pruned, s)
    → (s ≡ record r { generations = s.generations })
      × Pruning r r.generations s.generations pruned.removed pruned.pinned
unfolding prune_replica
prune_replica-Pruning r s pruned h = elim (Result-cases (pointer r.current)) [
  | inr (e, failed) ↦ absurd (ground arith)
  | inl (none, nothing) ↦ absurd (ground arith)
  | inl (some c, named) ↦ elim (Result-cases (pointer r.previous)) [
    | inr (e, failed) ↦ absurd (ground arith)
    | inl (previous, found) ↦
        let a : some c ≡ r.current = pointer_lem r.current (some c) named in
        let b : previous ≡ r.previous = pointer_lem r.previous previous found in
        let e : pruned ≡ prune_loop (some c) previous r.pins r.generations = ground arith in
        let f : s ≡ record r { generations = pruned.kept } = ground arith in
        let e' : pruned ≡ prune_loop r.current r.previous r.pins r.generations =
          e
          ∙ ap (λ p. prune_loop p previous r.pins r.generations) a
          ∙ ap (λ p. prune_loop r.current p r.pins r.generations) b in
        let left : pruned.kept ≡ s.generations = sym (ap (λ x. x.generations) f) in
        (
          f ∙ ap (λ gs. record r { generations = gs }) left,
          subst (λ gs. Pruning r r.generations gs pruned.removed pruned.pinned) left
              (subst (Prunes r r.generations) (sym e') (loop-Prunes r r.generations)),
        )
  ]
]
