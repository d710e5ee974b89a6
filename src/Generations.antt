-- ===== src/Generations.antt =====
-- src/session_search/storage/generations.py: the generations of a replica, the pointers to the
-- current and the previous one, the pins of readers, and retention. Every operation holds the
-- publication lock. A pointer is the stripped text of a regular file; symbolic links in its place
-- are not modelled.
pub mod Exact
pub mod Reachable
mod Examples
use session_search.Base.{
  ℕ, suc, String, Bool, true, false, not, ◌&&◌, ◌||◌, Option, none, some, List, [], ◌∷◌,
  if◌then◌else◌, ◌==◌, Eq, string_eq, contains, find, is_digest,
}
use session_search.Base.Result.{Result, ok, err, Error, value_error, os_error}

-- A directory entry: its name, what it is, and whether it has the lock file of readers.
pub record Generation : Type 0 where
  pub name : String
  pub is_symlink : Bool
  pub is_directory : Bool
  pub has_lock : Bool

-- `pins` has the name of a generation for each reader that holds its lock.
pub record Replica : Type 0 where
  pub current : Option String
  pub previous : Option String
  pub generations : List Generation
  pub pins : List String

-- `pointer`
unfoldable pub pointer : Option String → Result (Option String)
pointer none = ok none
pointer (some value) = if is_digest value then ok (some value) else err value_error

unfoldable pub entry : String → List Generation → Option Generation
entry key [] = none
entry key (g ∷ gs) = if g.name == key then some g else entry key gs

-- `pin_current`
unfoldable pub pin_current : Replica → Result (String × Replica)
pin_current r = elim (pointer r.current) [
  | err e ↦ err e
  | ok none ↦ err value_error
  | ok (some key) ↦ elim (entry key r.generations) [
    | none ↦ err os_error
    | some g ↦
        if g.is_symlink
        then err value_error
        else if g.has_lock
        then ok (key, record r { pins = key ∷ r.pins })
        else err os_error
  ]
]

-- The lock of one reader is closed.
unfoldable pub unpin : String → List String → List String
unpin key [] = []
unpin key (p ∷ ps) = let rest = unpin key ps in if p == key then ps else p ∷ rest

-- `publish_locked`
unfoldable pub publish_locked : String → Replica → Result Replica
publish_locked key r = elim (pointer r.current) [
  | err e ↦ err e
  | ok none ↦ ok (record r { current = some key })
  | ok (some old) ↦
      if old == key
      then ok (record r { current = some key })
      else ok (record r { previous = some old; current = some key })
]

unfoldable pub names : Option String → String → Bool
names none key = false
names (some value) key = value == key

-- A directory that the loop of `prune_replica` does not pass over.
unfoldable pub eligible : Option String → Option String → Generation → Bool
eligible current previous g =
    not (names current g.name)
    && (not (names previous g.name)
        && (not g.is_symlink && (g.is_directory && (is_digest g.name && g.has_lock))))

-- What is left, and how many have been removed and found pinned.
pub record Pruned : Type 0 where
  pub kept : List Generation
  pub removed : ℕ
  pub pinned : ℕ

unfoldable pub prune_loop : Option String → Option String → List String → List Generation → Pruned
prune_loop current previous pins [] = record { kept = []; removed = 0; pinned = 0 }
prune_loop current previous pins (g ∷ gs) =
    let rest : Pruned = prune_loop current previous pins gs in
    if eligible current previous g
    then if contains pins g.name
      then record rest { kept = g ∷ rest.kept; pinned = suc rest.pinned }
      else record rest { removed = suc rest.removed }
    else record rest { kept = g ∷ rest.kept }

-- `prune_replica`
unfoldable pub prune_replica : Replica → Result (Pruned × Replica)
prune_replica r = elim (pointer r.current) [
  | err e ↦ err e
  | ok none ↦ err value_error
  | ok (some current) ↦ elim (pointer r.previous) [
    | err e ↦ err e
    | ok previous ↦
        let pruned : Pruned = prune_loop (some current) previous r.pins r.generations in
        ok (pruned, record r { generations = pruned.kept })
  ]
]
