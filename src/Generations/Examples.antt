-- ===== src/Generations/Examples.antt =====
-- A replica with a current, a previous, a pinned and an obsolete generation.
use session_search.Base.{
  ◌≡◌, refl, inl, inr, String, true, false, some, [], ◌∷◌, arith, string_eq, ℕ_discrete, codes,
  all_hex, string_dec, is_digest,
}
use session_search.Base.Result.{ok}
use session_search.Generations.{
  Generation, Replica, Pruned, pointer, names, eligible, prune_loop, prune_replica,
}
use session_search.Generations.Reachable.{IsWhole, start, next, prunes, present, reachable-IsWhole}
use session_search.Generations.Exact.{Pruning, prune_replica-Pruning}

abbrev old : String
old = "0000000000000000000000000000000000000000000000000000000000000000"

abbrev one : String
one = "1111111111111111111111111111111111111111111111111111111111111111"

abbrev two : String
two = "2222222222222222222222222222222222222222222222222222222222222222"

abbrev three : String
three = "3333333333333333333333333333333333333333333333333333333333333333"

abbrev generation : String → Generation
generation key = record { name = key; is_symlink = false; is_directory = true; has_lock = true }

abbrev before : Replica
before = record {
  current = some one;
  previous = some old;
  generations = generation old ∷ generation one ∷ generation two ∷ generation three ∷ [];
  pins = two ∷ [];
}

abbrev pruned : Pruned
pruned = record {
  kept = generation old ∷ generation one ∷ generation two ∷ [];
  removed = 1;
  pinned = 1;
}

abbrev after : Replica
after = record before { generations = generation old ∷ generation one ∷ generation two ∷ [] }

prunes_one : prune_replica before ≡ ok (pruned, after)
unfolding prune_replica pointer is_digest ℕ_discrete codes all_hex prune_loop eligible names
    string_dec
prunes_one = refl

prune_replica-Pruning_example :
    (after ≡ record before { generations = after.generations })
    × Pruning before before.generations after.generations 1 1
prune_replica-Pruning_example = prune_replica-Pruning before after pruned prunes_one

IsWhole-before : IsWhole before
unfolding present names
IsWhole-before key (inl a) = ground arith
IsWhole-before key (inr (inl a)) = ground arith
IsWhole-before key (inr (inr a)) = ground arith

reachable-IsWhole_example : IsWhole after
reachable-IsWhole_example =
    reachable-IsWhole before after (next before after start (prunes before after pruned prunes_one))
      IsWhole-before
