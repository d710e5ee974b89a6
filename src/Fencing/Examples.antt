-- ===== src/Fencing/Examples.antt =====
-- A writer publishes, leaves, and the primary is fenced.
use session_search.Base.{ℕ, refl, String, true, false, Option, none, some, arith, ℕ_discrete}
use session_search.Fencing.{Receipt, Primary, Fence, acquire_writer, release_writer, fence_primary}
use session_search.Fencing.Final.{Step, Steps, IsFenced, IsFinal, Steps-IsFenced}

abbrev primary : Option Receipt → ℕ → String → Primary
primary fenced writers publication = record {
  has_catalog = true;
  has_current = false;
  has_manifest = false;
  fenced = fenced;
  writers = writers;
  publication = publication;
}

abbrev receipt : Receipt
receipt = record {
  version = 1;
  status = "fenced";
  publication = "p:2";
  fence_id = "f";
  fenced_at = "noon";
}

run : Steps (primary none 0 "p:1") (primary (some receipt) 0 "p:2")
unfolding acquire_writer release_writer fence_primary ℕ_discrete
run =
    Steps.goes (primary none 0 "p:1") (primary none 0 "p:2") (primary (some receipt) 0 "p:2")
      (Steps.goes (primary none 0 "p:1") (primary none 1 "p:2") (primary none 0 "p:2")
        (Steps.goes (primary none 0 "p:1") (primary none 1 "p:1") (primary none 1 "p:2")
          (Steps.goes (primary none 0 "p:1") (primary none 0 "p:1") (primary none 1 "p:1")
            (Steps.stays (primary none 0 "p:1"))
            (Step.acquires (primary none 0 "p:1") (primary none 1 "p:1") refl))
          (Step.writes (primary none 1 "p:1") "p:2" (omega arith)))
        (Step.releases (primary none 1 "p:2") (primary none 0 "p:2") refl))
      (Step.fences "f" "noon" (primary none 0 "p:2") (primary (some receipt) 0 "p:2")
        (Fence.fenced_by receipt) refl)

Steps-IsFenced_example :
    IsFenced (primary (some receipt) 0 "p:2")
    × IsFinal (primary none 0 "p:1") (primary (some receipt) 0 "p:2")
Steps-IsFenced_example =
    Steps-IsFenced (primary none 0 "p:1") (primary (some receipt) 0 "p:2") run
      (λ r e. absurd (ground (arith, e)))
