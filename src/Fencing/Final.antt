-- ===== src/Fencing/Final.antt =====
-- A fence is final: no writer is left, and the publication stays as the receipt says.
use session_search.Base.{
  ◌<◌, ◌≡◌, refl, sym, subst, ◌∙◌, inl, inr, String, some, arith, ◌==◌, nat_eq, string_eq,
  Bool-cases, Option-cases,
}
use session_search.Base.Result.{ok}
use session_search.Fencing.{Receipt, Primary, Fence, acquire_writer, release_writer, fence_primary}

-- What writers and operators may do next; only a writer with a lease changes the publication.
pub data Step : Primary → Primary → Type 0 where
  acquires : (s t : Primary) → acquire_writer s ≡ ok t → Step s t
  releases : (s t : Primary) → release_writer s ≡ some t → Step s t
  writes :
      (s : Primary) (publication : String)
      → 0 < s.writers
      → Step s (record s { publication = publication })
  fences :
      (fence_id fenced_at : String) (s t : Primary) (answer : Fence)
      → fence_primary fence_id fenced_at s ≡ ok (answer, t)
      → Step s t

pub data Steps : Primary → Primary → Type 0 where
  stays : (s : Primary) → Steps s s
  goes : (s t u : Primary) → Steps s t → Step t u → Steps s u

-- Under a fence nobody writes, and the receipt names the publication.
abbrev pub IsFenced : Primary → Type 0
IsFenced s = (r : Receipt) → s.fenced ≡ some r → (s.writers ≡ 0) × (r.publication ≡ s.publication)

-- A fence of `s` is there in `t`, with its publication.
abbrev pub IsFinal : Primary → Primary → Type 0
IsFinal s t =
    (r : Receipt) → s.fenced ≡ some r → (t.fenced ≡ some r) × (t.publication ≡ s.publication)

Step-IsFenced : (s t : Primary) → Step s t → IsFenced s → IsFenced t × IsFinal s t
unfolding acquire_writer release_writer fence_primary
Step-IsFenced _ _ (Step.acquires s t went) h =
    (λ r e. absurd (ground (arith, went, e)), λ r e. absurd (ground (arith, went, e)))
Step-IsFenced _ _ (Step.releases s t went) h = (
  λ r e.
      absurd
        (let f : s.fenced ≡ some r = ground (arith, went, e) in ground (arith, went, (h r f).0)),
  λ r e. absurd (ground (arith, went, (h r e).0)),
)
Step-IsFenced _ _ (Step.writes s publication writing) h = (
  (λ r e. absurd (ground (arith, (h r e).0, writing))),
  λ r e. absurd (ground (arith, (h r e).0, writing)),
)
Step-IsFenced _ _ (Step.fences fence_id fenced_at s t answer went) h =
    elim (Bool-cases (s.writers == 0)) [
      | inr writing ↦
          let same : t ≡ s = ground (arith, went, writing) in
          (subst IsFenced (sym same) h, subst (IsFinal s) (sym same) (λ r e. (e, refl)))
      | inl quiet ↦ elim (Option-cases s.fenced) [
        | inr (old, there) ↦
            let same : t ≡ s = ground (arith, went, quiet, there) in
            (subst IsFenced (sym same) h, subst (IsFinal s) (sym same) (λ r e. (e, refl)))
        | inl free ↦ (
          λ r e. (ground (arith, went, quiet, free), ground (arith, went, quiet, free, e)),
          λ r e. absurd (ground (arith, free, e)),
        )
      ]
    ]

-- From a primary where a fence, if there is one, leaves no writer and names the publication, this
-- holds after any sequence of writers that come, publish under their lease and leave, and of
-- fences; and a fence that was there stays, with its receipt and its publication.
pub Steps-IsFenced : (s t : Primary) → Steps s t → IsFenced s → IsFenced t × IsFinal s t
Steps-IsFenced _ _ (Steps.stays s) h = (h, λ r e. (e, refl))
Steps-IsFenced _ _ (Steps.goes s t u before step) h =
    let first : IsFenced t × IsFinal s t = Steps-IsFenced s t before h in
    let second : IsFenced u × IsFinal t u = Step-IsFenced t u step first.0 in
    (
      second.0,
      λ r e.
          let mid : (t.fenced ≡ some r) × (t.publication ≡ s.publication) = first.1 r e in
          let last : (u.fenced ≡ some r) × (u.publication ≡ t.publication) = second.1 r mid.0 in
          (last.0, last.1 ∙ mid.1),
    )
