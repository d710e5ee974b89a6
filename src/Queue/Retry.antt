-- ===== src/Queue/Retry.antt =====
-- When a row whose upload has failed is sent again.
use session_search.Base.{
  ℕ, zero, suc, ◌+◌, ◌^◌, ◌≤◌, ◌<◌, ◌≡◌, ◌⊎◌, refl, ap, ◌∙◌, Bool, true, false, inl, inr, Option,
  none, some, List, arith, min, ltb, nat_eq, string_eq, Bool-cases, find,
}
use session_search.Queue.Table.{Row, RowState, in_state}
use session_search.Queue.Flush.{eligible, has_seq, backoff, postponed}

power_small : (a : ℕ) → a < 8 → 2 ^ (a + 1) ≤ 256
power_small zero h = omega arith
power_small (suc zero) h = omega arith
power_small (suc (suc zero)) h = omega arith
power_small (suc (suc (suc zero))) h = omega arith
power_small (suc (suc (suc (suc zero)))) h = omega arith
power_small (suc (suc (suc (suc (suc zero))))) h = omega arith
power_small (suc (suc (suc (suc (suc (suc zero)))))) h = omega arith
power_small (suc (suc (suc (suc (suc (suc (suc zero))))))) h = omega arith
power_small (suc (suc (suc (suc (suc (suc (suc (suc a)))))))) h = absurd (omega arith)

-- `backoff` doubles up to 256 seconds, and is 300 from then on.
backoff_lem :
    (attempts : ℕ)
    → (attempts < 8 → backoff attempts ≡ 2 ^ (attempts + 1))
      × (8 ≤ attempts → backoff attempts ≡ 300)
unfolding backoff
backoff_lem attempts = (
  λ low.
      let e : min (attempts + 1) 9 ≡ attempts + 1 = omega arith in
      rw e (omega (arith, power_small attempts low)),
  λ high. let e : min (attempts + 1) 9 ≡ 9 = omega arith in rw e,
)

-- `x` is the row `o` after one more attempt: `o` was due, and `x` waits for the delay.
pub record IsRetried (now : ℕ) (o x : Row) : Type 0 where
  pub waiting : o.state ≡ RowState.pending
  pub due : o.next_attempt ≤ now
  pub counted :
      x ≡ record o { attempts = o.attempts + 1; next_attempt = x.next_attempt; state = x.state }
  pub delayed :
      ((o.attempts < 8) × (x.next_attempt ≡ now + 2 ^ (o.attempts + 1)))
      ⊎ ((8 ≤ o.attempts) × (x.next_attempt ≡ now + 300))

-- What a flush has made of a row of the table `start`.
abbrev pub Fate : ℕ → List Row → Row → Type 0
Fate now start x = (o : Row) × (find (has_seq x.seq) start ≡ some o) × ((x ≡ o) ⊎ IsRetried now o x)

state_lem :
    (r : Row) (s : RowState)
    → in_state RowState.pending (record r { state = s }) ≡ true
    → s ≡ RowState.pending
state_lem r RowState.pending h = refl
state_lem r RowState.conflict h = absurd (ground arith)
state_lem r RowState.rejected h = absurd (ground arith)

delay_lem :
    (now a : ℕ)
    → ((a < 8) × (now + backoff a ≡ now + 2 ^ (a + 1))) ⊎ ((8 ≤ a) × (now + backoff a ≡ now + 300))
delay_lem now a = elim (Bool-cases (ltb a 8)) [
  | inl low ↦ let few : a < 8 = ground arith in inl (few, ap (λ d. now + d) ((backoff_lem a).0 few))
  | inr high ↦
      let many : 8 ≤ a = ground arith in inr (many, ap (λ d. now + d) ((backoff_lem a).1 many))
]

pub postponed-IsRetried :
    (now : ℕ) (start : List Row) (row : Row) (status : Option ℕ)
    → eligible now start row ≡ true
    → IsRetried now row (postponed now row status row)
unfolding eligible
postponed-IsRetried now start row status h = record {
  waiting = state_lem row row.state (ground arith);
  due = ground arith;
  counted = refl;
  delayed = delay_lem now row.attempts;
}

-- Whether a row has more attempts than the row of its key in the table `start`.
abbrev pub is_retried : List Row → Row → Bool
is_retried start x = elim (find (has_seq x.seq) start) [
  | none ↦ false
  | some o ↦ ltb o.attempts x.attempts
]

pub untried :
    (start : List Row) (row x : Row)
    → find (has_seq row.seq) start ≡ some row
    → x ≡ row
    → is_retried start x ≡ false
untried start row x found e =
    ap (is_retried start) e
    ∙ rw (is_retried, found) (let t : ltb row.attempts row.attempts ≡ false = ground arith in t)

pub tried :
    (now : ℕ) (status : Option ℕ) (start : List Row) (row x : Row)
    → find (has_seq row.seq) start ≡ some row
    → x ≡ row
    → is_retried start (postponed now row status x) ≡ true
tried now status start row x found e =
    ap (λ y. is_retried start (postponed now row status y)) e
    ∙ rw (is_retried, found)
        (let t : ltb row.attempts (row.attempts + 1) ≡ true = ground arith in t)
