-- ===== src/Update/Waiting.antt =====
-- The loop of `waitForHealth` in cmd/update.go: it ends, and what its end says.
use op_forward.Update.Download.{Response, response, no_response}
use op_forward.Update.{
  is_healthy, Waited, healthy, timed_out, still_waiting, poll, poll_interval, enough_rounds,
  Updating, wait_for_health,
}
use op_forward.Prelude.{
  ℕ, zero, suc, ◌+◌, ◌*◌, ◌/◌, ◌≤◌, ◌<◌, ◌≡◌, refl, ap, ◌≢◌, ◌↔◌, inl, inr, true, false, arith, ltb,
  ==_iff, Bool-cases, Text,
}

module _ (clock : ℕ → ℕ) (advances : (k : ℕ) → clock k + poll_interval ≤ clock (suc k)) where
  -- After `k` rounds, `k` sleeps have passed.
  clock_advanced : (k : ℕ) → clock 0 + k * poll_interval ≤ clock k
  clock_advanced zero = omega arith
  clock_advanced (suc k) = let before = clock_advanced k in let step = advances k in omega arith

  clock_monotone : (m k : ℕ) → clock k ≤ clock (k + m)
  clock_monotone zero k = let same : k + 0 ≡ k = omega arith in rw same (omega arith)
  clock_monotone (suc m) k =
      let same : k + suc m ≡ suc (k + m) = omega arith in
      let before = clock_monotone m k in let step = advances (k + m) in rw same (omega arith)

  module _ (health : ℕ → Response Text) (deadline : ℕ) where
    poll_ends :
        (fuel k : ℕ)
        → deadline ≤ clock 0 + (k + fuel) * poll_interval
        → poll (suc fuel) health clock deadline k ≢ still_waiting
    unfolding poll
    poll_ends zero k enough = let passed = clock_advanced k in ground arith
    poll_ends (suc fuel) k enough = let rest = poll_ends fuel (suc k) (omega arith) in ground arith

    poll-healthy :
        (fuel k : ℕ)
        → poll fuel health clock deadline k ≡ healthy
        → (j : ℕ) × ((is_healthy (health j) ≡ true) × (clock j < deadline))
    unfolding poll
    poll-healthy zero k found = ground arith
    poll-healthy (suc fuel) k found = elim (Bool-cases (ltb (clock k) deadline)) [
      | inl soon ↦ elim (Bool-cases (is_healthy (health k))) [
        | inl up ↦ (k, (up, ground arith))
        | inr down ↦ poll-healthy fuel (suc k) (ground arith)
      ]
      | inr late ↦ ground arith
    ]

    poll-timed_out :
        (fuel k m : ℕ)
        → poll fuel health clock deadline k ≡ timed_out
        → clock (k + m) < deadline
        → is_healthy (health (k + m)) ≡ false
    unfolding poll
    poll-timed_out zero k m ended before = ground arith
    poll-timed_out (suc fuel) k zero ended before = ground arith
    poll-timed_out (suc fuel) k (suc m) ended before =
        let later = clock_monotone (suc m) k in
        let rest = poll-timed_out fuel (suc k) m in ground arith

only_healthy : (w : Waited) → w ≢ still_waiting → w ≢ timed_out → w ≡ healthy
only_healthy healthy ends unlate = refl
only_healthy timed_out ends unlate = absurd (unlate refl)
only_healthy still_waiting ends unlate = absurd (ends refl)

-- A poll is answered with status 200.
abbrev pub IsUp : Response Text → Type 0
IsUp answer = (body : Text) × (answer ≡ response 200 body)

is_healthy-IsUp : (answer : Response Text) → (is_healthy answer ≡ true) ↔ IsUp answer
is_healthy-IsUp (no_response e) = ground arith
is_healthy-IsUp (response status body) = (
  λ h. (body, ap (λ n. response n body) ((==_iff status 200).0 h)),
  λ (body', same). ground (arith, ==_iff status 200),
)

-- When the clock does not run backwards at the beginning and each round of the loop of
-- `waitForHealth` takes at least the sleep, the loop ends within the rounds that the timeout
-- divided by the sleep allows and two more, and it reports a healthy daemon exactly if some poll
-- before the deadline is answered with status 200; otherwise it times out.
pub wait_for_health_ends :
    (u : Updating) (timeout : ℕ)
    → u.began ≤ u.clock 0
    → ((k : ℕ) → u.clock k + poll_interval ≤ u.clock (suc k))
    → (wait_for_health u timeout ≢ still_waiting)
      × (wait_for_health u timeout ≡ healthy
          ↔ ((k : ℕ) × (IsUp (u.health k) × (u.clock k < u.began + timeout))))
unfolding wait_for_health
wait_for_health_ends u timeout begins advances =
    let deadline = u.began + timeout in
    let ends =
      poll_ends u.clock advances u.health deadline (suc (timeout / poll_interval)) 0
        (omega arith) in
    let found = poll-healthy u.clock advances u.health deadline (enough_rounds timeout) 0 in
    let late = poll-timed_out u.clock advances u.health deadline (enough_rounds timeout) 0 in
    let back : ((k : ℕ) × (IsUp (u.health k) × (u.clock k < deadline)))
        → wait_for_health u timeout ≡ healthy =
      λ (k, (answered, soon)).
        let up = (is_healthy-IsUp (u.health k)).1 answered in
        only_healthy (wait_for_health u timeout) ends
          (λ out. let down = late k out in let same : 0 + k ≡ k = omega arith in ground arith) in
    (
      ends,
      (
        (λ h. let (k, (up, soon)) = found h in (k, ((is_healthy-IsUp (u.health k)).0 up, soon))),
        back,
      ),
    )
