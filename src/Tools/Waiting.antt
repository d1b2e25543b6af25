-- ===== src/Tools/Waiting.antt =====
-- src/feather/tools/task_tools.py: the wait of `request_input` ends.
use feather_os.Prelude.{
  ℕ, zero, suc, ◌+◌, ◌-◌, ◌≤◌, ◌<◌, min, leb-lt, true, String, ◌≡◌, ◌≢◌, Bool-cases, Option-cases,
  inl, inr, arith, leb,
}
use feather_os.Tools.RequestInput.{World, claim, Waiting, still_waiting, poll, wait_for_reply}

-- A sleep lasts at least as long as it was asked to, which is the interval or what is left.
pub record IsSleeping (interval timeout : ℕ) (d : Waiting) : Type 0 where
  pub positive : 1 ≤ interval
  pub sleeps :
      (k : ℕ) → d.clock k + min interval (d.clock 0 + timeout - d.clock k) ≤ d.clock (suc k)

later_lem :
    (deadline now later interval fuel : ℕ)
    → now < deadline
    → 1 ≤ interval
    → now + min interval (deadline - now) ≤ later
    → deadline ≤ now + suc fuel
    → deadline ≤ later + fuel
later_lem deadline now later interval fuel early positive sleeps enough = ground arith

module _ (session_id agent_name correlation_id : String) (d : Waiting) (interval timeout : ℕ) where
  poll_ends :
      (fuel k : ℕ) (w : World)
      → IsSleeping interval timeout d
      → d.clock 0 + timeout ≤ d.clock k + fuel
      → (poll session_id agent_name correlation_id d (d.clock 0 + timeout) (suc fuel) k w).0
        ≢ still_waiting
  unfolding poll
  poll_ends zero k w s enough =
      let (reply, u) = claim session_id agent_name correlation_id (d.stamp k) (d.others k w) in
      let late : leb (d.clock 0 + timeout) (d.clock k) ≡ true = ground (arith, enough) in
      elim (Option-cases reply) [
        | inr (m, came) ↦ rw came (λ e. cc)
        | inl nothing ↦ rw (nothing, late) (λ e. cc)
      ]
  poll_ends (suc fuel) k w s enough =
      let (reply, u) = claim session_id agent_name correlation_id (d.stamp k) (d.others k w) in
      elim (Option-cases reply) [
        | inr (m, came) ↦ rw came (λ e. cc)
        | inl nothing ↦ elim (Bool-cases (leb (d.clock 0 + timeout) (d.clock k))) [
          | inl late ↦ rw (nothing, late) (λ e. cc)
          | inr early ↦
              rw (nothing, early)
                (poll_ends fuel (suc k) u s (
                  later_lem (d.clock 0 + timeout) (d.clock k) (d.clock (suc k)) interval fuel
                    (leb-lt _ _ early) s.positive (s.sleeps k) enough))
        ]
      ]

  pub wait_ends :
      (w : World)
      → IsSleeping interval timeout d
      → (wait_for_reply session_id agent_name correlation_id d timeout w).0 ≢ still_waiting
  unfolding wait_for_reply
  wait_ends w s = poll_ends (suc timeout) 0 w s (omega arith)
