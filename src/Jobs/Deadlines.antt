-- ===== src/Jobs/Deadlines.antt =====
-- Deadlines of the jobs of studio-plugin/src/modules/CooperativeJobRunner.ts.
use robloxstudio_mcp.Shared.{
  ℕ, ◌-◌, ◌≤◌, ◌<◌, ◌≡◌, true, false, some, List, [], ◌∷◌, All, length, arith, Bool-cases, inl, inr,
  ltb, leb,
}
use robloxstudio_mcp.Jobs.{
  Moment, JobExecution, End, deadline_exceeded, Slice, checkpoint, goes_on, run_work,
}

-- Not cancelled, with the deadline past.
abbrev pub IsLate : ℕ → Moment → Type 0
IsLate deadline m = (m.is_cancelled ≡ false) × (deadline ≤ m.now)

-- Work that is not cancelled and whose checkpoints are all past its deadline ends as
-- deadline_exceeded, whatever its own end would be, once it has more checkpoints than it may pass
-- before it looks at the clock.
pub run_work-deadline :
    {Result Error : Type 0} (x : JobExecution) (deadline : ℕ) (ms : List Moment)
    (end : End Result Error) (s : Slice)
    → x.deadline_at ≡ some deadline
    → All (IsLate deadline) ms
    → s.until_clock_check < length ms
    → run_work x ms end s ≡ deadline_exceeded x.request_id
unfolding run_work checkpoint
run_work-deadline x deadline [] end s d late l = absurd (omega arith)
run_work-deadline x deadline (m ∷ ms) end s d late l =
    elim (Bool-cases (ltb 0 s.until_clock_check)) [
      | inl waits ↦
          let next : checkpoint x.deadline_at m s
              ≡ goes_on (record s { until_clock_check = s.until_clock_check - 1 }) =
            rw (late.0.0, waits, checkpoint) in
          rw (next, run_work)
            (run_work-deadline x deadline ms end
              (record s { until_clock_check = s.until_clock_check - 1 }) d late.1
              (ground (arith, waits)))
      | inr looks ↦
          let past : leb deadline m.now ≡ true = ground (arith, late.0.1) in
          rw (late.0.0, looks, d, past, checkpoint, run_work)
    ]
