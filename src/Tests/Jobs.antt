-- ===== src/Tests/Jobs.antt =====
-- Examples: cooperative jobs.
use robloxstudio_mcp.Shared.{
  ℕ, ◌≡◌, refl, false, some, none, List, [], ◌∷◌, get, put, remove, arith,
}
use robloxstudio_mcp.Jobs.{
  Moment, JobExecution, End, returned, deadline_exceeded, run_work, Turn, begins, ends, begin_job,
  end_job, turn, turns,
}
use robloxstudio_mcp.Jobs.Deadlines.{run_work-deadline}
use robloxstudio_mcp.Jobs.Exclusion.{IsExclusive, RefusesRunning, no_jobs, turns-IsExclusive}

abbrev execution : JobExecution
execution = record { request_id = "r"; deadline_at = some 100 }

abbrev late : Moment
late = record { is_cancelled = false; now = 120; resumed_at = 130 }

abbrev done : End ℕ ℕ
done = returned 5

run_work-deadline_example :
    run_work execution (late ∷ late ∷ []) done (record { started_at = 0; until_clock_check = 1 })
    ≡ deadline_exceeded "r"
run_work-deadline_example =
    run_work-deadline execution 100 (late ∷ late ∷ []) done
      (record { started_at = 0; until_clock_check = 1 }) refl
      ((refl, omega arith), ((refl, omega arith), tt)) (omega arith)

-- Two calls of one key and one of another; the first, which holds its key, ends.
abbrev three_calls : List Turn
three_calls = begins "k" execution ∷ begins "j" execution ∷ begins "k" execution ∷ ends 1 ∷ []

three_calls_end :
    (get "k" (turns three_calls no_jobs).active ≡ none)
    × (get "j" (turns three_calls no_jobs).active ≡ some "r")
unfolding turns turn begin_job end_job get put remove
three_calls_end = (refl, refl)

turns-IsExclusive_example :
    IsExclusive (turns three_calls no_jobs) × RefusesRunning (turns three_calls no_jobs)
turns-IsExclusive_example = turns-IsExclusive three_calls
