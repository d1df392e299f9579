-- ===== src/Jobs.antt =====
-- Long plugin work that yields: studio-plugin/src/modules/CooperativeJobRunner.ts. What `work` does
-- is the list of its checkpoints and its end; times are whole microseconds of `os.clock`.
pub mod Deadlines
pub mod Exclusion
use robloxstudio_mcp.Shared.{
  ℕ, zero, suc, ◌-◌, String, Bool, true, false, Option, none, some, List, [], ◌∷◌, Dict, get, put,
  remove, ltb, leb, if◌then◌else◌,
}

-- What a checkpoint meets: whether the execution is cancelled, the time, and the time at which the
-- thread goes on if it waits.
pub record Moment : Type 0 where
  pub is_cancelled : Bool
  pub now : ℕ
  pub resumed_at : ℕ

pub record JobExecution : Type 0 where
  pub request_id : String
  pub deadline_at : Option ℕ

pub data End (Result Error : Type 0) : Type 0 where
  returned : Result → End Result Error
  raised : Error → End Result Error

pub data JobResult (Result Error : Type 0) : Type 0 where
  plugin_busy : String → JobResult Result Error
  deadline_exceeded cancelled : String → JobResult Result Error
  finished : Result → JobResult Result Error
  failed : Error → JobResult Result Error

-- `sliceStartedAt` and `operationsUntilClockCheck`.
pub record Slice : Type 0 where
  pub started_at : ℕ
  pub until_clock_check : ℕ

pub data Checkpoint : Type 0 where
  goes_on : Slice → Checkpoint
  is_past_deadline stops_cancelled : Checkpoint

abbrev pub max_slice : ℕ
max_slice = 8000

abbrev pub clock_check_interval : ℕ
clock_check_interval = 64

abbrev pub is_past : Option ℕ → ℕ → Bool
is_past none now = false
is_past (some deadline) now = leb deadline now

unfoldable pub checkpoint : Option ℕ → Moment → Slice → Checkpoint
checkpoint deadline m s =
    if m.is_cancelled
    then stops_cancelled
    else if ltb 0 s.until_clock_check
    then goes_on (record s { until_clock_check = s.until_clock_check - 1 })
    else if is_past deadline m.now
    then is_past_deadline
    else goes_on (record {
      started_at = if leb max_slice (m.now - s.started_at) then m.resumed_at else s.started_at;
      until_clock_check = clock_check_interval - 1;
    })

abbrev pub ended : {Result Error : Type 0} → End Result Error → JobResult Result Error
ended (returned r) = finished r
ended (raised e) = failed e

-- `work`, checkpoint by checkpoint.
unfoldable pub run_work :
    {Result Error : Type 0}
    → JobExecution
    → List Moment
    → End Result Error
    → Slice
    → JobResult Result Error
run_work x [] end s = ended end
run_work x (m ∷ ms) end s = elim (checkpoint x.deadline_at m s) [
  | goes_on t ↦ run_work x ms end t
  | is_past_deadline ↦ deadline_exceeded x.request_id
  | stops_cancelled ↦ cancelled x.request_id
]

-- What a call of `runExclusive` meets: a job of its key, or the active jobs with its own.
pub data Begun : Type 0 where
  busy : String → Begun
  begun : Dict String → Begun

unfoldable pub begin_job : String → JobExecution → Dict String → Begun
begin_job key x active = elim (get key active) [
  | some active_request_id ↦ busy active_request_id
  | none ↦ begun (put key x.request_id active)
]

unfoldable pub end_job : String → Dict String → Dict String
end_job key active = remove key active

-- `runExclusive`, with the active jobs after it; `meanwhile` is what the threads that run while the
-- work waits do to the active jobs.
unfoldable pub run_exclusive :
    {Result Error : Type 0}
    → String
    → JobExecution
    → ℕ
    → List Moment
    → End Result Error
    → (Dict String → Dict String)
    → Dict String
    → JobResult Result Error × Dict String
run_exclusive key x started ms end meanwhile active = elim (begin_job key x active) [
  | busy active_request_id ↦ (plugin_busy active_request_id, active)
  | begun held ↦ (
    run_work x ms end (record { started_at = started; until_clock_check = 0 }),
    end_job key (meanwhile held),
  )
]

-- Threads that take turns: a call begins, or the work of a call that holds its key ends, in
-- whatever way; the place counts among the calls that hold keys, the latest first.
pub data Turn : Type 0 where
  begins : String → JobExecution → Turn
  ends : ℕ → Turn

-- The active jobs, and the calls between `activeJobs.set` and `activeJobs.delete`, each with its
-- key and request.
pub record JobThreads : Type 0 where
  pub active : Dict String
  pub running : List (String × String)

abbrev pub at_place : ℕ → List (String × String) → Option (String × String)
at_place n [] = none
at_place zero (j ∷ js) = some j
at_place (suc n) (j ∷ js) = at_place n js

abbrev pub without : ℕ → List (String × String) → List (String × String)
without n [] = []
without zero (j ∷ js) = js
without (suc n) (j ∷ js) = j ∷ without n js

unfoldable pub turn : Turn → JobThreads → JobThreads
turn (begins key x) s = elim (begin_job key x s.active) [
  | busy active_request_id ↦ s
  | begun held ↦ record { active = held; running = (key, x.request_id) ∷ s.running }
]
turn (ends n) s = elim (at_place n s.running) [
  | none ↦ s
  | some job ↦ record { active = end_job job.0 s.active; running = without n s.running }
]

unfoldable pub turns : List Turn → JobThreads → JobThreads
turns [] s = s
turns (t ∷ ts) s = turns ts (turn t s)
