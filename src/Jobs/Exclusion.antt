-- ===== src/Jobs/Exclusion.antt =====
-- Keys of the jobs of studio-plugin/src/modules/CooperativeJobRunner.ts, whose threads take turns.
use robloxstudio_mcp.Shared.{
  ℕ, zero, suc, ◌≡◌, refl, String, Option, Dict, none, some, List, [], ◌∷◌, get, get-put,
  get-remove, eq_iff, str_eq, Distinct, arith, Option-cases, inl, inr, if◌then◌else◌, sym, ap, ◌∙◌,
}
use robloxstudio_mcp.Jobs.{
  JobExecution, Begun, busy, begun, begin_job, end_job, Turn, begins, ends, JobThreads, at_place,
  without, turn, turns,
}

-- No two running jobs have the same key, and the active jobs are exactly the running ones.
pub record IsExclusive (s : JobThreads) : Type 0 where
  pub one_per_key : Distinct s.running
  pub exact : (key : String) → get key s.active ≡ get key s.running

abbrev pub no_jobs : JobThreads
no_jobs = record { active = []; running = [] }

get-at_place :
    (n : ℕ) (js : List (String × String)) (j : String × String)
    → Distinct js
    → at_place n js ≡ some j
    → get j.0 js ≡ some j.1
unfolding get
get-at_place n [] j d e = cc
get-at_place zero (i ∷ js) (key, id) d e = ground (arith, eq_iff key key)
get-at_place (suc n) ((k, v) ∷ js) (key, id) d e =
    ground (arith, eq_iff k key, get-at_place n js (key, id) d.1 e, d.0)

get-without :
    (n : ℕ) (js : List (String × String)) (j : String × String) (key : String)
    → Distinct js
    → at_place n js ≡ some j
    → get key (without n js) ≡ (if str_eq j.0 key then none else get key js)
unfolding get
get-without n [] j key d e = cc
get-without zero ((k, v) ∷ js) j key d e = ground (arith, eq_iff k key)
get-without (suc n) ((k, v) ∷ js) (l, id) key d e = ground (
  arith,
  eq_iff k key,
  eq_iff l key,
  get-at_place n js (l, id) d.1 e,
  get-without n js (l, id) key d.1 e,
  d.0,
)

without-Distinct :
    (n : ℕ) (js : List (String × String)) (j : String × String)
    → Distinct js
    → at_place n js ≡ some j
    → Distinct (without n js)
unfolding get
without-Distinct n [] j d e = d
without-Distinct zero (i ∷ js) j d e = d.1
without-Distinct (suc n) ((k, v) ∷ js) j d e =
    (ground (arith, eq_iff j.0 k, get-without n js j k d.1 e, d.0), without-Distinct n js j d.1 e)

begins-IsExclusive :
    (key : String) (x : JobExecution) (s : JobThreads)
    → IsExclusive s
    → IsExclusive (turn (begins key x) s)
unfolding turn begin_job get
begins-IsExclusive key x s h = elim (Option-cases (get key s.active)) [
  | inr (id, e) ↦ rw (e, turn) h
  | inl e ↦
      rw (e, turn)
        (record {
          one_per_key = (sym (h.exact key) ∙ e, h.one_per_key);
          exact = λ k.
              get-put key k x.request_id s.active
              ∙ ap (λ o. if str_eq key k then some x.request_id else o) (h.exact k);
        })
]

ends-IsExclusive : (n : ℕ) (s : JobThreads) → IsExclusive s → IsExclusive (turn (ends n) s)
unfolding turn end_job
ends-IsExclusive n s h = elim (Option-cases (at_place n s.running)) [
  | inl e ↦ rw (e, turn) h
  | inr (j, e) ↦
      rw (e, turn)
        (record {
          one_per_key = without-Distinct n s.running j h.one_per_key e;
          exact = λ k.
              get-remove j.0 k s.active
              ∙ ap (λ o. if str_eq j.0 k then none else o) (h.exact k)
              ∙ sym (get-without n s.running j k h.one_per_key e);
        })
]

turns-IsExclusive_from :
    (ts : List Turn) (s : JobThreads) → IsExclusive s → IsExclusive (turns ts s)
unfolding turns
turns-IsExclusive_from [] s h = h
turns-IsExclusive_from (begins key x ∷ ts) s h =
    turns-IsExclusive_from ts (turn (begins key x) s) (begins-IsExclusive key x s h)
turns-IsExclusive_from (ends n ∷ ts) s h =
    turns-IsExclusive_from ts (turn (ends n) s) (ends-IsExclusive n s h)

-- The request of the job for which a call is refused.
abbrev pub refused_for : Begun → Option String
refused_for (busy active_request_id) = some active_request_id
refused_for (begun held) = none

-- The predicate that a call is refused exactly if a job of its key runs, with that job's request.
abbrev pub RefusesRunning : JobThreads → Type 0
RefusesRunning s =
    (key : String) (x : JobExecution) → refused_for (begin_job key x s.active) ≡ get key s.running

refused_for-begin_job :
    (key : String) (x : JobExecution) (active : Dict String)
    → refused_for (begin_job key x active) ≡ get key active
unfolding begin_job
refused_for-begin_job key x active = elim (Option-cases (get key active)) [
  | inl e ↦ rw (e, begin_job)
  | inr (id, e) ↦ rw (e, begin_job)
]

-- However calls of runExclusive begin and end in turn, of any keys, starting with none, no two
-- jobs that run have the same key, and the active jobs are exactly those that run, each key with
-- the request of its job; a further call is refused exactly if a job of its key runs, and it is
-- told that job's request.
pub turns-IsExclusive :
    (ts : List Turn) → IsExclusive (turns ts no_jobs) × RefusesRunning (turns ts no_jobs)
turns-IsExclusive ts =
    let h : IsExclusive (turns ts no_jobs) =
      turns-IsExclusive_from ts no_jobs (record { one_per_key = tt; exact = λ k. refl }) in
    (h, λ key x. refused_for-begin_job key x (turns ts no_jobs).active ∙ h.exact key)
