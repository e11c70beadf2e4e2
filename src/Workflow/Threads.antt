-- ===== src/Workflow/Threads.antt =====
-- The turns of one coroutine, with whatever happens to the attributes and the world in between.
use sps_v.Common.{ℕ, zero, suc, ◌+◌, ◌≤◌, String, ◌≡◌, arith}
use sps_v.Guard.Apply.{World}
use sps_v.Workflow.{Info, Self, Prog}
use sps_v.Workflow.Tame.{Within}
use sps_v.Workflow.Tame.Run.{run-IsTame}
use sps_v.Workflow.Parts.{PermitCaseWorkflowResult}
use sps_v.Workflow.Run.{run}
use sps_v.Workflow.Steps.{Turn, reads, assigns, asks, wakes, answers, retries, fails}

pub data Thread {A : Type 0} (p : Prog A) : Prog A → Type 0 where
  begin : Thread p p
  turn :
      {q q' : Prog A} {s s' : Self} {w w' : World} → Thread p q → Turn s w q s' w' q' → Thread p q'

-- A turn in which an activity answers.
abbrev pub answered :
    {A : Type 0} {p p' : Prog A} {s s' : Self} {w w' : World} → Turn s w p s' w' p' → ℕ
answered (answers x s w c a k o e) = 1
answered _ = 0

-- How many answers a coroutine has had.
abbrev pub answers_had : {A : Type 0} {p q : Prog A} → Thread p q → ℕ
answers_had begin = 0
answers_had (turn t u) = answers_had t + answered u

Turn-Within :
    {A : Type 0} {p p' : Prog A} {s s' : Self} {w w' : World} (n : ℕ) (u : Turn s w p s' w' p')
    → Within n p
    → (m : ℕ) × (m + answered u ≡ n) × Within m p'
Turn-Within n (reads s w k) h = (n, omega arith, h s)
Turn-Within n (assigns s w f p) h = (n, omega arith, h)
Turn-Within n (asks s w t k) h = (n, omega arith, h t)
Turn-Within n (wakes s w p e) h = (n, omega arith, h)
Turn-Within zero (answers x s w c a k o e) h = absurd h
Turn-Within (suc n) (answers x s w c a k o e) h = (n, omega arith, h a)
Turn-Within n (retries x s w c k o e) h = (n, omega arith, h)
Turn-Within n (fails x s w c k o e) h = (n, omega arith, tt)

Thread-Within :
    {A : Type 0} {p q : Prog A} (n : ℕ) (t : Thread p q)
    → Within n p
    → (m : ℕ) × (m + answers_had t ≡ n) × Within m q
Thread-Within n begin h = (n, omega arith, h)
Thread-Within n (turn t u) h =
    let (m, e, k) = Thread-Within n t h in let (l, f, r) = Turn-Within m u k in (l, omega arith, r)

-- A run has at most ten answers of activities, however its turns go, whatever is signalled, retried or
-- assigned in between.
pub run-terminates :
    (info : Info) (case_id : String) (q : Prog PermitCaseWorkflowResult)
    (t : Thread (run info case_id) q)
    → answers_had t ≤ 10
run-terminates info case_id q t =
    let (m, e, h) = Thread-Within 10 t (run-IsTame info case_id).bound in omega arith
