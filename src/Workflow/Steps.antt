-- ===== src/Workflow/Steps.antt =====
-- How the workflow proceeds: its coroutines take turns, signals arrive, activities are attempted and
-- attempted again, and other transactions commit in between. A coroutine of the code runs on to its
-- next await; here others may step in at each read and assignment too.
use sps_v.Common.{String, ◌≡◌, Bool, true, false, List, ◌∷◌, [], ◌++◌, is_some, ok, Error}
use sps_v.Common.Time.{Datetime}
use sps_v.Contracts.Signals.{
  ReviewDecisionSignal, StatusEventSignal, EmergencyHoldRequest, EmergencyHoldExitRequest,
}
use sps_v.Db.{Database}
use sps_v.Diagram.{Leads, state_of}
use sps_v.Guard.Apply.{World}
use sps_v.Workflow.{Call, Answer, Info, Self, Prog}
use sps_v.Workflow.Parts.{PermitCaseWorkflowResult}
use sps_v.Workflow.Perform.{Context, perform}
use sps_v.Workflow.Signals.{
  review_decision, status_event, emergency_hold_entry, emergency_hold_exit,
}

-- The calls that the workflow makes with `maximum_attempts=1`; the others are attempted until they
-- return.
abbrev pub is_once : Call → Bool
is_once (Call.validate_emergency_artifact id) = true
is_once (Call.validate_reviewer_confirmation id) = true
is_once _ = false

-- What others commit moves the cases along the diagram, and lets them be in the gap in which a
-- package overwrites its case.
pub record IsOrderly (x : Context) (db : Database) : Type 0 where
  pub others_lead : (id : String) → Leads id db (x.others db)
  pub racing_stays :
      (id : String) → state_of id (x.racing (x.others db)) ≡ state_of id (x.others db)

-- A turn of a coroutine.
pub data Turn {A : Type 0} : Self → World → Prog A → Self → World → Prog A → Type 0 where
  reads : (s : Self) (w : World) (k : Self → Prog A) → Turn s w (Prog.with_self k) s w (k s)
  assigns :
      (s : Self) (w : World) (f : Self → Self) (p : Prog A) → Turn s w (Prog.assigned f p) (f s) w p
  asks :
      (s : Self) (w : World) (t : Datetime) (k : Datetime → Prog A)
      → Turn s w (Prog.at_time k) s w (k t)
  wakes :
      (s : Self) (w : World) (p : Prog A)
      → is_some s.review_decision ≡ true
      → Turn s w (Prog.wait_review p) s w p
  answers :
      (x : Context) (s : Self) (w : World) (c : Call) (a : Answer c) (k : Answer c → Prog A)
      → IsOrderly x w.db
      → (perform x c w).0 ≡ ok a
      → Turn s w (Prog.call c k) s (perform x c w).1 (k a)
  -- The attempt has raised, or its answer was lost, and there is another.
  retries :
      (x : Context) (s : Self) (w : World) (c : Call) (k : Answer c → Prog A)
      → IsOrderly x w.db
      → is_once c ≡ false
      → Turn s w (Prog.call c k) s (perform x c w).1 (Prog.call c k)
  -- The only attempt has raised, or its answer was lost.
  fails :
      (x : Context) (s : Self) (w : World) (c : Call) (k : Answer c → Prog A)
      → IsOrderly x w.db
      → is_once c ≡ true
      → Turn s w (Prog.call c k) s (perform x c w).1 (Prog.raise Error.activity_error)

pub data Signal : Type 0 where
  review : ReviewDecisionSignal → Signal
  status : StatusEventSignal → Signal
  hold_entry : EmergencyHoldRequest → Signal
  hold_exit : EmergencyHoldExitRequest → Signal

abbrev pub handler : Info → Signal → Prog (Unit {0})
handler info (Signal.review signal) = review_decision signal
handler info (Signal.status signal) = status_event signal
handler info (Signal.hold_entry payload) = emergency_hold_entry info payload
handler info (Signal.hold_exit payload) = emergency_hold_exit info payload

-- A run of the workflow: its attributes, the world that its activities work on, `run`, and the
-- handlers that have been started.
pub record Config : Type 0 where
  pub attributes : Self
  pub world : World
  pub main : Prog PermitCaseWorkflowResult
  pub handlers : List (Prog (Unit {0}))

pub data Step (info : Info) : Config → Config → Type 0 where
  main_turn :
      {s s' : Self} {w w' : World} {p p' : Prog PermitCaseWorkflowResult}
      {handlers : List (Prog (Unit {0}))}
      → Turn s w p s' w' p'
      → Step info
          (record { attributes = s; world = w; main = p; handlers = handlers })
          (record { attributes = s'; world = w'; main = p'; handlers = handlers })
  handler_turn :
      {s s' : Self} {w w' : World} {main : Prog PermitCaseWorkflowResult} {h h' : Prog (Unit {0})}
      (before after : List (Prog (Unit {0})))
      → Turn s w h s' w' h'
      → Step info
          (record { attributes = s; world = w; main = main; handlers = before ++ h ∷ after })
          (record { attributes = s'; world = w'; main = main; handlers = before ++ h' ∷ after })
  arrives :
      {s : Self} {w : World} {main : Prog PermitCaseWorkflowResult}
      {handlers : List (Prog (Unit {0}))} (signal : Signal)
      → Step info
          (record { attributes = s; world = w; main = main; handlers = handlers })
          (record {
            attributes = s;
            world = w;
            main = main;
            handlers = handlers ++ handler info signal ∷ [];
          })
  -- Other transactions commit, and move the cases along the diagram; the process may restart.
  outside :
      {s : Self} {w : World} {main : Prog PermitCaseWorkflowResult}
      {handlers : List (Prog (Unit {0}))} (v : World)
      → ((id : String) → Leads id w.db v.db)
      → Step info
          (record { attributes = s; world = w; main = main; handlers = handlers })
          (record { attributes = s; world = v; main = main; handlers = handlers })

pub data Reach (info : Info) (c : Config) : Config → Type 0 where
  here : Reach info c c
  next : {d e : Config} → Reach info c d → Step info d e → Reach info c e
