-- ===== src/Workflow/Decision.antt =====
-- The first review decision that is signalled stays.
use sps_v.Common.{
  String, ◌≡◌, refl, Option, none, some, List, [], ◌∷◌, ◌++◌, All, All-append, Result, ok, err,
  arith,
}
use sps_v.Contracts.CaseState.{CaseState}
use sps_v.Contracts.Enums.{ExternalStatusClass}
use sps_v.Contracts.Signals.{ReviewDecisionSignal, StatusEventSignal}
use sps_v.Contracts.Transition.{is_applied}
use sps_v.Guard.Apply.{World}
use sps_v.Workflow.{Info, Self, Prog, new_self}
use sps_v.Workflow.Parts.{returned}
use sps_v.Workflow.Run.{run}
use sps_v.Workflow.Signals.{
  keep_first, review_decision, persist_status_event_artifact, file_correction, file_resubmission,
  file_approval, file_inspection, status_event, run_emergency_transition, ensure_case_id,
  emergency_hold_entry, emergency_hold_exit,
}
use sps_v.Workflow.Steps.{
  Turn, reads, assigns, asks, wakes, answers, retries, fails, Signal, handler, Config, Step,
  main_turn, handler_turn, arrives, outside, Reach, here, next,
}
use sps_v.Workflow.Tame
use sps_v.Workflow.Tame.{
  IsTame, Kept, Kept-refl, Kept-trans, Extends, Steady, later, chain, done, free_self, free_assign,
  own_case-IsTame, require-IsTame,
}
use sps_v.Workflow.Tame.Run.{fetch_snapshot-IsTame, apply_transition-IsTame, run-IsTame}

keep_first-Kept :
    (s : Self) (signal : ReviewDecisionSignal) (o : Option ReviewDecisionSignal)
    → s.review_decision ≡ o
    → Kept o (keep_first s signal o).review_decision
keep_first-Kept s signal none e = tt
keep_first-Kept s signal (some d) e = e

review_decision-IsTame : (signal : ReviewDecisionSignal) → IsTame 0 (review_decision signal)
unfolding review_decision
review_decision-IsTame signal = free_assign (λ s. keep_first-Kept s signal s.review_decision refl)

module _ (signal : StatusEventSignal) where
  file_correction-IsTame : IsTame 1 (file_correction signal)
  unfolding file_correction
  file_correction-IsTame = chain 1 0 (Tame.asks (λ a. done)) (λ a. done)

  file_resubmission-IsTame : IsTame 1 (file_resubmission signal)
  unfolding file_resubmission
  file_resubmission-IsTame = chain 1 0 (Tame.asks (λ a. done)) (λ a. done)

  file_approval-IsTame : IsTame 1 (file_approval signal)
  unfolding file_approval
  file_approval-IsTame = chain 1 0 (Tame.asks (λ a. done)) (λ a. done)

  file_inspection-IsTame : IsTame 1 (file_inspection signal)
  unfolding file_inspection
  file_inspection-IsTame = chain 1 0 (Tame.asks (λ a. done)) (λ a. done)

  artifact-IsTame : (c : ExternalStatusClass) → IsTame 1 (persist_status_event_artifact signal c)
  unfolding persist_status_event_artifact
  artifact-IsTame ExternalStatusClass.comment_issued = file_correction-IsTame
  artifact-IsTame ExternalStatusClass.resubmission_requested = file_resubmission-IsTame
  artifact-IsTame ExternalStatusClass.approval_reported = file_approval-IsTame
  artifact-IsTame ExternalStatusClass.approval_confirmed = file_approval-IsTame
  artifact-IsTame ExternalStatusClass.approval_pending_inspection = file_approval-IsTame
  artifact-IsTame ExternalStatusClass.approval_final = file_approval-IsTame
  artifact-IsTame ExternalStatusClass.inspection_scheduled = file_inspection-IsTame
  artifact-IsTame ExternalStatusClass.inspection_passed = file_inspection-IsTame
  artifact-IsTame ExternalStatusClass.inspection_failed = file_inspection-IsTame
  artifact-IsTame _ = done

  status_event-IsTame : IsTame 1 (status_event signal)
  unfolding status_event
  status_event-IsTame =
      chain 0 1 (free_assign (λ s. Kept-refl s.review_decision))
        (λ u. chain 0 1 own_case-IsTame (λ id. artifact-IsTame signal.normalized_status))

returned-IsTame : {A : Type 0} (r : Result A) → IsTame 0 (returned r)
returned-IsTame (ok a) = done
returned-IsTame (err e) = Tame.stops

module _ (info : Info) where
  ensure_case_id-IsTame : (o : Option String) → IsTame 0 (ensure_case_id info o)
  unfolding ensure_case_id
  ensure_case_id-IsTame none =
      chain 0 0 (returned-IsTame _) (λ id. free_assign (λ s. Kept-refl s.review_decision))
  ensure_case_id-IsTame (some id) = done

  emergency-IsTame :
      (id : String) (from to : CaseState) → IsTame 1 (run_emergency_transition info id from to)
  unfolding run_emergency_transition
  emergency-IsTame id from to =
      chain 1 0 (apply_transition-IsTame info id from to none none)
        (λ r. require-IsTame (is_applied r))

  handler-IsTame : (signal : Signal) → IsTame 3 (handler info signal)
  unfolding emergency_hold_entry emergency_hold_exit
  handler-IsTame (Signal.review signal) = Tame.widen (review_decision-IsTame signal) (omega arith)
  handler-IsTame (Signal.status signal) = Tame.widen (status_event-IsTame signal) (omega arith)
  handler-IsTame (Signal.hold_entry payload) = chain 0 3 free_self (λ s.
      chain 0 3 (ensure_case_id-IsTame s.case_id) (λ u. chain 1 2 (Tame.asks (λ a. done)) (λ a.
        chain 1 1 fetch_snapshot-IsTame (λ snapshot.
          chain 0 1 (free_assign (λ t. Kept-refl t.review_decision))
            (λ v. chain 0 1 free_self (λ n. emergency-IsTame _ _ _))))))
  handler-IsTame (Signal.hold_exit payload) = chain 0 3 free_self (λ s.
      chain 0 3 (ensure_case_id-IsTame s.case_id) (λ u. chain 1 2 (Tame.asks (λ a. done)) (λ a.
        chain 0 2 (free_assign (λ t. Kept-refl t.review_decision))
          (λ v. chain 0 2 free_self (λ n. Tame.widen (emergency-IsTame _ _ _) (omega arith))))))

-- The attributes only go on, and every coroutine keeps to that.
pub record IsSteady (c : Config) : Type 0 where
  pub main : Steady c.attributes c.main
  pub handlers : All (Steady c.attributes) c.handlers

-- The configuration in which a run starts.
abbrev pub start : Info → String → World → Config
start info case_id w = record {
  attributes = new_self;
  world = w;
  main = run info case_id;
  handlers = [];
}

start-IsSteady : (info : Info) (id : String) (w : World) → IsSteady (start info id w)
start-IsSteady info id w = record { main = (run-IsTame info id).steady new_self; handlers = tt }

-- A turn keeps a decision, and what follows it goes on to.
Turn-Steady :
    {A : Type 0} {p p' : Prog A} {s s' : Self} {w w' : World}
    → Turn s w p s' w' p'
    → Steady s p
    → Extends s s' × Steady s' p'
Turn-Steady (reads s w k) h = (Kept-refl s.review_decision, h s (Kept-refl s.review_decision))
Turn-Steady (assigns s w f p) h = h s (Kept-refl s.review_decision)
Turn-Steady (asks s w t k) h = (Kept-refl s.review_decision, h t)
Turn-Steady (wakes s w p e) h = (Kept-refl s.review_decision, h)
Turn-Steady (answers x s w c a k o e) h = (Kept-refl s.review_decision, h a)
Turn-Steady (retries x s w c k o e) h = (Kept-refl s.review_decision, h)
Turn-Steady (fails x s w c k o e) h = (Kept-refl s.review_decision, tt)

later-All :
    (s t : Self) (hs : List (Prog (Unit {0}))) → Extends s t → All (Steady s) hs → All (Steady t) hs
later-All s t [] e h = tt
later-All s t (p ∷ hs) e (k, h) = (later s t p e k, later-All s t hs e h)

handlers-Turn :
    {s s' : Self} {w w' : World} {p p' : Prog (Unit {0})} (before after : List (Prog (Unit {0})))
    → Turn s w p s' w' p'
    → All (Steady s) (before ++ p ∷ after)
    → Extends s s' × All (Steady s') (before ++ p' ∷ after)
handlers-Turn {s = s} {s' = s'} [] after u (k, h) =
    let (e, k') = Turn-Steady u k in (e, (k', later-All s s' after e h))
handlers-Turn {s = s} {s' = s'} (q ∷ before) after u (k, h) =
    let (e, h') = handlers-Turn before after u h in (e, (later s s' q e k, h'))

Step-IsSteady :
    {info : Info} {c d : Config}
    → Step info c d
    → IsSteady c
    → Extends c.attributes d.attributes × IsSteady d
Step-IsSteady (main_turn {s = s} {s' = s'} {handlers = hs} u) h =
    let (e, m) = Turn-Steady u h.main in
    (e, record { main = m; handlers = later-All s s' hs e h.handlers })
Step-IsSteady (handler_turn {s = s} {s' = s'} {main = p} before after u) h =
    let (e, hs) = handlers-Turn before after u h.handlers in
    (e, record { main = later s s' p e h.main; handlers = hs })
Step-IsSteady {info = info} (arrives {s = s} {handlers = hs} signal) h = (
  Kept-refl s.review_decision,
  record {
    main = h.main;
    handlers =
        All-append (Steady s) hs (handler info signal) h.handlers
          ((handler-IsTame info signal).steady s);
  },
)
Step-IsSteady (outside {s = s} v lead) h =
    (Kept-refl s.review_decision, record { main = h.main; handlers = h.handlers })

Reach-IsSteady :
    {info : Info} {c d : Config}
    → Reach info c d
    → IsSteady c
    → Extends c.attributes d.attributes × IsSteady d
Reach-IsSteady {c = c} here h = (Kept-refl c.attributes.review_decision, h)
Reach-IsSteady {c = c} {d = e} (next {d = m} r step) h =
    let (first, mid) = Reach-IsSteady r h in
    let (second, last) = Step-IsSteady step mid in
    (
      Kept-trans c.attributes.review_decision m.attributes.review_decision
          e.attributes.review_decision first second,
      last,
    )

-- However a run goes on from where a review decision has been signalled to it, with its retries, its
-- failures and further signals, that decision stays.
pub first_decision_stays :
    (info : Info) (case_id : String) (w : World) (c d : Config) (decision : ReviewDecisionSignal)
    → Reach info (start info case_id w) c
    → c.attributes.review_decision ≡ some decision
    → Reach info c d
    → d.attributes.review_decision ≡ some decision
first_decision_stays info case_id w c d decision before there after =
    let (e, steady) = Reach-IsSteady before (start-IsSteady info case_id w) in
    let (kept, still) = Reach-IsSteady after steady in
    Tame.Kept-some decision c.attributes.review_decision d.attributes.review_decision there kept
