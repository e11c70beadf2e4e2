-- ===== src/Workflow/Tame.antt =====
-- A coroutine makes a bounded number of activity calls, whatever they answer, and leaves a review
-- decision that is there in its place.
pub mod Run
use sps_v.Common.{
  ℕ, zero, suc, ◌+◌, ◌≤◌, String, ◌≡◌, refl, sym, ◌∙◌, subst, Bool, true, false, Option, none, some,
  arith, ◌==◌, if◌then◌else◌, Error,
}
use sps_v.Common.Time.{Datetime}
use sps_v.Contracts.CaseState.{
  CaseState, state_eq, intake_pending, intake_complete, compliance_complete, incentives_complete,
  document_complete, submitted, comment_review_pending, correction_pending, resubmission_pending,
}
use sps_v.Contracts.Signals.{ReviewDecisionSignal}
use sps_v.Contracts.Transition.{StateTransitionResult, is_applied}
use sps_v.Workflow.{
  Call, Answer, Info, Self, Prog, ◌>>=◌, asserted, read_self, now, assign, wait_for_review,
}
use sps_v.Workflow.Parts.{
  own_case, fetch_snapshot, apply_transition, advance, require, expected, finished, idle,
  run_submission_step, persist_package, assess_incentives, complete_documents,
}
use sps_v.Workflow.Run.{
  run, run_at, run_intake_pending, run_intake_complete, run_compliance_complete,
  run_incentives_complete, run_document_complete, run_comment_review_pending,
  run_resubmission_pending, run_review, run_reviewed, after_decision, keep_decision,
}

-- Along every path at most `n` activities are called.
abbrev pub Within : {A : Type 0} → ℕ → Prog A → Type 0
Within n (Prog.ret a) = Unit
Within n (Prog.raise e) = Unit
Within zero (Prog.call c k) = ⊥
Within (suc n) (Prog.call c k) = (a : Answer c) → Within n (k a)
Within n (Prog.at_time k) = (t : Datetime) → Within n (k t)
Within n (Prog.with_self k) = (s : Self) → Within n (k s)
Within n (Prog.assigned f p) = Within n p
Within n (Prog.wait_review p) = Within n p

weaken : {A : Type 0} (n m : ℕ) (p : Prog A) → n ≤ m → Within n p → Within m p
weaken n m (Prog.ret a) le h = tt
weaken n m (Prog.raise e) le h = tt
weaken zero m (Prog.call c k) le h = absurd h
weaken (suc n) zero (Prog.call c k) le h = absurd (ground arith)
weaken (suc n) (suc m) (Prog.call c k) le h = λ a. weaken n m (k a) (ground arith) (h a)
weaken n m (Prog.at_time k) le h = λ t. weaken n m (k t) le (h t)
weaken n m (Prog.with_self k) le h = λ s. weaken n m (k s) le (h s)
weaken n m (Prog.assigned f p) le h = weaken n m p le h
weaken n m (Prog.wait_review p) le h = weaken n m p le h

bind :
    {A B : Type 0} (n m : ℕ) (p : Prog A) (f : A → Prog B)
    → Within n p
    → ((a : A) → Within m (f a))
    → Within (n + m) (p >>= f)
unfolding ◌>>=◌
bind n m (Prog.ret a) f h g = weaken m (n + m) (f a) (omega arith) (g a)
bind n m (Prog.raise e) f h g = tt
bind zero m (Prog.call c k) f h g = absurd h
bind (suc n) m (Prog.call c k) f h g =
    let total : suc (n + m) ≡ suc n + m = omega arith in
    subst (λ k'. Within k' (Prog.call c (λ a. k a >>= f))) total (λ a. bind n m (k a) f (h a) g)
bind n m (Prog.at_time k) f h g = λ t. bind n m (k t) f (h t) g
bind n m (Prog.with_self k) f h g = λ s. bind n m (k s) f (h s) g
bind n m (Prog.assigned f' p) f h g = bind n m p f h g
bind n m (Prog.wait_review p) f h g = bind n m p f h g

-- The second decision is the first, if there is one.
abbrev pub Kept : Option ReviewDecisionSignal → Option ReviewDecisionSignal → Type 0
Kept none o = Unit
Kept (some d) o = o ≡ some d

pub Kept-refl : (o : Option ReviewDecisionSignal) → Kept o o
Kept-refl none = tt
Kept-refl (some d) = refl

pub Kept-trans : (a b c : Option ReviewDecisionSignal) → Kept a b → Kept b c → Kept a c
Kept-trans none b c h k = tt
Kept-trans (some d) none c h k = absurd (cc)
Kept-trans (some d) (some e) c h k = k ∙ h

pub Kept-some :
    (d : ReviewDecisionSignal) (a b : Option ReviewDecisionSignal)
    → a ≡ some d
    → Kept a b
    → b ≡ some d
Kept-some d none b e h = absurd (cc)
Kept-some d (some c) b e h = h ∙ e

-- `t` may come after `s`.
abbrev pub Extends : Self → Self → Type 0
Extends s t = Kept s.review_decision t.review_decision

-- Whatever others assign in between that keeps the decision, the coroutine keeps it, from `s` on.
abbrev pub Steady : {A : Type 0} → Self → Prog A → Type 0
Steady s (Prog.ret a) = Unit
Steady s (Prog.raise e) = Unit
Steady s (Prog.call c k) = (a : Answer c) → Steady s (k a)
Steady s (Prog.at_time k) = (t : Datetime) → Steady s (k t)
Steady s (Prog.with_self k) = (t : Self) → Extends s t → Steady t (k t)
Steady s (Prog.assigned f p) = (t : Self) → Extends s t → Extends t (f t) × Steady (f t) p
Steady s (Prog.wait_review p) = Steady s p

pub later : {A : Type 0} (s t : Self) (p : Prog A) → Extends s t → Steady s p → Steady t p
later s t (Prog.ret a) e h = tt
later s t (Prog.raise x) e h = tt
later s t (Prog.call c k) e h = λ a. later s t (k a) e (h a)
later s t (Prog.at_time k) e h = λ n. later s t (k n) e (h n)
later s t (Prog.with_self k) e h = λ u f. h u (Kept-trans _ _ _ e f)
later s t (Prog.assigned g p) e h = λ u f. h u (Kept-trans _ _ _ e f)
later s t (Prog.wait_review p) e h = later s t p e h

bind_steady :
    {A B : Type 0} (s : Self) (p : Prog A) (f : A → Prog B)
    → Steady s p
    → ((a : A) (t : Self) → Steady t (f a))
    → Steady s (p >>= f)
unfolding ◌>>=◌
bind_steady s (Prog.ret a) f h g = g a s
bind_steady s (Prog.raise e) f h g = tt
bind_steady s (Prog.call c k) f h g = λ a. bind_steady s (k a) f (h a) g
bind_steady s (Prog.at_time k) f h g = λ t. bind_steady s (k t) f (h t) g
bind_steady s (Prog.with_self k) f h g = λ t e. bind_steady t (k t) f (h t e) g
bind_steady s (Prog.assigned g' p) f h g = λ t e. ((h t e).0, bind_steady (g' t) p f (h t e).1 g)
bind_steady s (Prog.wait_review p) f h g = bind_steady s p f h g

-- The program calls at most `n` activities, and keeps a decision.
pub record IsTame {A : Type 0} (n : ℕ) (p : Prog A) : Type 0 where
  pub bound : Within n p
  pub steady : (s : Self) → Steady s p

pub chain :
    {A B : Type 0} (n m : ℕ) {p : Prog A} {f : A → Prog B}
    → IsTame n p
    → ((a : A) → IsTame m (f a))
    → IsTame (n + m) (p >>= f)
chain n m {p = p} {f = f} h g = record {
  bound = bind n m p f h.bound (λ a. (g a).bound);
  steady = λ s. bind_steady s p f (h.steady s) (λ a. (g a).steady);
}

pub widen : {A : Type 0} {n m : ℕ} {p : Prog A} → IsTame n p → n ≤ m → IsTame m p
widen {n = n} {m = m} {p = p} h le = record { bound = weaken n m p le h.bound; steady = h.steady }

pub done : {A : Type 0} {n : ℕ} {a : A} → IsTame n (Prog.ret a)
done = record { bound = tt; steady = λ s. tt }

pub stops : {A : Type 0} {n : ℕ} {e : Error} → IsTame {A = A} n (Prog.raise e)
stops = record { bound = tt; steady = λ s. tt }

pub asks :
    {A : Type 0} {c : Call} {k : Answer c → Prog A}
    → ((a : Answer c) → IsTame 0 (k a))
    → IsTame 1 (Prog.call c k)
asks h = record { bound = λ a. (h a).bound; steady = λ s a. (h a).steady s }

pub free_self : IsTame 0 read_self
free_self = record { bound = λ s. tt; steady = λ s t e. tt }

pub free_now : IsTame 0 now
free_now = record { bound = λ t. tt; steady = λ s t. tt }

pub free_assign : {f : Self → Self} → ((t : Self) → Extends t (f t)) → IsTame 0 (assign f)
free_assign h = record { bound = tt; steady = λ s t e. (h t, tt) }

pub free_wait : IsTame 0 wait_for_review
free_wait = record { bound = tt; steady = λ s. tt }

pub asserted-IsTame : {A : Type 0} (o : Option A) → IsTame 0 (asserted o)
asserted-IsTame none = stops
asserted-IsTame (some a) = done

pub own_case-IsTame : IsTame 0 own_case
own_case-IsTame = chain 0 0 free_self (λ s. asserted-IsTame s.case_id)

pub require-IsTame : (b : Bool) → IsTame 0 (require b)
require-IsTame true = done
require-IsTame false = stops

pub expected-IsTame : {A : Type 0} (o : Option A) → IsTame 0 (expected o)
expected-IsTame none = stops
expected-IsTame (some a) = done

pub if-IsTame :
    {A : Type 0} {n : ℕ} (b : Bool) {p q : Prog A}
    → IsTame n p
    → IsTame n q
    → IsTame n (if b then p else q)
if-IsTame true h k = h
if-IsTame false h k = k
