-- ===== src/Diagram.antt =====
-- The abstract view of the database: each case is at a node of the diagram of case states, or not
-- there yet, and the code is to move it along the edges of `Guard.Spec.Edge` only.
use sps_v.Common.{
  String, ◌≡◌, ◌⊎◌, refl, sym, ◌∙◌, ap, subst, false, Option, none, some, List, [], ◌∷◌, ◌==◌,
  string_eq, arith, Bool-cases, Option-cases, inl, inr, find, update, eq_iff, find-update_ne,
}
use sps_v.Contracts.CaseState.{CaseState, review_pending, intake_pending}
use sps_v.Db.{Database, PermitCase}
use sps_v.Cases.{find_case}
use sps_v.Guard.Branch.{Branch}
use sps_v.Guard.Spec.{Edge}

-- The state of a case, if it is there.
abbrev pub state_in : Option PermitCase → Option CaseState
state_in none = none
state_in (some c) = some c.case_state

pub state_of : String → Database → Option CaseState
state_of id db = state_in (find_case id db)

-- A path in the diagram, which may begin with the creation of the case: at REVIEW_PENDING by the
-- workflow's activity, at INTAKE_PENDING by the API (src/sps/api/routes/cases_create_impl.py).
pub data Route : Option CaseState → Option CaseState → Type 0 where
  stay : {s : Option CaseState} → Route s s
  create : {s : Option CaseState} → Route s none → Route s (some review_pending)
  intake : {s : Option CaseState} → Route s none → Route s (some intake_pending)
  move :
      {s : Option CaseState} {t u : CaseState} {b : Branch}
      → Route s (some t)
      → Edge t u b
      → Route s (some u)

pub Route-trans : {s t u : Option CaseState} → Route s t → Route t u → Route s u
Route-trans p stay = p
Route-trans p (create q) = create (Route-trans p q)
Route-trans p (intake q) = intake (Route-trans p q)
Route-trans p (move q e) = move (Route-trans p q) e

-- The case `id` has gone along a path.
abbrev pub Leads : String → Database → Database → Type 0
Leads id db db' = Route (state_of id db) (state_of id db')

pub Leads-same :
    (id : String) (db db' : Database) → state_of id db' ≡ state_of id db → Leads id db db'
Leads-same id db db' e = subst (Route (state_of id db)) (sym e) stay

pub Leads-trans : (id : String) (a b c : Database) → Leads id a b → Leads id b c → Leads id a c
Leads-trans id a b c p q = Route-trans p q

pub Leads-cases :
    (id : String) (db now db' : Database)
    → Leads id db now
    → (db'.permit_cases ≡ db.permit_cases) ⊎ (db'.permit_cases ≡ now.permit_cases)
    → Leads id db db'
unfolding state_of
Leads-cases id db now db' lead (inl same) =
    Leads-same id db db' (ap (λ cases. state_in (find (λ c. c.case_id == id) cases)) same)
Leads-cases id db now db' lead (inr same) =
    Leads-trans id db now db' lead
      (Leads-same id now db' (ap (λ cases. state_in (find (λ c. c.case_id == id) cases)) same))

-- Equal tables of cases give equal states.
pub state_of-cases :
    (id : String) (db db' : Database)
    → db'.permit_cases ≡ db.permit_cases
    → state_of id db' ≡ state_of id db
unfolding state_of
state_of-cases id db db' e = ap (λ cases. state_in (find (λ c. c.case_id == id) cases)) e

-- An assignment to the row of one case.
module _ (id : String) (f : PermitCase → PermitCase)
    (keeps : (c : PermitCase) → (f c).case_id ≡ c.case_id) where
  pub find-update_own :
      (cases : List PermitCase)
      → find (λ c. c.case_id == id) (update (λ c. c.case_id == id) f cases)
        ≡ elim (find (λ c. c.case_id == id) cases) [ none ↦ none | some c ↦ some (f c) ]
  unfolding find update
  find-update_own [] = refl
  find-update_own (c ∷ cases) = elim (Bool-cases (c.case_id == id)) [
    | inl here ↦ ground (arith, keeps c, eq_iff c.case_id id, eq_iff (f c).case_id id)
    | inr past ↦ ground (arith, find-update_own cases)
  ]

  pub find-update_other :
      (other : String) (cases : List PermitCase)
      → (other == id) ≡ false
      → find (λ c. c.case_id == other) (update (λ c. c.case_id == id) f cases)
        ≡ find (λ c. c.case_id == other) cases
  find-update_other other cases ne =
      find-update_ne (λ c. c.case_id == other) (λ c. c.case_id == id) f cases
        (λ c h. ground (
          arith,
          keeps c,
          eq_iff c.case_id id,
          eq_iff c.case_id other,
          eq_iff (f c).case_id other,
          eq_iff other id,
        ))

-- What was found of the case before and after.
module _ (id : String) (db db' : Database) where
  pub state_of-find :
      (found : find_case id db' ≡ find_case id db) → state_of id db' ≡ state_of id db
  unfolding state_of
  state_of-find found = ap state_in found

  pub Leads-kept :
      (c c' : PermitCase)
      → find_case id db ≡ some c
      → find_case id db' ≡ some c'
      → c'.case_state ≡ c.case_state
      → Leads id db db'
  unfolding state_of
  Leads-kept c c' was now same =
      Leads-same id db db' (ap state_in now ∙ ap some same ∙ sym (ap state_in was))

  pub Leads-moved :
      {b : Branch} (c c' : PermitCase)
      → find_case id db ≡ some c
      → find_case id db' ≡ some c'
      → Edge c.case_state c'.case_state b
      → Leads id db db'
  unfolding state_of
  Leads-moved c c' was now edge =
      subst (λ s. Route s (state_of id db')) (sym (ap state_in was))
        (subst (Route (some c.case_state)) (sym (ap state_in now)) (move stay edge))

  pub Leads-created :
      (c : PermitCase)
      → find_case id db ≡ none
      → find_case id db' ≡ some c
      → c.case_state ≡ review_pending
      → Leads id db db'
  unfolding state_of
  Leads-created c was now new =
      subst (λ s. Route s (state_of id db')) (sym (ap state_in was))
        (subst (Route none) (sym (ap state_in now ∙ ap some new)) (create stay))

module _ (id : String) (db : Database) where
  pub state_of-some :
      (s : CaseState)
      → state_of id db ≡ some s
      → (c : PermitCase) × (find_case id db ≡ some c) × (c.case_state ≡ s)
  unfolding state_of
  state_of-some s e = elim (Option-cases (find_case id db)) [
    | inl missing ↦ absurd (ground arith)
    | inr (c, found) ↦ (c, found, ground arith)
  ]

  pub state_of_found :
      (c : PermitCase) → find_case id db ≡ some c → state_of id db ≡ some c.case_state
  unfolding state_of
  state_of_found c found = ap state_in found
