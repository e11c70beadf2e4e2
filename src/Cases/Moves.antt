-- ===== src/Cases/Moves.antt =====
-- The activity that creates a case puts it at the start of the diagram.
use sps_v.Common.{
  String, ◌≡◌, refl, subst, Bool, false, none, List, [], ◌∷◌, ◌++◌, ◌==◌, string_eq, arith,
  Bool-cases, inl, inr, is_some, find, find-append_new, str_refl, eq_iff, Option-cases,
}
use sps_v.Db.{Database}
use sps_v.Cases.{find_case, new_case, ensure_permit_case_exists}
use sps_v.Diagram.{Leads, Leads-same, Leads-created, Leads-trans, stay, state_of-find}

find-append_other :
    {A : Type 0} (p : A → Bool) (xs : List A) (y : A)
    → p y ≡ false
    → find p (xs ++ y ∷ []) ≡ find p xs
unfolding find
find-append_other p [] y h = rw h refl
find-append_other p (x ∷ xs) y h = ground (arith, find-append_other p xs y)

module _ (made id : String) (db : Database) (free : is_some (find_case made db) ≡ false) where
  abbrev with_new : Database
  with_new = record db { permit_cases = db.permit_cases ++ new_case made ∷ [] }

  missing : find_case made db ≡ none
  missing = elim (Option-cases (find_case made db)) [
    | inl gone ↦ gone
    | inr (case, found) ↦ absurd (ground arith)
  ]

  creation-Leads : Leads id db with_new
  unfolding new_case
  creation-Leads = elim (Bool-cases (made == id)) [
    | inl own ↦
        subst (λ i. Leads i db with_new) ((eq_iff made id).0 own)
          (Leads-created made db with_new (new_case made) missing
            (find-append_new (λ c. c.case_id == made) db.permit_cases (new_case made) missing
              (str_refl made))
            refl)
    | inr other ↦ Leads-same id db with_new (
        state_of-find id db with_new
          (find-append_other (λ c. c.case_id == id) db.permit_cases (new_case made) other))
  ]

pub ensure_permit_case_exists-Leads :
    (others : Database → Database) (made id : String) (db : Database)
    → Leads id db (others db)
    → Leads id db (ensure_permit_case_exists others made db).1
unfolding ensure_permit_case_exists
ensure_permit_case_exists-Leads others made id db lead =
    elim (Bool-cases (is_some (find_case made db))) [
      | inl there ↦ rw there stay
      | inr gone ↦ elim (Bool-cases (is_some (find_case made (others db)))) [
        | inl raced ↦ rw (gone, raced) lead
        | inr free ↦
            rw (gone, free)
              (Leads-trans id db (others db) (with_new made id (others db) free) lead
                (creation-Leads made id (others db) free))
      ]
    ]
