-- ===== src/Guard/Gates/Errors.antt =====
-- The exceptions of the branches.
use sps_v.Common.{ℕ, ◌≢◌, err, Error, arith}
use sps_v.Contracts.Transition.{StateTransitionRequest}
use sps_v.Assertions.{Registry}
use sps_v.Db.{Database}
use sps_v.Guard.Branch.{Branch}
use sps_v.Guard.Gates.{run_branch, intake_branch, compliance_branch, incentives_branch, minus}

-- No branch raises the exception of a failpoint.
pub run_branch-ne-failpoint :
    (registry : Registry) (req : StateTransitionRequest) (at : ℕ) (db : Database) (b : Branch)
    → run_branch registry req at db b ≢ err Error.failpoint_fired
unfolding run_branch intake_branch compliance_branch incentives_branch minus
run_branch-ne-failpoint registry req at db Branch.enter_hold = ground arith
run_branch-ne-failpoint registry req at db b = ground arith
