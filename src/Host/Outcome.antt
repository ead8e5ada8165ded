-- ===== src/Host/Outcome.antt =====
-- How a call's failure is classified.
use kanatoko.Prelude.{◌≡◌, ◌↔◌, true, arith}
use kanatoko.Xdr.{ScVal}
use kanatoko.Host.{CallResult}
use kanatoko.Host.Calls.{classify, outcome_of, is_success}

-- An outcome is a success exactly if the call returned a value that could be converted.
pub is_success_iff :
    (r : CallResult)
    → (is_success (outcome_of (classify r)) ≡ true) ↔ ((v : ScVal) × (r ≡ CallResult.returned v))
unfolding classify outcome_of is_success
is_success_iff r = ground arith
