-- ===== src/Tests/StrictFork.antt =====
-- The properties of the strict fork on the fork of `Fork`: `bump` writes account 9, which coverage knows to
-- be absent; any other function asks for an account outside coverage.
use kanatoko.Prelude.{◌≡◌, refl, [], ◌∷◌, some, ok, ok_of}
use kanatoko.Xdr.{ScAddress}
use kanatoko.Ledger.{candidate_address_not_contract}
use kanatoko.Strict.{StrictFork, Receipt, apply, recording, from_captured, revert, checkpoint}
use kanatoko.Strict.Reopen.{ReopensSnapshots}
use kanatoko.Strict.Invoke.{invoke, Run, run_child}
use kanatoko.Strict.Invoke.Effects.{Settled, invoke-Settled}
use kanatoko.Strict.Invoke.Gate.{IsClosed, gate_source, invoke-IsClosed}
use kanatoko.Strict.Candidate.{register_candidate}
use kanatoko.Strict.Candidate.Atomic.{register_candidate_error}
use kanatoko.Strict.Soundness.{IsSound}
use kanatoko.Strict.History.{here, invoked, reverted, Reach-IsSound, from_captured-IsSound}
use kanatoko.Strict.Checkpoint.{Restored, revert-checkpoint}
use kanatoko.Tests.Toy.{toy_codec, toy_host, ToyEnv}
use kanatoko.Tests.Fork.{
  fork, captured, captured_coverage, bump_request, opened, captured_map, captured_map_lem,
  captured-Covers,
}

toy_reopens : ReopensSnapshots toy_codec toy_host 29
unfolding opened
toy_reopens = record { reopened = λ s source. refl }

bump_receipt :
    (r : Receipt) × ((invoke toy_codec toy_host 29 fork bump_request apply recording).1 ≡ ok r)
unfolding opened
bump_receipt = ok_of _ refl

invoke-Settled_example :
    Settled toy_codec toy_host 29 fork
      (invoke toy_codec toy_host 29 fork bump_request apply recording).0
      apply
      bump_receipt.0
invoke-Settled_example =
    invoke-Settled toy_codec toy_host 29 fork bump_request apply recording bump_receipt.0
      bump_receipt.1

invoke-IsClosed_example :
    (run : Run ToyEnv) × (run_child toy_codec toy_host 29 fork bump_request recording ≡ ok run)
    × (bump_receipt.0.outcome ≡ run.outcome)
    × IsClosed toy_codec toy_host 29 run.child (gate_source toy_codec toy_host 29 fork recording)
invoke-IsClosed_example =
    invoke-IsClosed toy_codec toy_host 29 fork bump_request apply recording bump_receipt.0
      bump_receipt.1

register_candidate_error_example :
    (register_candidate toy_codec toy_host 29 fork (ScAddress.account (1 ∷ [])) [] [] []).0 ≡ fork
unfolding opened
register_candidate_error_example =
    register_candidate_error toy_codec toy_host 29 fork (ScAddress.account (1 ∷ [])) [] [] []
      candidate_address_not_contract refl

from_captured-some :
    (from_captured toy_codec toy_host 29 1 captured captured_coverage).1 ≡ some fork
unfolding from_captured
from_captured-some = refl

from_captured-IsSound_example : IsSound toy_codec toy_host 29 fork
from_captured-IsSound_example =
    from_captured-IsSound toy_codec toy_host 29 toy_reopens 1 captured captured_coverage
      captured_map fork captured_map_lem captured-Covers from_captured-some

abbrev bumped_fork : StrictFork ToyEnv
bumped_fork = (invoke toy_codec toy_host 29 fork bump_request apply recording).0

-- Commit, then go back to the start.
Reach-IsSound_example :
    IsSound toy_codec toy_host 29
      (revert toy_codec toy_host 29 bumped_fork (checkpoint toy_codec toy_host 29 fork)).0
Reach-IsSound_example =
    Reach-IsSound toy_codec toy_host 29 toy_reopens fork
      (revert toy_codec toy_host 29 bumped_fork (checkpoint toy_codec toy_host 29 fork)).0
      from_captured-IsSound_example
      (reverted bumped_fork fork (invoked fork bump_request apply recording here) here)

revert-checkpoint_example :
    ((revert toy_codec toy_host 29 bumped_fork (checkpoint toy_codec toy_host 29 fork)).1 ≡ ok tt)
    × Restored toy_codec toy_host 29 fork
        (revert toy_codec toy_host 29 bumped_fork (checkpoint toy_codec toy_host 29 fork)).0
unfolding opened
revert-checkpoint_example =
    revert-checkpoint toy_codec toy_host 29 toy_reopens bumped_fork fork refl refl refl
