-- ===== src/Capture/Materialize/Closed.antt =====
-- What `CaptureBuilder::expand_code_closure` of src/capture.rs leaves.
use kanatoko.Prelude.{List}
use kanatoko.Prelude
use kanatoko.Xdr.{Codec}
use kanatoko.Capture.{Materialized}
use kanatoko.Capture.Rpc.{Rpc}
use kanatoko.Capture.Closure.Holds.{IsExecutableClosed}
use kanatoko.Capture.Materialize.Checked.{IsCoherent}

-- A coherent ledger that holds the executables which its contract instances refer to.
pub record IsClosed (c : Codec) (m : Materialized) : Type 0 where
  pub coherent : IsCoherent c m
  pub closed : IsExecutableClosed c m.coverage
