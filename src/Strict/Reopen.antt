-- ===== src/Strict/Reopen.antt =====
-- What the fork relies on when it makes an environment over a snapshot.
use kanatoko.Prelude.{◌≡◌, ℕ, some}
use kanatoko.Xdr.{Codec, LedgerKey, LedgerSnapshot}
use kanatoko.Protocol.{executed_version}
use kanatoko.Host.{Host, Answer}
use kanatoko.Host.Calls.{fork_env, ForkEnvSeed}

module _ {Env : Type 0} (c : Codec) (h : Host Env) (supported : ℕ) where
  -- An environment that was just made over a snapshot gives that snapshot back, at the protocol that the
  -- Host executes it at.
  pub record ReopensSnapshots : Type 0 where
    pub reopened :
        (s : LedgerSnapshot) (source : LedgerKey → Answer)
        → h.to_ledger_snapshot (
            fork_env h supported (
              ForkEnvSeed.ledger (record {
                source = source;
                ledger_info = some (h.ledger_info s);
                snapshot = some s;
              })))
          ≡ record s { protocol_version = executed_version supported s.protocol_version }
