-- ===== src/Runtime.antt =====
-- src/runtime.rs: `Fork`, the exploratory fork of a frozen fixture, with its checkpoints.
use kanatoko.Prelude.{
  ℕ, ◌+◌, ◌%◌, ◌^◌, Option, none, some, Result, ok, err, holds, ◌==◌, if◌then◌else◌,
}
use kanatoko.Bytes.{Bytes, Bytes-discrete}
use kanatoko.Xdr.{Codec, Hash}
use kanatoko.Protocol.{restore, executed_version}
use kanatoko.Fixture.{FixtureError, FrozenFixture, canonical_digest}
use kanatoko.Host.{Host, Snapshot}
use kanatoko.Host.Calls.{fork_env, ForkEnvSeed, network_ledger_snapshot}

pub data RuntimeError : Type 0 where
  -- expected, actual
  wasm_hash_mismatch : Hash → Hash → RuntimeError
  checkpoint_mismatch : RuntimeError

pub record Checkpoint : Type 0 where
  pub fork_id : ℕ
  pub snapshot : Snapshot

pub record Fork (Env : Type 0) : Type 0 where
  pub id : ℕ
  pub env : Env
  pub network_protocol_version : ℕ

module _ {Env : Type 0} (c : Codec) (h : Host Env) (supported : ℕ) where
  abbrev opened_fork : ℕ → FrozenFixture → Fork Env
  opened_fork id f = record {
    id = id;
    env = fork_env h supported (ForkEnvSeed.ledger (h.input_of_snapshot f.snapshot));
    network_protocol_version = f.snapshot.protocol_version;
  }

  -- `none` is the panic on an exhausted identifier space.
  unfoldable pub from_fixture : ℕ → FrozenFixture → ℕ × Option (Fork Env)
  unfolding fork_env
  from_fixture next_id f =
      ((next_id + 1) % 2 ^ 64, if next_id == 0 then none else some (opened_fork next_id f))

  unfoldable pub fork_executed_version : Fork Env → ℕ
  unfolding executed_version
  fork_executed_version f = executed_version supported f.network_protocol_version

  -- `register` is the SDK's: the environment with the contract, and its address.
  unfoldable pub register_wasm :
      (Env → Bytes → Env × Bytes) → Fork Env → Bytes → Hash → Fork Env × Result RuntimeError Bytes
  unfolding Bytes-discrete
  register_wasm register f wasm expected =
      if holds (Bytes-discrete (c.sha256 wasm) expected)
      then (let (env', address) = register f.env wasm in (record f { env = env' }, ok address))
      else (f, err (wasm_hash_mismatch expected (c.sha256 wasm)))

  unfoldable pub take_checkpoint : Fork Env → Checkpoint
  unfolding restore
  take_checkpoint f =
      let s = h.to_snapshot f.env in
      record {
        fork_id = f.id;
        snapshot = record s {
          ledger = record s.ledger {
            protocol_version =
                restore supported s.ledger.protocol_version f.network_protocol_version;
          };
        };
      }

  unfoldable pub revert_to : Fork Env → Checkpoint → Fork Env × Result RuntimeError (Unit {0})
  unfolding fork_env
  revert_to f k =
      if k.fork_id == f.id
      then (record f { env = fork_env h supported (ForkEnvSeed.snapshot k.snapshot) }, ok tt)
      else (f, err checkpoint_mismatch)

  unfoldable pub fork_digest : Fork Env → Result FixtureError Hash
  unfolding canonical_digest network_ledger_snapshot
  fork_digest f =
      canonical_digest c (network_ledger_snapshot h supported f.env f.network_protocol_version)
