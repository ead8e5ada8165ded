-- ===== src/Strict/History.antt =====
-- What holds after any history of calls on one fork.
use kanatoko.Prelude.{◌≡◌, subst, ◌∙◌, List, [], some, ℕ, ok, arith, false}
use kanatoko.Bytes.{Bytes}
use kanatoko.Xdr.{Codec, Hash, ScAddress, ScVal, LedgerSnapshot}
use kanatoko.Ledger.{Coverage, snapshot_map}
use kanatoko.Ledger.Diff.{LedgerMap, Covers}
use kanatoko.Host.{Host, InvokeRequest}
use kanatoko.Strict.{
  AuthMode, ExecutionMode, StrictFork, ledger_snapshot, checkpoint, revert, from_captured,
  fresh_fork,
}
use kanatoko.Strict.Reopen.{ReopensSnapshots}
use kanatoko.Strict.Invoke.{invoke}
use kanatoko.Strict.Candidate.{register_candidate}
use kanatoko.Strict.Soundness.{
  IsSound, invoke-IsSound, register_candidate-IsSound, revert-IsSound, reopened_entries,
  same_entries,
}

module _ {Env : Type 0} (c : Codec) (h : Host Env) (supported : ℕ) where
  -- The states that a program can bring about from `start`.
  pub data Reach (start : StrictFork Env) : StrictFork Env → Type 0 where
    here : Reach start start
    invoked :
        (f : StrictFork Env) (request : InvokeRequest) (mode : ExecutionMode) (auth : AuthMode)
        → Reach start f
        → Reach start (invoke c h supported f request mode auth).0
    registered :
        (f : StrictFork Env) (address : ScAddress) (wasm : Bytes) (expected : Hash)
        (args : List ScVal)
        → Reach start f
        → Reach start (register_candidate c h supported f address wasm expected args).0
    reverted :
        (f g : StrictFork Env)
        → Reach start f
        → Reach start g
        → Reach start (revert c h supported f (checkpoint c h supported g)).0

  -- Every state that invocations, registrations and reverts to earlier checkpoints can bring about from
  -- a sound fork is sound.
  pub Reach-IsSound :
      ReopensSnapshots c h supported
      → (start f : StrictFork Env) → IsSound c h supported start
      → Reach start f
      → IsSound c h supported f
  Reach-IsSound law start f s here = s
  Reach-IsSound law start f s (invoked g request mode auth r) =
      invoke-IsSound c h supported law g request mode auth (Reach-IsSound law start g s r)
  Reach-IsSound law start f s (registered g address wasm expected args r) =
      register_candidate-IsSound c h supported g address wasm expected args
        (Reach-IsSound law start g s r)
  Reach-IsSound law start f s (reverted g k r t) =
      revert-IsSound c h supported law g k (Reach-IsSound law start g s r)
        (Reach-IsSound law start k s t)

  fresh_of_captured :
      (next_id : ℕ) (snapshot : LedgerSnapshot) (coverage : Coverage) (f : StrictFork Env)
      → (from_captured c h supported next_id snapshot coverage).1 ≡ some f
      → fresh_fork c h supported next_id snapshot coverage ≡ f
  unfolding from_captured
  fresh_of_captured next_id snapshot coverage f e = ground arith

  fresh_fork-IsSound :
      ReopensSnapshots c h supported
      → (id : ℕ) (snapshot : LedgerSnapshot) (coverage : Coverage) (m : LedgerMap)
      → snapshot_map c snapshot ≡ ok m
      → Covers coverage m
      → IsSound c h supported (fresh_fork c h supported id snapshot coverage)
  unfolding fresh_fork ledger_snapshot
  fresh_fork-IsSound law id snapshot coverage m p v = (
    m,
    same_entries c h supported _ snapshot (
          reopened_entries c h supported law snapshot coverage [] [] false
            snapshot.protocol_version)
        ∙ p,
    v,
  )

  -- A fork made of a captured snapshot and coverage of it is sound.
  pub from_captured-IsSound :
      ReopensSnapshots c h supported
      → (next_id : ℕ) (snapshot : LedgerSnapshot) (coverage : Coverage) (m : LedgerMap)
        (f : StrictFork Env)
      → snapshot_map c snapshot ≡ ok m
      → Covers coverage m
      → (from_captured c h supported next_id snapshot coverage).1 ≡ some f
      → IsSound c h supported f
  from_captured-IsSound law next_id snapshot coverage m f p v e =
      subst (IsSound c h supported) (fresh_of_captured next_id snapshot coverage f e)
        (fresh_fork-IsSound law next_id snapshot coverage m p v)
