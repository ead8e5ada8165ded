-- ===== src/Strict/Candidate/Atomic.antt =====
-- A failed registration changes nothing, and what a successful one establishes.
use kanatoko.Prelude.{◌≡◌, inl, inr, List, true, ℕ, ok, err, Result-cases, arith}
use kanatoko.Bytes.{Bytes}
use kanatoko.Xdr.{Codec, Hash, ScAddress, ScVal}
use kanatoko.Ledger.{StrictForkError, state_diff}
use kanatoko.Ledger.Promote.{update_coverage_total}
use kanatoko.Host.{Host}
use kanatoko.Host.Calls.{network_ledger_snapshot}
use kanatoko.Strict.{StrictFork, ledger_snapshot, is_contract}
use kanatoko.Strict.Candidate.{
  Prepared, prepare, check_candidate, install, register_candidate, insert_address, insert_hash,
}

module _ {Env : Type 0} (c : Codec) (h : Host Env) (supported : ℕ) where
  -- What holds once the preparation has succeeded.
  pub record Facts (f : StrictFork Env) (address : ScAddress) (wasm : Bytes) (expected : Hash)
      (p : Prepared Env) : Type 0 where
    pub changes :
        state_diff c
          (ledger_snapshot c h supported f)
          (network_ledger_snapshot h supported p.child f.network_protocol_version)
        ≡ ok p.registration.state_changes
    pub contract : is_contract address ≡ true
    pub hash : c.sha256 wasm ≡ expected
    pub target : p.registration.address ≡ address
    pub digest : p.registration.wasm_sha256 ≡ expected
    pub contracts : p.contracts ≡ insert_address address f.local_contracts
    pub hashes : p.hashes ≡ insert_hash expected f.local_code_hashes

  pub prepare-Facts :
      (f : StrictFork Env) (address : ScAddress) (wasm : Bytes) (expected : Hash)
      (args : List ScVal) (p : Prepared Env)
      → prepare c h supported f address wasm expected args ≡ ok p
      → Facts f address wasm expected p
  unfolding prepare check_candidate
  prepare-Facts f address wasm expected args p e = ground arith

  pub install_ok :
      (f : StrictFork Env) (p : Prepared Env)
      → state_diff c
          (ledger_snapshot c h supported f)
          (network_ledger_snapshot h supported p.child f.network_protocol_version)
        ≡ ok p.registration.state_changes
      → (install c h supported f p).1 ≡ ok p.registration
  unfolding install
  install_ok f p d =
      let (to, u) =
        update_coverage_total c (ledger_snapshot c h supported f)
          (network_ledger_snapshot h supported p.child f.network_protocol_version)
          p.registration.state_changes f.coverage d in
      rw (u, install)

  -- A registration that fails leaves the fork as it was, although the coverage is updated in place.
  pub register_candidate_error :
      (f : StrictFork Env) (address : ScAddress) (wasm : Bytes) (expected : Hash)
      (args : List ScVal) (e : StrictForkError)
      → (register_candidate c h supported f address wasm expected args).1 ≡ err e
      → (register_candidate c h supported f address wasm expected args).0 ≡ f
  unfolding register_candidate
  register_candidate_error f address wasm expected args e q =
      elim (Result-cases (prepare c h supported f address wasm expected args)) [
        | inl (p, g) ↦ absurd (
            ground (arith, install_ok f p (prepare-Facts f address wasm expected args p g).changes))
        | inr (x, g) ↦ rw (g, register_candidate)
      ]
