-- ===== src/Auto/Scenario/Override.antt =====
-- `ScenarioFork::replace_wasm` of src/auto.rs changes the executable of an instance, and nothing else.
use kanatoko.Prelude.{
  ℕ, ◌≡◌, Option-cases, inl, inr, refl, ◌∙◌, ap, ◌∷◌, Option, none, some, true, ok, arith,
}
use kanatoko.Bytes.{Bytes}
use kanatoko.Xdr.{
  Codec, Hash, ScAddress, ScVal, ContractExecutable, LedgerKey, LedgerEntry, LedgerEntryData,
  DataEntry,
}
use kanatoko.Ledger.{contract_instance_key}
use kanatoko.Strict.{is_contract}
use kanatoko.Capture.{LocalLedger}
use kanatoko.Auto.Scenario.{
  ScenarioHost, ScenarioFork, override_entry, override_val, override_executable, replace_wasm,
}
use kanatoko.Auto.Scenario.Funding.{Stored, IsStorage}

-- The entry of an instance whose executable is replaced by the code; only an asset contract's is not.
abbrev pub IsOverride : Hash → LedgerEntry → LedgerEntry → Type 0
IsOverride code old new =
    (d : DataEntry) × (executable : ContractExecutable) × (storage : Bytes) × (old ≡ record old {
      entry_data =
          LedgerEntryData.contract_data
            (record d { val = ScVal.contract_instance executable storage });
    })
    × (¬ (executable ≡ ContractExecutable.stellar_asset))
    × (new ≡ record old {
      entry_data =
          LedgerEntryData.contract_data
            (record d { val = ScVal.contract_instance (ContractExecutable.wasm code) storage });
    })

override_executable_lem :
    (code : Hash) (e f : ContractExecutable)
    → override_executable code e ≡ some f
    → (¬ (e ≡ ContractExecutable.stellar_asset)) × (f ≡ ContractExecutable.wasm code)
unfolding override_executable
override_executable_lem code (ContractExecutable.wasm h) f e = ((λ q. cc), cc)
override_executable_lem code (ContractExecutable.external_ref a t) f e = ((λ q. cc), cc)
override_executable_lem code ContractExecutable.stellar_asset f e = cc

-- The entry of a contract's data with this value.
with_val : LedgerEntry → DataEntry → ScVal → LedgerEntry
with_val old d val = record old {
  entry_data = LedgerEntryData.contract_data (record d { val = val });
}

replaced :
    (code : Hash) (old new : LedgerEntry) (d : DataEntry) (executable : ContractExecutable)
    (storage : Bytes) (o : Option ContractExecutable)
    → override_executable code executable ≡ o
    → ◌≡◌ {A = Option LedgerEntry}
        (override_entry code (with_val old d (ScVal.contract_instance executable storage)))
        (some new)
    → IsOverride code (with_val old d (ScVal.contract_instance executable storage)) new
unfolding override_entry override_val with_val
replaced code old new d executable storage none e h = ground (arith, e, h)
replaced code old new d executable storage (some f) e h =
    let (n, q) = override_executable_lem code executable f e in
    (d, executable, storage, refl, n, ground (arith, e, h, q))

with_val-IsOverride :
    (code : Hash) (old new : LedgerEntry) (d : DataEntry) (val : ScVal)
    → override_entry code (with_val old d val) ≡ some new
    → IsOverride code (with_val old d val) new
unfolding override_entry override_val with_val
with_val-IsOverride code old new d (ScVal.contract_instance executable storage) h =
    replaced code old new d executable storage _ refl h
with_val-IsOverride code old new d (ScVal.ledger_key_nonce n) h = cc
with_val-IsOverride code old new d ScVal.ledger_key_contract_instance h = cc
with_val-IsOverride code old new d (ScVal.executable_tag t) h = cc
with_val-IsOverride code old new d (ScVal.bytes b) h = cc
with_val-IsOverride code old new d (ScVal.other b) h = cc

override_entry-IsOverride :
    (code : Hash) (last : ℕ) (ext : Bytes) (held : LedgerEntryData) (new : LedgerEntry)
    → override_entry code (record { last_modified_ledger_seq = last; entry_data = held; ext = ext })
      ≡ some new
    → IsOverride code (record { last_modified_ledger_seq = last; entry_data = held; ext = ext }) new
unfolding override_entry with_val
override_entry-IsOverride code last ext (LedgerEntryData.contract_data d) new h =
    with_val-IsOverride code
      (record {
        last_modified_ledger_seq = last;
        entry_data = LedgerEntryData.contract_data d;
        ext = ext;
      })
      new d d.val h
override_entry-IsOverride code last ext (LedgerEntryData.contract_code a b e) new h = cc
override_entry-IsOverride code last ext (LedgerEntryData.account a f) new h = cc
override_entry-IsOverride code last ext (LedgerEntryData.trustline a b f) new h = cc
override_entry-IsOverride code last ext (LedgerEntryData.state_archival a) new h = cc
override_entry-IsOverride code last ext (LedgerEntryData.other b) new h = cc

module _ {Env : Type 0} (c : Codec) (h : ScenarioHost Env) (view : Env → LedgerKey → Stored)
    (law : IsStorage h view) where
  -- What a successful override has done.
  abbrev pub IsReplaced : ScAddress → Bytes → ScenarioFork Env → ScenarioFork Env → Hash → Type 0
  IsReplaced address wasm s v code =
      (old : LedgerEntry) × (new : LedgerEntry) × (live_until : Option ℕ) × ((h.get_ledger_entry
          s.local_ledger (contract_instance_key address) s.env).1
        ≡ some (some (old, live_until)))
      × IsOverride (c.sha256 wasm) old new
      × (view v.env (contract_instance_key address) ≡ some (new, live_until))
      × (code ≡ c.sha256 wasm)
      × (v.local_ledger
          ≡ record s.local_ledger { code_hashes = c.sha256 wasm ∷ s.local_ledger.code_hashes })
      × (is_contract address ≡ true)

  -- The storage at the end of an override.
  stored :
      (address : ScAddress) (wasm : Bytes) (s v : ScenarioFork Env) (code : Hash)
      (old new : LedgerEntry) (live_until : Option ℕ)
      → replace_wasm c h address wasm s ≡ (v, ok code)
      → (h.get_ledger_entry s.local_ledger (contract_instance_key address) s.env).1
        ≡ some (some (old, live_until))
      → override_entry (c.sha256 wasm) old ≡ some new
      → view v.env (contract_instance_key address) ≡ some (new, live_until)
  unfolding replace_wasm
  stored address wasm s v code old new live_until e p r =
      let marked : LocalLedger = record s.local_ledger {
        code_hashes = c.sha256 wasm ∷ s.local_ledger.code_hashes;
      } in
      let env =
        (h.upload_contract_wasm marked wasm
          (h.get_ledger_entry s.local_ledger (contract_instance_key address) s.env).0).0 in
      let last : v.env ≡ (h.add_ledger_entry (contract_instance_key address) new live_until env).0 =
        ground (arith, e, p, r) in
      ap (λ z. view z (contract_instance_key address)) last
      ∙ (law.added (contract_instance_key address) new live_until env).1

  -- If the environment's storage holds what is added to it, an override that succeeds was of a
  -- contract's instance that was found and whose executable was not the asset contract; the storage
  -- then holds that instance with its live-until ledger and nothing changed but its executable, which
  -- is the code's hash; and this hash is returned, and marked as local.
  pub replace_wasm-IsReplaced :
      (address : ScAddress) (wasm : Bytes) (s v : ScenarioFork Env) (code : Hash)
      → replace_wasm c h address wasm s ≡ (v, ok code)
      → IsReplaced address wasm s v code
  unfolding replace_wasm
  replace_wasm-IsReplaced address wasm s v code e =
      elim (Option-cases
        (h.get_ledger_entry s.local_ledger (contract_instance_key address) s.env).1) [
          | inl n ↦ absurd (ground (arith, e, n))
          | inr (o, p) ↦ elim (Option-cases o) [
            | inl n ↦ absurd (ground (arith, e, p, n))
            | inr ((old, live_until), q) ↦
                elim (Option-cases (override_entry (c.sha256 wasm) old)) [
                  | inl n ↦ absurd (ground (arith, e, p, q, n))
                  | inr (new, r) ↦ (
                    old,
                    new,
                    live_until,
                    p ∙ ap some q,
                    override_entry-IsOverride (c.sha256 wasm) old.last_modified_ledger_seq old.ext
                        old.entry_data new r,
                    stored address wasm s v code old new live_until e (p ∙ ap some q) r,
                    ground (arith, e, p, q, r),
                    ground (arith, e, p, q, r),
                    ground (arith, e, p, q, r),
                  )
                ]
          ]
        ]
