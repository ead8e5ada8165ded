-- ===== src/Capture/Closure/Holds.antt =====
-- What `ensure_executable_closure_present` of src/capture.rs ensures, said of the coverage's entries.
use kanatoko.Prelude.{
  ◌≡◌, inl, inr, refl, ◌∙◌, ap, subst, ℕ, [], ◌∷◌, Option, none, some, ok, >>=-eq-ok, In, length,
  arith, Result-cases,
}
use kanatoko.Bytes.{Bytes}
use kanatoko.BTree.{get}
use kanatoko.Xdr.{
  Codec, Hash, ScAddress, ScVal, DataEntry, LedgerKey, LedgerEntry, LedgerEntryData,
  ContractExecutable,
}
use kanatoko.Ledger.{Coverage, LookupState, present, absent}
use kanatoko.Capture.{capture_id}
use kanatoko.Capture.Closure.{
  executable_ref_key, executable_of, code_key_of, external_ref_code_key, ensure_code_present,
  ensure_executable, ensure_executables, ensure_executable_closure_present,
}

module _ (c : Codec) (coverage : Coverage) where
  -- The coverage has an entry under the key.
  abbrev pub Holds : LedgerKey → LedgerEntry → Type 0
  Holds key entry =
      (id : Bytes) × (live_until : Option ℕ) × (c.key_xdr key ≡ some id)
      × (get id coverage ≡ some (present entry live_until))

  abbrev pub HoldsCode : Hash → Type 0
  HoldsCode hash = (entry : LedgerEntry) × Holds (LedgerKey.contract_code hash) entry

  -- The code of an executable; that of a reference is told by the entry that it refers to.
  pub HoldsExecutable : ContractExecutable → Type 0
  HoldsExecutable (ContractExecutable.wasm hash) = HoldsCode hash
  HoldsExecutable ContractExecutable.stellar_asset = Unit {0}
  HoldsExecutable (ContractExecutable.external_ref owner tag) =
      (entry : LedgerEntry) × (d : DataEntry) × (hash : Hash) × Holds (executable_ref_key owner tag)
        entry
      × (entry.entry_data ≡ LedgerEntryData.contract_data d)
      × (d.val ≡ ScVal.bytes hash)
      × (length hash ≡ 32)
      × HoldsCode hash

  -- The entry is a contract instance of this executable.
  abbrev pub IsInstance : LedgerEntry → ContractExecutable → Type 0
  IsInstance entry executable =
      (d : DataEntry) × (storage : Bytes) × (entry.entry_data ≡ LedgerEntryData.contract_data d)
      × (d.val ≡ ScVal.contract_instance executable storage)

  -- The executables of all contract instances of the states are held.
  abbrev pub HoldsAll : Coverage → Type 0
  HoldsAll states =
      (id : Bytes) (entry : LedgerEntry) (live_until : Option ℕ) (executable : ContractExecutable)
      → In (id, present entry live_until) states
      → IsInstance entry executable
      → HoldsExecutable executable

  encoded_as : (key : LedgerKey) (id : Bytes) → capture_id c key ≡ ok id → c.key_xdr key ≡ some id
  unfolding capture_id
  encoded_as key id h = ground (arith, h)

  found :
      (hash : Hash) (id : Bytes) (o : Option LookupState)
      → c.key_xdr (LedgerKey.contract_code hash) ≡ some id
      → get id coverage ≡ o
      → ensure_code_present c coverage hash ≡ ok tt
      → HoldsCode hash
  unfolding ensure_code_present capture_id
  found hash id none k e h = absurd (ground (arith, k, e, h))
  found hash id (some absent) k e h = absurd (ground (arith, k, e, h))
  found hash id (some (present entry live_until)) k e h = (entry, (id, live_until, k, e))

  code-HoldsCode : (hash : Hash) → ensure_code_present c coverage hash ≡ ok tt → HoldsCode hash
  unfolding ensure_code_present
  code-HoldsCode hash h =
      let (id, a, b) = >>=-eq-ok (capture_id c (LedgerKey.contract_code hash)) _ h in
      found hash id (get id coverage) (encoded_as (LedgerKey.contract_code hash) id a) refl h

  -- The entry that tells a reference's code.
  tells :
      (entry : LedgerEntry) (live_until : Option ℕ) (key : LedgerKey)
      → code_key_of (present entry live_until) ≡ ok key
      → (d : DataEntry) × (hash : Hash) × (entry.entry_data ≡ LedgerEntryData.contract_data d)
        × (d.val ≡ ScVal.bytes hash)
        × (length hash ≡ 32)
        × (key ≡ LedgerKey.contract_code hash)
  unfolding code_key_of
  tells entry live_until key h = by_data entry.entry_data refl
    where
      by_val :
          (d : DataEntry) (v : ScVal)
          → entry.entry_data ≡ LedgerEntryData.contract_data d
          → d.val ≡ v
          → (d : DataEntry) × (hash : Hash) × (entry.entry_data ≡ LedgerEntryData.contract_data d)
            × (d.val ≡ ScVal.bytes hash)
            × (length hash ≡ 32)
            × (key ≡ LedgerKey.contract_code hash)
      by_val d (ScVal.bytes b) p q = (d, b, p, q, ground (arith, h, p, q), ground (arith, h, p, q))
      by_val d (ScVal.ledger_key_nonce n) p q = absurd (ground (arith, h, p, q))
      by_val d ScVal.ledger_key_contract_instance p q = absurd (ground (arith, h, p, q))
      by_val d (ScVal.executable_tag t) p q = absurd (ground (arith, h, p, q))
      by_val d (ScVal.contract_instance a s) p q = absurd (ground (arith, h, p, q))
      by_val d (ScVal.other b) p q = absurd (ground (arith, h, p, q))

      by_data :
          (x : LedgerEntryData)
          → entry.entry_data ≡ x
          → (d : DataEntry) × (hash : Hash) × (entry.entry_data ≡ LedgerEntryData.contract_data d)
            × (d.val ≡ ScVal.bytes hash)
            × (length hash ≡ 32)
            × (key ≡ LedgerKey.contract_code hash)
      by_data (LedgerEntryData.contract_data d) p = by_val d d.val p refl
      by_data (LedgerEntryData.contract_code a b e) p = absurd (ground (arith, h, p))
      by_data (LedgerEntryData.account a f) p = absurd (ground (arith, h, p))
      by_data (LedgerEntryData.trustline a b f) p = absurd (ground (arith, h, p))
      by_data (LedgerEntryData.state_archival a) p = absurd (ground (arith, h, p))
      by_data (LedgerEntryData.other b) p = absurd (ground (arith, h, p))

  reference-HoldsExecutable :
      (owner : ScAddress) (tag : Bytes) (id : Bytes) (o : Option LookupState)
      → c.key_xdr (executable_ref_key owner tag) ≡ some id
      → get id coverage ≡ o
      → ensure_executable c coverage (some (ContractExecutable.external_ref owner tag)) ≡ ok tt
      → HoldsExecutable (ContractExecutable.external_ref owner tag)
  unfolding ensure_executable external_ref_code_key capture_id HoldsExecutable
  reference-HoldsExecutable owner tag id none k e h = absurd (ground (arith, k, e, h))
  reference-HoldsExecutable owner tag id (some absent) k e h = absurd (ground (arith, k, e, h))
  reference-HoldsExecutable owner tag id (some (present entry live_until)) k e h =
      elim (Result-cases (code_key_of (present entry live_until))) [
        | inr (x, q) ↦ absurd (ground (arith, k, e, h, q))
        | inl (key, q) ↦
            let (d, hash, a, b, l, same) = tells entry live_until key q in
            (
              entry,
              d,
              hash,
              (id, live_until, k, e),
              a,
              b,
              l,
              code-HoldsCode hash (ground (arith, k, e, h, q, same)),
            )
      ]

  executable-HoldsExecutable :
      (executable : ContractExecutable)
      → ensure_executable c coverage (some executable) ≡ ok tt
      → HoldsExecutable executable
  unfolding ensure_executable external_ref_code_key HoldsExecutable
  executable-HoldsExecutable (ContractExecutable.wasm hash) h = code-HoldsCode hash h
  executable-HoldsExecutable ContractExecutable.stellar_asset h = tt
  executable-HoldsExecutable (ContractExecutable.external_ref owner tag) h =
      let (key, a, b) = >>=-eq-ok (external_ref_code_key c coverage owner tag) _ h in
      let (id, d, e) = >>=-eq-ok (capture_id c (executable_ref_key owner tag)) _ a in
      reference-HoldsExecutable owner tag id (get id coverage)
        (encoded_as (executable_ref_key owner tag) id d) refl h

  instance_executable :
      (entry : LedgerEntry) (live_until : Option ℕ) (executable : ContractExecutable)
      → IsInstance entry executable
      → executable_of (present entry live_until) ≡ some executable
  unfolding executable_of
  instance_executable entry live_until executable (d, storage, p, q) = rw p (rw q refl)

  pub executables-HoldsAll :
      (states : Coverage) → ensure_executables c coverage states ≡ ok tt → HoldsAll states
  unfolding ensure_executables
  executables-HoldsAll [] h id entry live_until executable m i = absurd m
  executables-HoldsAll ((j, state) ∷ rest) h id entry live_until executable (inl e) i =
      let here : ensure_executable c coverage (executable_of state) ≡ ok tt = ground (arith, h) in
      let same : executable_of state ≡ some executable =
        ap (λ p. executable_of p.1) e ∙ instance_executable entry live_until executable i in
      executable-HoldsExecutable executable
        (subst (λ o. ensure_executable c coverage o ≡ ok tt) same here)
  executables-HoldsAll ((j, state) ∷ rest) h id entry live_until executable (inr m) i =
      executables-HoldsAll rest (ground (arith, h)) id entry live_until executable m i

-- The executables that the coverage's contract instances refer to are in it, directly or by an
-- executable reference.
abbrev pub IsExecutableClosed : Codec → Coverage → Type 0
IsExecutableClosed c coverage = HoldsAll c coverage coverage

pub closure-IsExecutableClosed :
    (c : Codec) (coverage : Coverage)
    → ensure_executable_closure_present c coverage ≡ ok tt
    → IsExecutableClosed c coverage
unfolding ensure_executable_closure_present
closure-IsExecutableClosed c coverage h = executables-HoldsAll c coverage coverage h
