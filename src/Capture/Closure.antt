-- ===== src/Capture/Closure.antt =====
-- src/capture.rs: the executables that contract instances refer to, directly or by an executable
-- reference, and the check that a coverage holds them.
pub mod Holds
use kanatoko.Prelude.{
  List, [], ◌∷◌, ◌++◌, Option, none, some, Bool, true, false, Result, ok, err, ◌>>=◌, ◌>>◌, guard,
  length, ◌==◌, if◌then◌else◌,
}
use kanatoko.Bytes.{Bytes}
use kanatoko.BTree.{get, insert}
use kanatoko.Xdr.{
  Codec, Hash, ScAddress, ScVal, Durability, LedgerKey, LedgerEntryData, ContractExecutable,
}
use kanatoko.Ledger.{Coverage, LookupState, present, absent, contract_instance_key}
use kanatoko.Capture.{
  CaptureError, missing_executable_reference, malformed_executable_reference,
  missing_referenced_code, internal_invariant, capture_bundle_integrity, capture_id, KeyMap,
}

abbrev pub executable_ref_key : ScAddress → Bytes → LedgerKey
executable_ref_key owner tag = LedgerKey.contract_data (record {
  contract = owner;
  key = ScVal.executable_tag tag;
  durability = Durability.persistent;
})

-- The executable of an entry that is a contract instance.
executable_of_val : ScVal → Option ContractExecutable
executable_of_val (ScVal.contract_instance executable storage) = some executable
executable_of_val _ = none

unfoldable pub executable_of : LookupState → Option ContractExecutable
unfolding executable_of_val
executable_of absent = none
executable_of (present entry live_until) = elim (entry.entry_data) [
  | LedgerEntryData.contract_data d ↦ executable_of_val d.val
  | _ ↦ none
]

-- The code key that an executable reference holds.
code_key_of_val : ScVal → Result CaptureError LedgerKey
code_key_of_val (ScVal.bytes b) =
    if length b == 32 then ok (LedgerKey.contract_code b) else err malformed_executable_reference
code_key_of_val _ = err malformed_executable_reference

unfoldable pub code_key_of : LookupState → Result CaptureError LedgerKey
unfolding code_key_of_val
code_key_of absent = err missing_executable_reference
code_key_of (present entry live_until) = elim (entry.entry_data) [
  | LedgerEntryData.contract_data d ↦ code_key_of_val d.val
  | _ ↦ err malformed_executable_reference
]

is_present_state : Option LookupState → Bool
is_present_state (some (present entry live_until)) = true
is_present_state _ = false

module _ (c : Codec) where
  unfoldable pub external_ref_code_key :
      Coverage → ScAddress → Bytes → Result CaptureError (Option LedgerKey)
  unfolding capture_id get code_key_of
  external_ref_code_key coverage owner tag = do
    id ← capture_id c (executable_ref_key owner tag)
    elim (get id coverage) [
      | none ↦ ok none
      | some state ↦ code_key_of state >>= λ key. ok (some key)
    ]

  unfoldable pub ensure_code_present : Coverage → Hash → Result CaptureError (Unit {0})
  unfolding capture_id get is_present_state
  ensure_code_present coverage hash = do
    id ← capture_id c (LedgerKey.contract_code hash)
    guard (is_present_state (get id coverage)) missing_referenced_code

  ensure_code_key : Coverage → Option LedgerKey → Result CaptureError (Unit {0})
  unfolding ensure_code_present
  ensure_code_key coverage none = err missing_executable_reference
  ensure_code_key coverage (some (LedgerKey.contract_code hash)) = ensure_code_present coverage hash
  ensure_code_key coverage (some _) = err internal_invariant

  -- The match on an executable in `ensure_executable_closure_present`.
  unfoldable pub ensure_executable :
      Coverage → Option ContractExecutable → Result CaptureError (Unit {0})
  unfolding ensure_code_present ensure_code_key external_ref_code_key
  ensure_executable coverage none = ok tt
  ensure_executable coverage (some (ContractExecutable.wasm hash)) =
      ensure_code_present coverage hash
  ensure_executable coverage (some (ContractExecutable.external_ref owner tag)) =
      external_ref_code_key coverage owner tag >>= λ key. ensure_code_key coverage key
  ensure_executable coverage (some ContractExecutable.stellar_asset) = ok tt

  unfoldable pub ensure_executables : Coverage → Coverage → Result CaptureError (Unit {0})
  unfolding ensure_executable executable_of
  ensure_executables coverage [] = ok tt
  ensure_executables coverage ((id, state) ∷ rest) = do
    ensure_executable coverage (executable_of state)
    ensure_executables coverage rest

  unfoldable pub ensure_executable_closure_present : Coverage → Result CaptureError (Unit {0})
  unfolding ensure_executables
  ensure_executable_closure_present coverage = ensure_executables coverage coverage

  abbrev optional_key : Option LedgerKey → List LedgerKey
  optional_key none = []
  optional_key (some key) = key ∷ []

  -- The keys that an executable requires.
  unfoldable pub required_by :
      Coverage → Option ContractExecutable → Result CaptureError (List LedgerKey)
  unfolding external_ref_code_key
  required_by coverage none = ok []
  required_by coverage (some (ContractExecutable.wasm hash)) =
      ok (LedgerKey.contract_code hash ∷ [])
  required_by coverage (some (ContractExecutable.external_ref owner tag)) =
      external_ref_code_key coverage owner tag >>= λ key.
      ok (executable_ref_key owner tag ∷ optional_key key)
  required_by coverage (some ContractExecutable.stellar_asset) = ok []

  -- The first loop of a round of `expand_code_closure`.
  unfoldable pub required_keys : Coverage → Coverage → Result CaptureError (List LedgerKey)
  unfolding required_by executable_of
  required_keys coverage [] = ok []
  required_keys coverage ((id, state) ∷ rest) = do
    here ← required_by coverage (executable_of state)
    more ← required_keys coverage rest
    ok (here ++ more)

  -- The second loop: the keys with the new ones inserted, and whether one was new.
  unfoldable pub add_required : KeyMap → Bool → List LedgerKey → Result CaptureError (KeyMap × Bool)
  unfolding capture_id get insert
  add_required keys added [] = ok (keys, added)
  add_required keys added (key ∷ required) = do
    id ← capture_id c key
    add_required (insert id key keys) (elim (get id keys) [ none ↦ true | some k ↦ added ]) required

  instance_state : Option LookupState → Bool
  unfolding executable_of
  instance_state none = false
  instance_state (some state) = elim (executable_of state) [ none ↦ false | some e ↦ true ]

  unfoldable pub ensure_legacy_root_present : ScAddress → Coverage → Result CaptureError (Unit {0})
  unfolding capture_id get instance_state
  ensure_legacy_root_present root coverage = do
    id ← capture_id c (contract_instance_key root)
    guard (instance_state (get id coverage)) capture_bundle_integrity
