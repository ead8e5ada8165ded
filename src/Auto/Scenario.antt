-- ===== src/Auto/Scenario.antt =====
-- `ScenarioFork` of src/auto.rs: the scenario's addresses, local accounts, and local contracts. A
-- method that panics has left behind what it did before, so it is a step on the fork's state.
pub mod Funding
pub mod Accounts
pub mod Override
use kanatoko.Prelude.{
  ℕ, zero, suc, ◌+◌, ◌*◌, ◌^◌, ℤ, pos, negsuc, checked_i64, checked_add, List, [], ◌∷◌, ◌++◌,
  Option, none, some, Bool, true, false, not, Result, ok, err, leb, holds, if◌then◌else◌,
}
use kanatoko.Bytes.{Bytes, Bytes-discrete}
use kanatoko.Bytes.Encode.{be_bytes, field}
use kanatoko.BTree.{insert_key}
use kanatoko.Xdr.{
  Codec, Hash, ScAddress, ScVal, ContractExecutable, LedgerKey, LedgerEntry, LedgerEntryData,
  AccountFields, DataEntry,
}
use kanatoko.Ledger.{contract_instance_key, has_hash}
use kanatoko.Host.{LedgerInfo, Answer}
use kanatoko.Strict.{is_contract}
use kanatoko.Capture.{LocalLedger}
use kanatoko.Capture.Rpc.{Io, resume, returning, ◌>>=◌, ◌>>◌}

-- The calls on the scenario's environment. Its snapshot source reads the local ledger, which is
-- passed to the calls that look an entry up; `none` is an error, or a panic of the call.
pub record ScenarioHost (Env : Type 0) : Type 0 where
  pub ledger_info : Env → LedgerInfo
  pub get_ledger_entry : LocalLedger → LedgerKey → Env → Env × Answer
  pub add_ledger_entry : LedgerKey → LedgerEntry → Option ℕ → Env → Env × Bool
  pub address_of_string : Env → Bytes → Option ScAddress
  -- the identifier of a multiplexed address, if it has one
  pub muxed_of_string : Env → Bytes → Option (Option ℕ)
  pub generate_address : Env → Env × ScAddress
  pub register_at : LocalLedger → ScAddress → Bytes → List Bytes → Env → Env × Option ScAddress
  pub upload_contract_wasm : LocalLedger → Bytes → Env → Env × Option Hash

pub record ScenarioFork (Env : Type 0) : Type 0 where
  pub env : Env
  pub local_accounts : List Bytes
  pub local_ledger : LocalLedger
  pub network_protocol_version : ℕ

pub data Panic : Type 0 where
  panicked : Panic

abbrev pub Step : Type 0 → Type 0 → Type 0
Step Env A = Io (ScenarioFork Env) Panic A

-- b"kanatoko.local-account.v2"
abbrev pub local_account_domain : Bytes
local_account_domain =
    b'k' ∷ b'a' ∷ b'n' ∷ b'a' ∷ b't' ∷ b'o' ∷ b'k' ∷ b'o' ∷ b'.' ∷ b'l' ∷ b'o' ∷ b'c' ∷ b'a' ∷ b'l'
    ∷ b'-' ∷ b'a' ∷ b'c' ∷ b'c' ∷ b'o' ∷ b'u' ∷ b'n' ∷ b't' ∷ b'.' ∷ b'v' ∷ b'2' ∷ []

-- What `local_account` feeds the hash.
unfoldable pub local_account_preimage : Hash → Bytes → Bytes
unfolding be_bytes
local_account_preimage network_id label = local_account_domain ++ (network_id ++ field label)

abbrev pub is_none {ℓ} : {A : Type ℓ} → Option A → Bool
is_none none = true
is_none (some a) = false

-- `amount > 0`
unfoldable pub positive : ℤ → Option ℕ
positive (pos (suc n)) = some (suc n)
positive (pos zero) = none
positive (negsuc n) = none

unfoldable pub account_id_of : ScAddress → Option Bytes
account_id_of (ScAddress.account id) = some id
account_id_of (ScAddress.contract h) = none
account_id_of (ScAddress.other b) = none

-- The account that a first funding makes.
unfoldable pub new_account : ℕ → ℤ → AccountFields
new_account amount sequence = record {
  balance = pos amount;
  seq_num = sequence;
  num_sub_entries = 0;
  inflation_dest = none;
  flags = 0;
  home_domain = [];
  thresholds = 1 ∷ 0 ∷ 0 ∷ 0 ∷ [];
  signers = [];
  ext = [];
}

abbrev pub account_entry : ℕ → Bytes → AccountFields → Bytes → LedgerEntry
account_entry ledger_sequence id fields ext = record {
  last_modified_ledger_seq = ledger_sequence;
  entry_data = LedgerEntryData.account id fields;
  ext = ext;
}

-- `none` is a failed assertion.
unfoldable pub first_funding : LedgerInfo → Bytes → ℕ → Option LedgerEntry
unfolding new_account
first_funding info id amount = elim (checked_i64 (info.base_reserve * 2)) [
  | none ↦ none
  | some minimum ↦
      if leb (info.base_reserve * 2) amount
      then elim (checked_i64 (info.sequence_number * 2 ^ 32)) [
        | none ↦ none
        | some sequence ↦
            some (account_entry info.sequence_number id (new_account amount sequence) [])
      ]
      else none
]

-- A further funding of an account that is there.
unfoldable pub more_funding : LedgerInfo → Bytes → ℕ → LedgerEntry → Option ℕ → Option LedgerEntry
unfolding Bytes-discrete checked_add
more_funding info id amount entry (some live_until) = none
more_funding info id amount entry none = elim (entry.entry_data) [
  | LedgerEntryData.account own fields ↦
      if holds (Bytes-discrete own id)
      then elim (checked_add fields.balance amount) [
        | none ↦ none
        | some balance ↦
            some (
              account_entry info.sequence_number own (record fields { balance = balance })
                entry.ext)
      ]
      else none
  | _ ↦ none
]

unfoldable pub funded_entry :
    LedgerInfo → Bytes → ℕ → Option (LedgerEntry × Option ℕ) → Option LedgerEntry
unfolding first_funding more_funding
funded_entry info id amount none = first_funding info id amount
funded_entry info id amount (some (entry, live_until)) =
    more_funding info id amount entry live_until

-- The instance's entry with its executable replaced by the code; none for an asset contract.
unfoldable pub override_executable : Hash → ContractExecutable → Option ContractExecutable
override_executable code ContractExecutable.stellar_asset = none
override_executable code (ContractExecutable.wasm h) = some (ContractExecutable.wasm code)
override_executable code (ContractExecutable.external_ref owner tag) =
    some (ContractExecutable.wasm code)

unfoldable pub override_val : Hash → ScVal → Option ScVal
unfolding override_executable
override_val code (ScVal.contract_instance executable storage) =
    elim (override_executable code executable) [
      | none ↦ none
      | some replaced ↦ some (ScVal.contract_instance replaced storage)
    ]
override_val code _ = none

unfoldable pub override_entry : Hash → LedgerEntry → Option LedgerEntry
unfolding override_val
override_entry code entry = elim (entry.entry_data) [
  | LedgerEntryData.contract_data d ↦ elim (override_val code d.val) [
    | none ↦ none
    | some val ↦
        some (record entry { entry_data = LedgerEntryData.contract_data (record d { val = val }) })
  ]
  | _ ↦ none
]

module _ {Env : Type 0} where
  abbrev pub expect : {A : Type 0} → Option A → Step Env A
  expect none s = (s, err panicked)
  expect (some a) s = (s, ok a)

  abbrev pub asserting : Bool → Step Env (Unit {0})
  asserting false s = (s, err panicked)
  asserting true s = (s, ok tt)

  abbrev pub reading : {A : Type 0} → (ScenarioFork Env → A) → Step Env A
  reading f s = (s, ok (f s))

  abbrev pub changing : (ScenarioFork Env → ScenarioFork Env) → Step Env (Unit {0})
  changing f s = (f s, ok tt)

  -- A call on the environment.
  abbrev pub calling : {A : Type 0} → (LocalLedger → Env → Env × A) → Step Env A
  calling f s = let (env, a) = f s.local_ledger s.env in (record s { env = env }, ok a)

  abbrev pub mark_address : ScAddress → Step Env (Unit {0})
  mark_address a = changing (λ s. record s {
    local_ledger = record s.local_ledger { addresses = a ∷ s.local_ledger.addresses };
  })

  abbrev pub mark_code : Hash → Step Env (Unit {0})
  mark_code h = changing (λ s. record s {
    local_ledger = record s.local_ledger { code_hashes = h ∷ s.local_ledger.code_hashes };
  })

module _ {Env : Type 0} (c : Codec) (h : ScenarioHost Env) where
  abbrev pub get_entry : LedgerKey → Step Env (Option (LedgerEntry × Option ℕ))
  get_entry key = calling (λ l. h.get_ledger_entry l key) >>= expect

  abbrev pub add_entry : LedgerKey → LedgerEntry → Option ℕ → Step Env (Unit {0})
  add_entry key entry live_until =
      calling (λ l. h.add_ledger_entry key entry live_until) >>= asserting

  unfoldable pub contract : Bytes → Step Env ScAddress
  unfolding is_contract
  contract text = do
    found ← reading (λ s. h.address_of_string s.env text)
    address ← expect found
    asserting (is_contract address)
    returning address

  unfoldable pub account : Bytes → Step Env ScAddress
  unfolding account_id_of
  account text = do
    found ← reading (λ s. h.address_of_string s.env text)
    address ← expect found
    id ← expect (account_id_of address)
    returning address

  unfoldable pub muxed_account : Bytes → Step Env ℕ
  muxed_account text = do
    found ← reading (λ s. h.muxed_of_string s.env text)
    id ← expect found
    expect id

  -- The account of a label, which is new to this fork.
  unfoldable pub register_account : Hash → Step Env ScAddress
  unfolding insert_key
  register_account public_key = do
    found ← get_entry (LedgerKey.account public_key)
    asserting (is_none found)
    changing (λ s. record s { local_accounts = insert_key public_key s.local_accounts })
    mark_address (ScAddress.account public_key)
    returning (ScAddress.account public_key)

  unfoldable pub public_key_of : Bytes → ScenarioFork Env → Hash
  unfolding local_account_preimage
  public_key_of label s = c.sha256 (local_account_preimage (h.ledger_info s.env).network_id label)

  -- The account of a public key: one of the fork's, or a new one.
  unfoldable pub account_of_key : Hash → Step Env ScAddress
  unfolding has_hash register_account
  account_of_key public_key = do
    known ← reading (λ s. has_hash public_key s.local_accounts)
    if known then returning (ScAddress.account public_key) else register_account public_key

  unfoldable pub local_account : Bytes → Step Env ScAddress
  unfolding account_of_key public_key_of
  local_account label = reading (public_key_of label) >>= account_of_key

  unfoldable pub fund_local_account : ScAddress → ℤ → Step Env (Unit {0})
  unfolding positive account_id_of has_hash funded_entry
  fund_local_account address funding = do
    amount ← expect (positive funding)
    id ← expect (account_id_of address)
    known ← reading (λ s. has_hash id s.local_accounts)
    asserting known
    existing ← get_entry (LedgerKey.account id)
    info ← reading (λ s. h.ledger_info s.env)
    entry ← expect (funded_entry info id amount existing)
    add_entry (LedgerKey.account id) entry none

  unfoldable pub deploy : Bytes → List Bytes → Step Env ScAddress
  unfolding is_contract
  deploy wasm constructor_args = do
    address ← calling (λ l. h.generate_address)
    asserting (is_contract address)
    found ← get_entry (contract_instance_key address)
    asserting (is_none found)
    mark_address address
    mark_code (c.sha256 wasm)
    installed ← calling (λ l. h.register_at l address wasm constructor_args)
    expect installed

  unfoldable pub replace_wasm : ScAddress → Bytes → Step Env Hash
  unfolding is_contract override_entry
  replace_wasm address wasm = do
    asserting (is_contract address)
    found ← get_entry (contract_instance_key address)
    existing ← expect found
    replaced ← expect (override_entry (c.sha256 wasm) existing.0)
    mark_code (c.sha256 wasm)
    uploaded ← calling (λ l. h.upload_contract_wasm l wasm)
    code ← expect uploaded
    asserting (holds (Bytes-discrete code (c.sha256 wasm)))
    add_entry (contract_instance_key address) replaced existing.1
    returning (c.sha256 wasm)
