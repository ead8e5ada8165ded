-- ===== src/Xdr.antt =====
-- The ledger data that the program takes apart (the XDR types that src/capture.rs, src/strict.rs and
-- src/fixture.rs name), and the third-party functions on it as a record of parameters. What the
-- program never looks into is kept as bytes, and the alternatives that it never names are `other`.
use kanatoko.Prelude.{ℕ, ℤ, List, Option, ℕ_discrete}
use kanatoko.Bytes.{Bytes}

-- A 32-byte hash, an account's public key.
abbrev pub Hash : Type 0
Hash = Bytes

pub data ScAddress : Type 0 where
  contract : Hash → ScAddress
  account : Bytes → ScAddress
  other : Bytes → ScAddress

pub data Durability : Type 0 where
  temporary persistent : Durability

-- `ContractExecutable`; an external reference names its owner and its tag.
pub data ContractExecutable : Type 0 where
  wasm : Hash → ContractExecutable
  external_ref : ScAddress → Bytes → ContractExecutable
  stellar_asset : ContractExecutable

pub data ScVal : Type 0 where
  ledger_key_nonce : Bytes → ScVal
  ledger_key_contract_instance : ScVal
  executable_tag : Bytes → ScVal
  -- the executable, and the instance's storage
  contract_instance : ContractExecutable → Bytes → ScVal
  bytes : Bytes → ScVal
  other : Bytes → ScVal

pub record DataKey : Type 0 where
  pub contract : ScAddress
  pub key : ScVal
  pub durability : Durability

pub data LedgerKey : Type 0 where
  contract_data : DataKey → LedgerKey
  contract_code : Hash → LedgerKey
  account : Bytes → LedgerKey
  -- the account, and the asset
  trustline : Bytes → Bytes → LedgerKey
  state_archival : LedgerKey
  other : Bytes → LedgerKey

pub record ArchivalSettings : Type 0 where
  pub max_entry_ttl : ℕ
  pub min_temporary_ttl : ℕ
  pub min_persistent_ttl : ℕ

pub record DataEntry : Type 0 where
  pub contract : ScAddress
  pub key : ScVal
  pub durability : Durability
  pub val : ScVal
  pub ext : Bytes

-- `AccountEntry` but for its identifier; an extension V0 is the empty text.
pub record AccountFields : Type 0 where
  pub balance : ℤ
  pub seq_num : ℤ
  pub num_sub_entries : ℕ
  pub inflation_dest : Option Bytes
  pub flags : ℕ
  pub home_domain : Bytes
  pub thresholds : Bytes
  pub signers : List Bytes
  pub ext : Bytes

pub data LedgerEntryData : Type 0 where
  contract_data : DataEntry → LedgerEntryData
  -- the hash, the code, and the extension
  contract_code : Hash → Bytes → Bytes → LedgerEntryData
  account : Bytes → AccountFields → LedgerEntryData
  trustline : Bytes → Bytes → Bytes → LedgerEntryData
  state_archival : ArchivalSettings → LedgerEntryData
  other : Bytes → LedgerEntryData

pub record LedgerEntry : Type 0 where
  pub last_modified_ledger_seq : ℕ
  pub entry_data : LedgerEntryData
  pub ext : Bytes

-- An entry of a ledger snapshot: its key, the entry, and its live-until ledger.
abbrev pub SnapshotEntry : Type 0
SnapshotEntry = LedgerKey × LedgerEntry × Option ℕ

pub record LedgerSnapshot : Type 0 where
  pub protocol_version : ℕ
  pub sequence_number : ℕ
  pub timestamp : ℕ
  pub network_id : Hash
  pub base_reserve : ℕ
  pub min_persistent_entry_ttl : ℕ
  pub min_temp_entry_ttl : ℕ
  pub max_entry_ttl : ℕ
  pub ledger_entries : List SnapshotEntry

unfoldable pub ScAddress-discrete : Discrete ScAddress
unfolding ℕ_discrete
ScAddress-discrete = hlevel ℕ_discrete

unfoldable pub LedgerKey-discrete : Discrete LedgerKey
unfolding ℕ_discrete
LedgerKey-discrete = hlevel ℕ_discrete

unfoldable pub LedgerEntry-discrete : Discrete LedgerEntry
unfolding ℕ_discrete
LedgerEntry-discrete = hlevel ℕ_discrete

-- The functions of the XDR, hash and Base64 libraries. `none` is an encoding or decoding error.
pub record Codec : Type 0 where
  -- `LedgerKey::to_xdr`, `LedgerKey::from_xdr` with no limits
  pub key_xdr : LedgerKey → Option Bytes
  pub key_of_xdr : Bytes → Option LedgerKey
  -- `LedgerEntry::to_xdr`
  pub entry_xdr : LedgerEntry → Option Bytes
  -- `LedgerEntry::to_key`
  pub to_key : LedgerEntry → LedgerKey
  -- `Sha256::digest`
  pub sha256 : Bytes → Hash
  -- `BASE64.encode`, `BASE64.decode`
  pub base64_encode : Bytes → Bytes
  pub base64_decode : Bytes → Option Bytes
