-- ===== src/Tests/Toy.antt =====
-- A codec that writes a tag in front of a key's parts, and a Host whose environment is a ledger snapshot
-- and the keys asked for. Its contracts know one function, `bump`, which writes account 9.
use kanatoko.Prelude.{ℕ, pos, zero, List, [], ◌∷◌, ◌++◌, Option, none, some, holds, if◌then◌else◌}
use kanatoko.Bytes.{Bytes, Bytes-discrete}
use kanatoko.Xdr.{
  Codec, ScAddress, Durability, ScVal, ContractExecutable, LedgerKey, AccountFields,
  LedgerEntryData, LedgerEntry, LedgerSnapshot, SnapshotEntry,
}
use kanatoko.Host.{LedgerInfo, CallResult, Host}
use kanatoko.Bytes.Encode.{be_bytes, field}

unfoldable pub address_bytes : ScAddress → Bytes
unfolding be_bytes
address_bytes (ScAddress.contract h) = 1 ∷ field h
address_bytes (ScAddress.account a) = 0 ∷ field a
address_bytes (ScAddress.other b) = 2 ∷ field b

unfoldable pub executable_bytes : ContractExecutable → Bytes
unfolding address_bytes
executable_bytes (ContractExecutable.wasm h) = 0 ∷ field h
executable_bytes (ContractExecutable.external_ref a t) = 1 ∷ (address_bytes a ++ field t)
executable_bytes ContractExecutable.stellar_asset = 2 ∷ []

unfoldable pub val_bytes : ScVal → Bytes
unfolding executable_bytes
val_bytes (ScVal.ledger_key_nonce n) = 0 ∷ field n
val_bytes ScVal.ledger_key_contract_instance = 1 ∷ []
val_bytes (ScVal.executable_tag t) = 2 ∷ field t
val_bytes (ScVal.contract_instance e s) = 3 ∷ (executable_bytes e ++ field s)
val_bytes (ScVal.bytes b) = 4 ∷ field b
val_bytes (ScVal.other b) = 5 ∷ field b

durability_byte : Durability → ℕ
durability_byte Durability.temporary = 0
durability_byte Durability.persistent = 1

unfoldable pub key_bytes : LedgerKey → Bytes
unfolding address_bytes val_bytes durability_byte
key_bytes (LedgerKey.account a) = 0 ∷ field a
key_bytes (LedgerKey.trustline a asset) = 1 ∷ (field a ++ field asset)
key_bytes (LedgerKey.contract_data d) =
    6 ∷ durability_byte d.durability ∷ (address_bytes d.contract ++ val_bytes d.key)
key_bytes (LedgerKey.contract_code h) = 7 ∷ field h
key_bytes LedgerKey.state_archival = 8 ∷ []
key_bytes (LedgerKey.other b) = 9 ∷ field b

unfoldable pub data_bytes : LedgerEntryData → Bytes
unfolding address_bytes val_bytes durability_byte
data_bytes (LedgerEntryData.contract_data d) =
    0
    ∷ durability_byte d.durability
    ∷ (address_bytes d.contract ++ val_bytes d.key ++ val_bytes d.val)
data_bytes (LedgerEntryData.contract_code h code ext) = 1 ∷ (field h ++ field code ++ field ext)
data_bytes (LedgerEntryData.account a f) = 2 ∷ (field a ++ field f.thresholds)
data_bytes (LedgerEntryData.trustline a asset f) = 3 ∷ (field a ++ field asset ++ field f)
data_bytes (LedgerEntryData.state_archival s) = 4 ∷ []
data_bytes (LedgerEntryData.other b) = 5 ∷ field b

unfoldable pub toy_key : LedgerEntryData → LedgerKey
toy_key (LedgerEntryData.contract_data d) =
    LedgerKey.contract_data
      (record { contract = d.contract; key = d.key; durability = d.durability })
toy_key (LedgerEntryData.contract_code h code ext) = LedgerKey.contract_code h
toy_key (LedgerEntryData.account a f) = LedgerKey.account a
toy_key (LedgerEntryData.trustline a asset f) = LedgerKey.trustline a asset
toy_key (LedgerEntryData.state_archival s) = LedgerKey.state_archival
toy_key (LedgerEntryData.other b) = LedgerKey.other b

-- Only account keys are decoded.
unfoldable pub toy_key_of : Bytes → Option LedgerKey
toy_key_of (zero ∷ b0 ∷ b1 ∷ b2 ∷ b3 ∷ b4 ∷ b5 ∷ b6 ∷ b7 ∷ rest) = some (LedgerKey.account rest)
toy_key_of _ = none

abbrev pub toy_codec : Codec
toy_codec = record {
  key_xdr = λ k. some (key_bytes k);
  key_of_xdr = toy_key_of;
  entry_xdr = λ e. some (e.last_modified_ledger_seq ∷ data_bytes e.entry_data);
  to_key = λ e. toy_key e.entry_data;
  sha256 = λ b. b;
  base64_encode = λ b. b;
  base64_decode = some;
}

pub record ToyEnv : Type 0 where
  pub snapshot : LedgerSnapshot
  pub reads : List LedgerKey

abbrev pub empty_snapshot : LedgerSnapshot
empty_snapshot = record {
  protocol_version = 29;
  sequence_number = 0;
  timestamp = 0;
  network_id = [];
  base_reserve = 0;
  min_persistent_entry_ttl = 0;
  min_temp_entry_ttl = 0;
  max_entry_ttl = 0;
  ledger_entries = [];
}

abbrev pub info_of : LedgerSnapshot → LedgerInfo
info_of s = record {
  protocol_version = s.protocol_version;
  sequence_number = s.sequence_number;
  timestamp = s.timestamp;
  network_id = s.network_id;
  base_reserve = s.base_reserve;
  min_persistent_entry_ttl = s.min_persistent_entry_ttl;
  min_temp_entry_ttl = s.min_temp_entry_ttl;
  max_entry_ttl = s.max_entry_ttl;
}

abbrev pub snapshot_or_empty : Option LedgerSnapshot → LedgerSnapshot
snapshot_or_empty none = empty_snapshot
snapshot_or_empty (some s) = s

abbrev pub with_info : LedgerSnapshot → Option LedgerInfo → LedgerSnapshot
with_info s none = s
with_info s (some i) = record s { protocol_version = i.protocol_version }

-- An account of which only the thresholds are told.
abbrev pub fields_of : Bytes → AccountFields
fields_of thresholds = record {
  balance = pos 0;
  seq_num = pos 0;
  num_sub_entries = 0;
  inflation_dest = none;
  flags = 0;
  home_domain = [];
  thresholds = thresholds;
  signers = [];
  ext = [];
}

abbrev pub bumped : LedgerEntry
bumped = record {
  last_modified_ledger_seq = 7;
  entry_data = LedgerEntryData.account (9 ∷ []) (fields_of (1 ∷ []));
  ext = [];
}

abbrev pub bump : Bytes
bump = 1 ∷ []

abbrev pub account_9 : LedgerKey
account_9 = LedgerKey.account (9 ∷ [])

unfoldable pub toy_call : ToyEnv → Bytes → Bytes → List Bytes → ToyEnv × CallResult
unfolding Bytes-discrete
toy_call env address function args =
    if holds (Bytes-discrete function bump)
    then (
      record {
        snapshot = record env.snapshot {
          ledger_entries = env.snapshot.ledger_entries ++ (account_9, bumped, none) ∷ [];
        };
        reads = account_9 ∷ env.reads;
      },
      CallResult.returned (ScVal.bytes (1 ∷ [])),
    )
    else (record env { reads = LedgerKey.account function ∷ env.reads }, CallResult.invoke_abort)

unfoldable pub first_keys : List SnapshotEntry → List LedgerKey
first_keys [] = []
first_keys ((k, e, l) ∷ es) = k ∷ first_keys es

unfoldable pub toy_host : Host ToyEnv
unfolding toy_call first_keys
toy_host = record {
  from_ledger_snapshot =
      λ i. record { snapshot = with_info (snapshot_or_empty i.snapshot) i.ledger_info; reads = [] };
  from_snapshot = λ s. record { snapshot = s.ledger; reads = [] };
  input_of_snapshot =
      λ s. record { source = λ k. some none; ledger_info = some (info_of s); snapshot = some s };
  ledger_info = info_of;
  to_snapshot = λ e. record { ledger = e.snapshot; auth = []; events = []; rest = [] };
  to_ledger_snapshot = λ e. e.snapshot;
  set_capture_snapshot_at_drop = λ b e. e;
  set_shadow_budget_limits = λ a b e. e;
  stored_entries = λ e. some (first_keys e.snapshot.ledger_entries);
  source_reads = λ e. e.reads;
  mock_all_auths = λ e. e;
  set_authorization_entries = λ a e. some e;
  diagnostic_events = λ e. some [];
  to_address = λ e a. some (address_bytes a);
  to_symbol = λ e s. some s;
  to_val = λ e v. some (val_bytes v);
  try_invoke_contract = toy_call;
  register_at = λ e a w args. (e, some (ScAddress.contract (5 ∷ [])));
}
