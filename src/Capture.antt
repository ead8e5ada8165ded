-- ===== src/Capture.antt =====
-- src/capture.rs: the data of a capture, the local ledger, and the identifiers of ledger keys.
pub mod Validate
pub mod Closure
pub mod Rpc
pub mod Source
pub mod Materialize
pub mod Discover
pub mod Replay
pub mod Digest
pub mod Hex
pub mod Origin
pub mod Builder
pub mod Wire
pub mod Frame
pub mod Bundle
pub mod Storage
use kanatoko.Prelude.{
  ℕ, List, [], ◌∷◌, Option, none, some, Bool, true, false, Result, ok_or, ℕ_discrete,
}
use kanatoko.Bytes.{Bytes}
use kanatoko.BTree.{BTreeMap}
use kanatoko.Xdr.{Codec, Hash, ScAddress, ScVal, Durability, DataKey, LedgerKey, LedgerEntry}
use kanatoko.Protocol.{UnsupportedProtocol}
use kanatoko.Fixture.{FixtureError, FrozenFixture}
use kanatoko.Ledger.{Coverage, LookupState, present, absent, has_address, has_hash}
use kanatoko.Host.{LedgerInfo}

-- The names of operations that failures carry.
pub data Operation : Type 0 where
  get_network get_latest_ledger get_ledger_entries ledger_key_encode : Operation

-- `CaptureError`, without the file errors' causes.
pub data CaptureError : Type 0 where
  invalid_rpc_url network_mismatch : CaptureError
  unsupported_protocol : UnsupportedProtocol → CaptureError
  transport : Operation → CaptureError
  malformed_rpc : Operation → CaptureError
  -- the number of attempts
  incoherent_ledger : ℕ → CaptureError
  missing_state_archival missing_executable_reference : CaptureError
  malformed_executable_reference missing_referenced_code : CaptureError
  -- the number of rounds
  executable_closure_limit : ℕ → CaptureError
  scenario_panicked : CaptureError
  fixed_point_limit : ℕ → CaptureError
  -- the number of keys
  unknown_ledger_keys : ℕ → CaptureError
  capture_bundle_io : CaptureError
  -- found, supported
  unsupported_capture_bundle_schema : ℕ → ℕ → CaptureError
  malformed_capture_bundle capture_bundle_integrity : CaptureError
  host_inspection internal_invariant : CaptureError
  fixture : FixtureError → CaptureError
  xdr : CaptureError

pub record Anchor : Type 0 where
  pub sequence : ℕ
  pub hash : Bytes
  pub protocol_version : ℕ
  pub timestamp : ℕ
  pub base_reserve : ℕ

unfoldable pub Anchor-discrete : Discrete Anchor
unfolding ℕ_discrete
Anchor-discrete = hlevel ℕ_discrete

pub record Network : Type 0 where
  pub passphrase : Bytes
  pub protocol_version : ℕ

pub record FetchedEntry : Type 0 where
  pub entry : LedgerEntry
  pub live_until : Option ℕ

pub record EntryBatch : Type 0 where
  pub latest_ledger : ℕ
  pub entries : List FetchedEntry

pub record Materialized : Type 0 where
  pub anchor : Anchor
  pub ledger_info : LedgerInfo
  pub coverage : Coverage

pub record CaptureReport : Type 0 where
  pub discovery_rounds : ℕ
  pub present_entries : ℕ
  pub absent_entries : ℕ
  pub inventory_digest : Hash
  pub final_replay_rpc_reads : ℕ

pub record CaptureProvenance : Type 0 where
  pub rpc_origin : Bytes
  pub network_passphrase : Bytes
  pub ledger_sequence : ℕ
  pub ledger_hash : Bytes
  pub protocol_version : ℕ

pub record CapturedFixture : Type 0 where
  pub fixture : FrozenFixture
  pub coverage : Coverage
  pub report : CaptureReport
  pub provenance : CaptureProvenance

-- The sets of the local ledger, shared by the scenario's facade and its snapshot source.
pub record LocalLedger : Type 0 where
  pub addresses : List ScAddress
  pub code_hashes : List Hash

abbrev pub no_local : LocalLedger
no_local = record { addresses = []; code_hashes = [] }

unfoldable pub owns : LocalLedger → LedgerKey → Bool
unfolding has_address has_hash
owns l (LedgerKey.contract_code h) = has_hash h l.code_hashes
owns l (LedgerKey.contract_data d) = has_address d.contract l.addresses
owns l (LedgerKey.account a) = has_address (ScAddress.account a) l.addresses
owns l (LedgerKey.trustline a asset) = has_address (ScAddress.account a) l.addresses
owns l _ = false

unfoldable pub is_state_archival_key : LedgerKey → Bool
is_state_archival_key LedgerKey.state_archival = true
is_state_archival_key _ = false

module _ (c : Codec) where
  -- `key_id` of src/capture.rs
  unfoldable pub capture_id : LedgerKey → Result CaptureError Bytes
  capture_id k = ok_or (c.key_xdr k) xdr

-- The state that a fetched entry, or its absence, stands for.
unfoldable pub fetched_state : Option FetchedEntry → LookupState
fetched_state none = absent
fetched_state (some e) = present e.entry e.live_until

abbrev pub KeyMap : Type 0
KeyMap = BTreeMap LedgerKey
