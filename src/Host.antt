-- ===== src/Host.antt =====
-- The Soroban environment as a parameter, with the data that passes between it and the program
-- (src/strict.rs, src/runtime.rs). Host objects (addresses, symbols, values) are handles, kept
-- as bytes that the program never looks into.
pub mod Calls
pub mod Outcome
use kanatoko.Prelude.{
  ℕ, ◌-◌, ◌^◌, List, [], ◌∷◌, Option, none, some, Bool, true, false, Result, ok, err, ◌>>=◌, ok_or,
  map, if◌then◌else◌, ℕ_discrete,
}
use mathlib.Core.List.{get_last?}
use kanatoko.Bytes.{Bytes}
use kanatoko.Xdr.{Codec, ScAddress, ScVal, LedgerKey, LedgerEntry, LedgerSnapshot}
use kanatoko.Protocol.{executed_version, restore}
use kanatoko.Ledger.{StrictForkError, invalid_invocation_xdr, host_inspection}

-- An address and its authorized invocation (opaque).
pub record AuthorizationTree : Type 0 where
  pub address : ScAddress
  pub invocation : Bytes

pub record DetachedEvent : Type 0 where
  pub event : Bytes
  pub failed_call : Bool

-- A diagnostic-buffer event: whether its type is `Diagnostic`, the event, and `failed_call`.
pub record HostEvent : Type 0 where
  pub is_diagnostic : Bool
  pub event : Bytes
  pub failed_call : Bool

-- `LedgerInfo`: the header of a ledger.
pub record LedgerInfo : Type 0 where
  pub protocol_version : ℕ
  pub sequence_number : ℕ
  pub timestamp : ℕ
  pub network_id : Bytes
  pub base_reserve : ℕ
  pub min_persistent_entry_ttl : ℕ
  pub min_temp_entry_ttl : ℕ
  pub max_entry_ttl : ℕ

-- What a source answers to a key: an error, no entry, or an entry with its live-until ledger.
abbrev pub Answer : Type 0
Answer = Option (Option (LedgerEntry × Option ℕ))

-- `SnapshotSourceInput`
pub record SourceInput : Type 0 where
  pub source : LedgerKey → Answer
  pub ledger_info : Option LedgerInfo
  pub snapshot : Option LedgerSnapshot

-- The SDK's `Snapshot` of an environment; the generators and the like are `rest`.
pub record Snapshot : Type 0 where
  pub ledger : LedgerSnapshot
  pub auth : List (List AuthorizationTree)
  pub events : List DetachedEvent
  pub rest : Bytes

pub data ScError : Type 0 where
  contract : ℕ → ScError
  other : Bytes → ScError

-- A Host error value: its conversion to `ScError`, whether its type is Contract, and its code.
pub record HostError : Type 0 where
  pub sc_error : Option ScError
  pub is_contract : Bool
  pub code : ℕ

-- What `catch_unwind(try_invoke_contract)` can give.
pub data CallResult : Type 0 where
  -- a panic crossed the call
  unwound : CallResult
  -- Ok(Ok(value)), Ok(Err(_))
  returned : ScVal → CallResult
  not_converted : CallResult
  -- Err(Ok(error)), Err(Err(Abort)), Err(Err(Contract(code)))
  failed : HostError → CallResult
  invoke_abort : CallResult
  invoke_contract : ℕ → CallResult

-- The environment of soroban-sdk's test utilities. A refusal by `set_shadow_budget_limits` panics,
-- which ends the program; it is not modelled.
pub record Host (Env : Type 0) : Type 0 where
  pub from_ledger_snapshot : SourceInput → Env
  pub from_snapshot : Snapshot → Env
  pub input_of_snapshot : LedgerSnapshot → SourceInput
  pub ledger_info : LedgerSnapshot → LedgerInfo
  pub to_snapshot : Env → Snapshot
  pub to_ledger_snapshot : Env → LedgerSnapshot
  pub set_capture_snapshot_at_drop : Bool → Env → Env
  pub set_shadow_budget_limits : ℕ → ℕ → Env → Env
  -- the keys of `get_stored_entries`, and the keys that were asked of the source so far
  pub stored_entries : Env → Option (List LedgerKey)
  pub source_reads : Env → List LedgerKey
  pub mock_all_auths : Env → Env
  pub set_authorization_entries : List Bytes → Env → Option Env
  pub diagnostic_events : Env → Option (List HostEvent)
  pub to_address : Env → ScAddress → Option Bytes
  pub to_symbol : Env → Bytes → Option Bytes
  pub to_val : Env → ScVal → Option Bytes
  pub try_invoke_contract : Env → Bytes → Bytes → List Bytes → Env × CallResult
  -- `catch_unwind(register_at)`: the installed address, or a panic
  pub register_at : Env → Bytes → Bytes → List Bytes → Env × Option ScAddress

pub record InvokeRequest : Type 0 where
  pub contract : ScAddress
  pub function : Bytes
  pub args : List ScVal

pub data InvokeErrorKind : Type 0 where
  abort : InvokeErrorKind
  contract : ℕ → InvokeErrorKind
  result_conversion : InvokeErrorKind

pub record InvocationFailure : Type 0 where
  pub error : Option ScError
  pub kind : InvokeErrorKind

pub data InvokeOutcome : Type 0 where
  success : ScVal → InvokeOutcome
  failure : Option ScError → InvokeErrorKind → InvokeOutcome
