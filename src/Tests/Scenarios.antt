-- ===== src/Tests/Scenarios.antt =====
-- A scenario's environment in memory, and the properties of scenarios at concrete inputs.
use kanatoko.Prelude.{
  ℕ, ◌≡◌, refl, [], ◌∷◌, pos, Option, none, some, true, false, holds, holds-yes, ok, ◌⊎◌,
  if◌then◌else◌, arith,
}
use kanatoko.Bytes.{Bytes, Bytes-discrete}
use kanatoko.Xdr.{
  ScAddress, ScVal, ContractExecutable, Durability, LedgerKey, LedgerKey-discrete,
  ScAddress-discrete, LedgerEntry, LedgerEntryData, DataEntry,
}
use kanatoko.Ledger.{contract_instance_key, has_hash, has_address}
use kanatoko.Strict.{is_contract}
use kanatoko.Capture.{owns}
use kanatoko.Fixture.Binding.{Collision}
use kanatoko.Auto.Scenario.{
  ScenarioHost, ScenarioFork, account_of_key, register_account, override_entry, override_val,
  override_executable, public_key_of, local_account, replace_wasm, fund_local_account,
}
use kanatoko.Auto.Scenario.Funding.{
  Stored, IsStorage, IsFunding, HasBalance, fund_local_account_lem,
}
use kanatoko.Auto.Scenario.Accounts.{
  IsKnown, KeepsInfo, AllOwned, local_account-IsKnown, public_key_of-binding,
}
use kanatoko.Auto.Scenario.Override.{IsReplaced, replace_wasm-IsReplaced}
use kanatoko.Auto.Preview.{recorded, preview, InvocationReport, Called}
use kanatoko.Auto.Preview.Closed.{IsCall, IsPreviewed, preview-IsPreviewed}
use kanatoko.Capture.Source.{TrackingSource}
use kanatoko.Tests.Fork.{opened}
use kanatoko.Tests.Captures.{serving}
use kanatoko.Tests.Toy.{toy_host, ToyEnv, bump, toy_codec, empty_snapshot, info_of}

-- An environment is its storage; it finds every key that is not stored to be absent.
abbrev Ledger : Type 0
Ledger = LedgerKey → Stored

unfoldable set : LedgerKey → LedgerEntry → Option ℕ → Ledger → Ledger
unfolding LedgerKey-discrete
set key entry live_until env k =
    if holds (LedgerKey-discrete k key) then some (entry, live_until) else env k

ledger_host : ScenarioHost Ledger
unfolding set
ledger_host = record {
  ledger_info = λ env. record (info_of empty_snapshot) { sequence_number = 7; base_reserve = 5 };
  get_ledger_entry = λ l key env. (env, some (env key));
  add_ledger_entry = λ key entry live_until env. (set key entry live_until env, true);
  address_of_string = λ env text. some (ScAddress.account text);
  muxed_of_string = λ env text. none;
  generate_address = λ env. (env, ScAddress.contract (1 ∷ []));
  register_at = λ l a wasm args env. (env, some a);
  upload_contract_wasm = λ l wasm env. (env, some wasm);
}

view : Ledger → LedgerKey → Stored
view env key = env key

set_same :
    (key : LedgerKey) (entry : LedgerEntry) (live_until : Option ℕ) (env : Ledger)
    → set key entry live_until env key ≡ some (entry, live_until)
unfolding set
set_same key entry live_until env = rw (holds-yes (LedgerKey-discrete key key) refl) refl

ledger_host-IsStorage : IsStorage ledger_host view
unfolding ledger_host view
ledger_host-IsStorage = record {
  held = λ l key env x e. rw e refl;
  absent = λ l key env o e. rw e refl;
  info = λ l key env. refl;
  added = λ key entry live_until env. (refl, set_same key entry live_until env);
}

no_entries : Ledger
no_entries key = none

abbrev id : Bytes
id = 9 ∷ []

abbrev wasm : Bytes
wasm = 3 ∷ []

abbrev pool : ScAddress
pool = ScAddress.contract (6 ∷ [])

abbrev pool_data : DataEntry
pool_data = record {
  ext = [];
  contract = pool;
  key = ScVal.ledger_key_contract_instance;
  durability = Durability.persistent;
  val = ScVal.contract_instance (ContractExecutable.wasm (2 ∷ [])) (8 ∷ []);
}

abbrev instance_entry : LedgerEntry
instance_entry = record {
  last_modified_ledger_seq = 4;
  entry_data = LedgerEntryData.contract_data pool_data;
  ext = [];
}

pool_ledger : Ledger
unfolding set no_entries
pool_ledger = set (contract_instance_key pool) instance_entry (some 90) no_entries

new_scenario : Ledger → ScenarioFork Ledger
new_scenario env = record {
  env = env;
  local_accounts = [];
  local_ledger = record { addresses = []; code_hashes = [] };
  network_protocol_version = 29;
}

abbrev label : Bytes
label = b'a' ∷ []

with_account : ScenarioFork Ledger
unfolding new_scenario no_entries
with_account = record (new_scenario no_entries) {
  local_accounts = id ∷ [];
  local_ledger = record { addresses = ScAddress.account id ∷ []; code_hashes = [] };
}

known : has_hash id with_account.local_accounts ≡ true
unfolding with_account has_hash Bytes-discrete
known = refl

own : owns with_account.local_ledger (LedgerKey.account id) ≡ true
unfolding with_account owns has_address ScAddress-discrete
own = refl

empty : HasBalance id 0 (view with_account.env (LedgerKey.account id))
unfolding with_account HasBalance view new_scenario no_entries
empty = refl

fund_local_account_lem_example :
    IsFunding toy_codec ledger_host view ledger_host-IsStorage
      (ledger_host.ledger_info with_account.env)
      id
      0
      12
      (view with_account.env (LedgerKey.account id))
      (fund_local_account toy_codec ledger_host (ScAddress.account id) (pos 12) with_account)
fund_local_account_lem_example =
    fund_local_account_lem toy_codec ledger_host view ledger_host-IsStorage with_account id 0 11
      known own empty

public_key_of-binding_example : Collision toy_codec ⊎ (label ≡ label)
public_key_of-binding_example =
    public_key_of-binding toy_codec ledger_host with_account label label (omega arith) (omega arith)
      refl

accounts_owned : AllOwned toy_codec ledger_host (new_scenario no_entries)
unfolding new_scenario has_hash
accounts_owned id m = cc

first_account :
    (v : ScenarioFork Ledger) × (address : ScAddress) × (local_account toy_codec ledger_host label
        (new_scenario no_entries)
      ≡ (v, ok address))
unfolding local_account account_of_key register_account ledger_host new_scenario no_entries has_hash
first_account = (_, _, refl)

first_kept : KeepsInfo toy_codec ledger_host
unfolding ledger_host
first_kept l key env = refl

local_account-IsKnown_example :
    IsKnown toy_codec ledger_host
      (public_key_of toy_codec ledger_host label (new_scenario no_entries))
      first_account.0
      first_account.1
    × (local_account toy_codec ledger_host label first_account.0
        ≡ (first_account.0, ok first_account.1))
local_account-IsKnown_example =
    local_account-IsKnown toy_codec ledger_host first_kept label (new_scenario no_entries)
      first_account.0 first_account.1 accounts_owned first_account.2

replacement :
    (v : ScenarioFork Ledger) × (code : Bytes) × (replace_wasm toy_codec ledger_host pool wasm
        (new_scenario pool_ledger)
      ≡ (v, ok code))
unfolding replace_wasm ledger_host new_scenario pool_ledger set no_entries is_contract
    override_entry override_val override_executable LedgerKey-discrete Bytes-discrete
replacement = (_, _, refl)

replace_wasm-IsReplaced_example :
    IsReplaced toy_codec ledger_host view ledger_host-IsStorage pool wasm
      (new_scenario pool_ledger)
      replacement.0
      replacement.1
replace_wasm-IsReplaced_example =
    replace_wasm-IsReplaced toy_codec ledger_host view ledger_host-IsStorage pool wasm
      (new_scenario pool_ledger) replacement.0 replacement.1 replacement.2

abbrev source : TrackingSource
source = record {
  cache = [];
  requested = [];
  unknown = [];
  online = false;
  local = record { addresses = ScAddress.account id ∷ []; code_hashes = [] };
  network_protocol_version = 29;
  rpc_reads = 0;
  failure = none;
}

abbrev empty_env : ToyEnv
empty_env = record { snapshot = empty_snapshot; reads = [] }

previewed_bump :
    (w : ℕ) × (after : Option TrackingSource) × (r : InvocationReport) × (preview toy_codec toy_host
        serving 29
        (λ env. none)
        empty_env
        (some source)
        29
        pool
        (some bump)
        (some [])
        recorded
        0
      ≡ (w, after, ok r))
unfolding opened preview owns
previewed_bump = (_, _, _, refl)

preview-IsPreviewed_example :
    (call : Called ToyEnv) × IsCall toy_codec toy_host serving 29
      (λ env. none)
      empty_env
      29
      pool
      (some bump)
      (some [])
      call
    × IsPreviewed toy_codec toy_host serving 29
        (λ env. none)
        source
        call
        29
        recorded
        previewed_bump.1
        previewed_bump.2
preview-IsPreviewed_example =
    preview-IsPreviewed toy_codec toy_host serving 29 (λ env. none) empty_env source 29 pool
      (some bump) (some []) recorded 0 previewed_bump.0 previewed_bump.1 previewed_bump.2
      previewed_bump.3
