-- ===== src/Strict/Source.antt =====
-- src/strict.rs: the snapshot source of a strict environment, and the gate that collects the keys it
-- could not answer.
use kanatoko.Prelude.{
  ℕ, List, [], ◌∷◌, Option, none, some, Bool, true, false, ◌||◌, Result, ok, ◌>>=◌, ok_or,
  if◌then◌else◌,
}
use kanatoko.Bytes.{Bytes}
use kanatoko.BTree.{get, insert_key}
use kanatoko.Xdr.{Codec, Hash, ScAddress, LedgerKey, LedgerEntry, LedgerSnapshot}
use kanatoko.Ledger.{
  StrictForkError, host_inspection, LookupState, present, absent, Coverage, key_id, is_local_key,
}
use kanatoko.Host.{Host, Answer}
use kanatoko.Host.Calls.{fork_env, ForkEnvSeed}

pub record StrictSource : Type 0 where
  pub coverage : Coverage
  pub local_contracts : List ScAddress
  pub local_code_hashes : List Hash
  pub allow_mock_nonces : Bool
  pub unknown : List Bytes

-- The entry that a state stands for.
unfoldable pub entry_of : LookupState → Option (LedgerEntry × Option ℕ)
entry_of (present entry live_until) = some (entry, live_until)
entry_of absent = none

unfoldable pub is_covered : Option LookupState → Bool
is_covered none = false
is_covered (some state) = true

module _ (c : Codec) where
  local_or_unknown : StrictSource → LedgerKey → Bytes → StrictSource × Answer
  unfolding is_local_key
  local_or_unknown s key id =
      if is_local_key key s.local_contracts s.local_code_hashes s.allow_mock_nonces
      then (s, some none)
      else (record s { unknown = insert_key id s.unknown }, some none)

  -- `StrictSource::get`: the source after the lookup, and its answer.
  unfoldable pub get_source : StrictSource → LedgerKey → StrictSource × Answer
  unfolding local_or_unknown entry_of get
  get_source s key = elim (c.key_xdr key) [
    | none ↦ (s, none)
    | some id ↦ elim (get id s.coverage) [
      | some state ↦ (s, some (entry_of state))
      | none ↦ local_or_unknown s key id
    ]
  ]

  -- The source after the lookups of an environment.
  unfoldable pub after_reads : StrictSource → List LedgerKey → StrictSource
  unfolding get_source
  after_reads s [] = s
  after_reads s (k ∷ ks) = after_reads (get_source s k).0 ks

  -- The loop over the stored entries: an identifier neither covered nor local is unknown.
  unfoldable pub add_unknown :
      StrictSource → List Bytes → List LedgerKey → Result StrictForkError (List Bytes)
  unfolding key_id is_local_key get is_covered
  add_unknown s unknown [] = ok unknown
  add_unknown s unknown (key ∷ ks) = do
    id ← key_id c key
    add_unknown s
        (if is_covered (get id s.coverage)
            || is_local_key key s.local_contracts s.local_code_hashes s.allow_mock_nonces
          then unknown
          else insert_key id unknown)
        ks

module _ {Env : Type 0} (c : Codec) (h : Host Env) (supported : ℕ) where
  -- A fresh environment over a snapshot, and its source.
  unfoldable pub strict_env :
      LedgerSnapshot → Coverage → List ScAddress → List Hash → Bool → Env × StrictSource
  unfolding fork_env
  strict_env snapshot coverage contracts hashes allow_mock_nonces =
      let s : StrictSource = record {
        coverage = coverage;
        local_contracts = contracts;
        local_code_hashes = hashes;
        allow_mock_nonces = allow_mock_nonces;
        unknown = [];
      } in
      (
        fork_env h supported (
            ForkEnvSeed.ledger (record {
              source = λ key. (get_source c s key).1;
              ledger_info = some (h.ledger_info snapshot);
              snapshot = some snapshot;
            })),
        s,
      )

  -- `unknown_keys`: what the environment asked its source in vain, and what it stores uncovered.
  unfoldable pub unknown_keys : Env → StrictSource → Result StrictForkError (List Bytes)
  unfolding add_unknown after_reads
  unknown_keys env s = do
    stored ← ok_or (h.stored_entries env) host_inspection
    add_unknown c s (after_reads c s (h.source_reads env)).unknown stored
