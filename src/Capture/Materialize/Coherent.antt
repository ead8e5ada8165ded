-- ===== src/Capture/Materialize/Coherent.antt =====
-- The coherence of what `CaptureBuilder::materialize` of src/capture.rs returns.
use kanatoko.Prelude.{ℕ, ◌≡◌, List, Option, none, some, ok, In}
use kanatoko.Bytes.{Bytes}
use kanatoko.BTree.{get}
use kanatoko.Xdr.{Codec, LedgerKey}
use kanatoko.Ledger.{LookupState}
use kanatoko.Capture.{Materialized}
use kanatoko.Capture.Rpc.{Transport, Rpc, returning}
use kanatoko.Capture.Materialize.Answered.{HasState, IsAnswered}
use kanatoko.Capture.Materialize.{CaptureBuilder}
use kanatoko.Capture.Materialize.Checked.{IsChecked}

-- The choice that follows an attempt.
abbrev next_of :
    {World : Type 0} → Option Materialized → Rpc World Materialized → Rpc World Materialized
next_of found again = elim found [ some m ↦ returning m | none ↦ again ]

module _ {World : Type 0} (c : Codec) (t : Transport World) (supported : ℕ)
    (b : CaptureBuilder) where
  -- The coverage has a state for every requested key but the settings'.
  abbrev pub HasStates : Bytes → List (Bytes × LedgerKey) → Materialized → Type 0
  HasStates config_id requested m =
      (id : Bytes) (key : LedgerKey)
      → In (id, key) requested
      → ¬ (id ≡ config_id)
      → HasState id m.coverage

  -- The anchor is what the server told before the entries were fetched, and at the end.
  abbrev pub IsAnchored : World → Materialized → Type 0
  IsAnchored w' m =
      (first : World) × (last : World) × ((t.latest_ledger first).1 ≡ ok m.anchor)
      × (t.latest_ledger last ≡ (w', ok m.anchor))

  -- The coverage is what the server told of the requested keys at the anchor's ledger.
  abbrev pub AreAnswered : List (Bytes × LedgerKey) → Materialized → Type 0
  AreAnswered requested m =
      (id : Bytes) (state : LookupState)
      → get id m.coverage ≡ some state
      → IsAnswered c t m.anchor.sequence requested id state

  Attempted : Bytes → List (Bytes × LedgerKey) → World → Materialized → Type 0
  Attempted config_id requested w' m =
      IsChecked c m × IsAnchored w' m × AreAnswered requested m × HasStates config_id requested m
