-- ===== src/Auto/Runner/Frame.antt =====
-- What the steps of an automatic run of src/auto.rs leave as it was: the files, until the cache is
-- written.
use kanatoko.Prelude.{ℕ, ◌≡◌, refl, ◌∙◌, Option, false, Result, ok, err, arith, ap}
use kanatoko.Bytes.{Bytes}
use kanatoko.Xdr.{Codec, ScAddress, LedgerSnapshot}
use kanatoko.Protocol.{Policy}
use kanatoko.Capture.{CaptureError, CapturedFixture, no_local}
use kanatoko.Capture.Rpc.{Transport, Stop, Io, Rpc, resume}
use kanatoko.Capture.Rpc
use kanatoko.Capture.Frame.{
  Keeps, IsApart, bind-Keeps, if-Keeps, capture-Keeps, capture_with_inventory-Keeps,
  cached_anchor_is_current-Keeps,
}
use kanatoko.Capture.Materialize.{CaptureBuilder}
use kanatoko.Capture.Discover.{Scenario}
use kanatoko.Capture.Source.{new_source}
use kanatoko.Capture.Validate.{snapshot_from_materialized}
use kanatoko.Capture.Replay.{replay, replay_run, replay_state}
use kanatoko.Capture.Replay.Offline.{run_script-IsOffline}
use kanatoko.Capture.Bundle.Files.{BundleReader}
use kanatoko.Capture.Storage.{FilePath, Files, Printer, from_file_with_policy}
use kanatoko.Capture.Storage.Atomic.{Contents, IsFileSystem}
use kanatoko.Auto.Settings.{AutoRunner}
use kanatoko.Auto.Runner.{
  AutoStop, Obtained, capturing, filing, after_replay, load, replaying, recapture, cold_capture,
  obtain_from, obtain,
}

replay_choice :
    {World : Type 0} (r : Result CaptureError LedgerSnapshot) (w : World)
    (next : LedgerSnapshot → World × Result Stop (Unit {0}))
    → ((s : LedgerSnapshot) → (next s).0 ≡ w)
    → (◌≡◌ {A = World}
        (elim r as (λ x. World × Result Stop (Unit {0})) [
          | err e ↦ (w, err Rpc.panics)
          | ok s ↦ next s
        ]).0
        w)
replay_choice (err e) w next k = refl
replay_choice (ok s) w next k = k s

-- A strict replay, which has no transport, leaves the world as it was.
pub replay_world :
    {World : Type 0} (c : Codec) (t : Transport World) (f : CapturedFixture) (scenario : Scenario)
    (w : World)
    → (replay c t f scenario w).0 ≡ w
unfolding replay replay_run new_source
replay_world c t f scenario w =
    replay_choice (snapshot_from_materialized c (replay_state f)) w _ (λ s.
      (run_script-IsOffline c t (scenario (replay_state f).ledger_info s)
        (new_source f.coverage false no_local (replay_state f).ledger_info.protocol_version) w
        refl).world)

module _ {World : Type 0} (content : Contents World) where
  capturing-Keeps : {A : Type 0} (m : Rpc World A) → Keeps content m → Keeps content (capturing m)
  capturing-Keeps m k w = k w

  pub filing-Keeps :
      {A : Type 0} (m : Io World CaptureError A) → Keeps content m → Keeps content (filing m)
  filing-Keeps m k w = k w

  after_replay-Keeps :
      (cached : CapturedFixture) (again : Io World AutoStop Obtained)
      (x : World × Result Stop (Unit {0}))
      → Keeps content again
      → content (after_replay cached again x).0 ≡ content x.0
  after_replay-Keeps cached again (w, ok u) k = refl
  after_replay-Keeps cached again (w, err Rpc.panics) k = refl
  after_replay-Keeps cached again (w, err (Rpc.fails e)) k = ground (arith, k w)

  module _ (f : Files World) (l : IsFileSystem content f) (c : Codec) (supported : ℕ)
      (reader : BundleReader) (parse_address : Bytes → Option ScAddress) (print : Printer) where
    from_file-Keeps :
        (path : FilePath) (passphrase : Bytes) (policy : Policy)
        → Keeps content
            (from_file_with_policy f c supported reader parse_address path passphrase policy)
    unfolding from_file_with_policy
    from_file-Keeps path passphrase policy w =
        let k : content (f.read path w).0 ≡ content w = λ i q. (l.read path w).0 q i in
        grind (arith, k)

    pub load-Keeps :
        (r : AutoRunner) (path : FilePath)
        → Keeps content (load c supported f reader parse_address print r path)
    load-Keeps r path = from_file-Keeps path r.network_passphrase r.protocol_policy

    module _ (t : Transport World) (apart : IsApart content t) (scenario : Scenario) where
      pub replaying-Keeps :
          (fixture : CapturedFixture)
          → Keeps content (replaying c supported f reader parse_address print t scenario fixture)
      replaying-Keeps fixture w = ap content (replay_world c t fixture scenario w)

      recapture-Keeps :
          (b : CaptureBuilder) (cached : CapturedFixture)
          → Keeps content (recapture c supported f reader parse_address print t scenario b cached)
      unfolding recapture
      recapture-Keeps b cached =
          search (bind-Keeps, capturing-Keeps, capture_with_inventory-Keeps, apart)

      cold_capture-Keeps :
          (b : CaptureBuilder)
          → Keeps content (cold_capture c supported f reader parse_address print t scenario b)
      unfolding cold_capture
      cold_capture-Keeps b = search (bind-Keeps, capturing-Keeps, capture-Keeps, apart)

      again-Keeps :
          (b : CaptureBuilder) (cached : CapturedFixture)
          → Keeps content (λ w.
            after_replay cached
              (recapture c supported f reader parse_address print t scenario b cached)
              (replay c t cached scenario w))
      again-Keeps b cached w =
          after_replay-Keeps cached
            (recapture c supported f reader parse_address print t scenario b cached)
            (replay c t cached scenario w) (recapture-Keeps b cached)
          ∙ ap content (replay_world c t cached scenario w)

      obtain_from-Keeps :
          (b : CaptureBuilder) (r : AutoRunner) (path : FilePath)
          → Keeps content (obtain_from c supported f reader parse_address print t scenario b r path)
      unfolding obtain_from
      obtain_from-Keeps b r path = search (
        bind-Keeps, load-Keeps, capturing-Keeps, cached_anchor_is_current-Keeps, apart, if-Keeps,
        again-Keeps, recapture-Keeps,
      )

      pub obtain-Keeps :
          (b : CaptureBuilder) (r : AutoRunner)
          → Keeps content (obtain c supported f reader parse_address print t scenario b r)
      unfolding obtain
      obtain-Keeps b r w = grind (arith, obtain_from-Keeps, cold_capture-Keeps)
