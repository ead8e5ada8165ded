-- ===== src/Auto/Runner.antt =====
-- `AutoRunner` of src/auto.rs: one scenario, run by discovery and strict replay over a cache file.
pub mod Frame
pub mod Hits
pub mod Offline
pub mod Online
use kanatoko.Prelude.{
  ℕ, List, [], ◌∷◌, Option, none, some, Bool, true, false, Result, ok, err, if◌then◌else◌,
}
use kanatoko.Bytes.{Bytes}
use kanatoko.Xdr.{Codec, ScAddress, Hash}
use kanatoko.Protocol.{Policy, exact, allow_newer}
use kanatoko.Capture.{CaptureError, unknown_ledger_keys, capture_bundle_io, CapturedFixture}
use kanatoko.Capture.Rpc.{Transport, Stop, Io, Rpc, resume, returning, ◌>>=◌, ◌>>◌}
use kanatoko.Capture.Rpc
use kanatoko.Capture.Materialize.{CaptureBuilder}
use kanatoko.Capture.Discover.{Scenario}
use kanatoko.Capture.Replay.{replay}
use kanatoko.Capture.Builder.{
  rpc, capture_with_inventory, cached_anchor_is_current, mainnet_passphrase, testnet_passphrase,
}
use kanatoko.Capture.Builder
use kanatoko.Capture.Bundle.Files.{BundleReader}
use kanatoko.Capture.Storage.{FilePath, Files, Printer, checked, write_file, from_file_with_policy}
use kanatoko.Capture.Origin.{is_empty}
use kanatoko.Auto.Settings.{AutoRunner, is_newer, path_or_default, usable_cache}

pub data CacheStatus : Type 0 where
  disabled hit created refreshed : CacheStatus

pub record AutoRun : Type 0 where
  pub fixture : CapturedFixture
  pub cache_status : CacheStatus

pub data AutoRunError : Type 0 where
  capture : CaptureError → AutoRunError
  offline_cache_missing : FilePath → AutoRunError

-- How a run ends early: by an error, or by a panic.
pub data AutoStop : Type 0 where
  fails : AutoRunError → AutoStop
  panics : AutoStop

-- A stop of a capture as a stop of the run, and a file error.
abbrev pub stop_of : {A : Type 0} → Result Stop A → Result AutoStop A
stop_of (ok a) = ok a
stop_of (err (Rpc.fails e)) = err (fails (capture e))
stop_of (err Rpc.panics) = err panics

abbrev pub failure_of : {A : Type 0} → Result CaptureError A → Result AutoStop A
failure_of (ok a) = ok a
failure_of (err e) = err (fails (capture e))

-- What the cache or a capture has given, and whether it was replayed already.
pub data Obtained : Type 0 where
  replayed : CapturedFixture → Obtained
  captured : CapturedFixture → Obtained

module _ {World : Type 0} where
  abbrev pub capturing : {A : Type 0} → Rpc World A → Io World AutoStop A
  capturing m w = let (w', r) = m w in (w', stop_of r)

  abbrev pub filing : {A : Type 0} → Io World CaptureError A → Io World AutoStop A
  filing m w = let (w', r) = m w in (w', failure_of r)

  -- The answer to the replay of a cached fixture: a hit, another capture, or the error.
  abbrev pub after_replay :
      CapturedFixture
      → Io World AutoStop Obtained
      → World × Result Stop (Unit {0})
      → World × Result AutoStop Obtained
  after_replay cached again (w, ok u) = (w, ok (replayed cached))
  after_replay cached again (w, err (Rpc.fails (unknown_ledger_keys n))) = again w
  after_replay cached again (w, err (Rpc.fails e)) = (w, err (fails (capture e)))
  after_replay cached again (w, err Rpc.panics) = (w, err panics)

  module _ (c : Codec) (supported : ℕ) (f : Files World) (reader : BundleReader)
      (parse_address : Bytes → Option ScAddress) (print : Printer) where
    abbrev pub load : AutoRunner → FilePath → Io World AutoStop CapturedFixture
    load r path = filing (
        from_file_with_policy f c supported reader parse_address path r.network_passphrase
          r.protocol_policy)

    module _ (t : Transport World) (scenario : Scenario) where
      abbrev pub replaying : CapturedFixture → Io World AutoStop (Unit {0})
      replaying fixture = capturing (replay c t fixture scenario)

      -- The run of a cached fixture.
      unfoldable pub replay_cached : AutoRunner → FilePath → Io World AutoStop AutoRun
      unfolding from_file_with_policy replay
      replay_cached r path = do
        cached ← load r path
        replaying cached
        returning (record { fixture = cached; cache_status = hit })

      -- The offline branch of `run`.
      unfoldable pub run_offline : AutoRunner → Io World AutoStop AutoRun
      unfolding usable_cache replay_cached
      run_offline r w = elim (usable_cache r) [
        | none ↦ (w, err (fails (offline_cache_missing (path_or_default r.cache))))
        | some path ↦
            if f.exists path w
            then replay_cached r path w
            else (w, err (fails (offline_cache_missing path)))
      ]

      -- A capture that starts from the keys of the cached fixture.
      unfoldable pub recapture : CaptureBuilder → CapturedFixture → Io World AutoStop Obtained
      unfolding capture_with_inventory
      recapture b cached = do
        fixture ← capturing (capture_with_inventory c t supported b cached scenario)
        returning (captured fixture)

      unfoldable pub cold_capture : CaptureBuilder → Io World AutoStop Obtained
      unfolding Builder.capture
      cold_capture b = do
        fixture ← capturing (Builder.capture c t supported b scenario)
        returning (captured fixture)

      -- The fixture of a run: the cached one where its ledger is current and its replay asks for no
      -- unknown key, else one that is captured.
      unfoldable pub obtain_from :
          CaptureBuilder → AutoRunner → FilePath → Io World AutoStop Obtained
      unfolding from_file_with_policy cached_anchor_is_current recapture replay
      obtain_from b r path = do
        cached ← load r path
        current ← capturing (cached_anchor_is_current c t supported b cached)
        if current
            then (λ w. after_replay cached (recapture b cached) (replay c t cached scenario w))
            else recapture b cached

      unfoldable pub obtain : CaptureBuilder → AutoRunner → Io World AutoStop Obtained
      unfolding usable_cache obtain_from cold_capture
      obtain b r w = elim (usable_cache r) [
        | none ↦ cold_capture b w
        | some path ↦ if f.exists path w then obtain_from b r path w else cold_capture b w
      ]

      -- The write of the cache file, with its directory made first.
      unfoldable pub make_parent : Option Bytes → Io World CaptureError (Unit {0})
      make_parent none w = (w, ok tt)
      make_parent (some parent) w =
          if is_empty parent then (w, ok tt) else checked (f.create_dir_all parent w)

      unfoldable pub save : CapturedFixture → FilePath → Io World CaptureError (Unit {0})
      unfolding make_parent write_file
      save fixture path = do make_parent path.parent; write_file f c supported print fixture path

      -- What follows the strict replay of a captured fixture.
      unfoldable pub store : AutoRunner → Bool → CapturedFixture → Io World AutoStop AutoRun
      unfolding save
      store r cache_existed fixture w = elim (r.cache) [
        | none ↦ (w, ok (record { fixture = fixture; cache_status = disabled }))
        | some path ↦
            (do
              filing (save fixture path)
              returning (record {
                fixture = fixture;
                cache_status = if cache_existed then refreshed else created;
              }))
              w
      ]

      unfoldable pub conclude : AutoRunner → Bool → Obtained → Io World AutoStop AutoRun
      unfolding store replay
      conclude r cache_existed (replayed cached) =
          returning (record { fixture = cached; cache_status = hit })
      conclude r cache_existed (captured fixture) = do
        replaying fixture
        store r cache_existed fixture

      unfoldable pub cache_exists : AutoRunner → World → Bool
      cache_exists r w = elim (r.cache) [ none ↦ false | some path ↦ f.exists path w ]

      unfoldable pub run_online : CaptureBuilder → AutoRunner → Io World AutoStop AutoRun
      unfolding obtain conclude cache_exists
      run_online b r w = resume (conclude r (cache_exists r w)) (obtain b r w)

    -- The builder that `run` makes; its transport is of the runner's URL and rate limit.
    unfoldable pub builder_of : AutoRunner → Result CaptureError CaptureBuilder
    unfolding rpc is_newer Builder.allow_newer_protocol
    builder_of r = elim (rpc r.rpc_url r.network_passphrase) [
      | err e ↦ err e
      | ok b ↦ ok (if is_newer r.protocol_policy then Builder.allow_newer_protocol b else b)
    ]

    -- `AutoRunner::run`; `connect` makes the HTTP transport of a URL and a rate limit.
    unfoldable pub run :
        (Bytes → ℕ → Transport World) → AutoRunner → Scenario → Io World AutoStop AutoRun
    unfolding run_offline run_online builder_of
    run connect r scenario w =
        if r.offline
        then run_offline (connect r.rpc_url r.rpc_rate_limit) scenario r w
        else elim (builder_of r) [
          | err e ↦ (w, err (fails (capture e)))
          | ok b ↦ run_online (connect r.rpc_url r.rpc_rate_limit) scenario b r w
        ]
