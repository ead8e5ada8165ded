-- ===== src/Auto/Runner/Offline.antt =====
-- An offline run of `AutoRunner::run` of src/auto.rs, and the runs of any settings.
use kanatoko.Prelude.{
  ℕ, ◌≡◌, refl, sym, ◌∙◌, inl, ap, subst, Option, none, some, Bool, true, false, Result, ok, err,
  arith, if◌then◌else◌,
}
use kanatoko.Bytes.{Bytes}
use kanatoko.Xdr.{Codec, ScAddress, LedgerKey, LedgerSnapshot}
use kanatoko.Capture.{CaptureError, no_local, CapturedFixture}
use kanatoko.Capture.Rpc.{Transport, Stop, Io, resume, returning, ◌>>=◌, ◌>>◌}
use kanatoko.Capture.Rpc
use kanatoko.Capture.Frame.{IsApart}
use kanatoko.Capture.Materialize.{CaptureBuilder}
use kanatoko.Capture.Discover.{Scenario}
use kanatoko.Capture.Source.{
  new_source, TrackingSource, get_tracking, Script, read, mark_address, mark_code, finish,
  run_script, own_address, own_code,
}
use kanatoko.Capture.Replay.{replay, replay_run, replay_state}
use kanatoko.Capture.Replay.Offline.{get_tracking-IsOffline}
use kanatoko.Capture.Bundle.Files.{BundleReader}
use kanatoko.Capture.Storage.{FilePath, Files, Printer}
use kanatoko.Capture.Storage.Atomic.{Contents, IsFileSystem}
use kanatoko.Auto.Settings.{AutoRunner, usable_cache, path_or_default}
use kanatoko.Auto.Runner.{
  AutoRun, AutoStop, fails, offline_cache_missing, hit, load, replaying, replay_cached, run_offline,
  run, builder_of, stop_of, capturing, capture, run_online,
}
use kanatoko.Auto.Runner.Hits.{Replayed}
use kanatoko.Auto.Runner.Frame.{replay_world, load-Keeps}
use kanatoko.Auto.Runner.Online.{
  IsSafe, IsStored, untouched-IsSafe, ok_injective, run_online-IsSafe,
}

-- A source without a transport answers alike whatever the transport is.
module _ {World : Type 0} (c : Codec) (t t' : Transport World) where
  same_lookup :
      (s : TrackingSource) (key : LedgerKey) (w : World)
      → s.online ≡ false
      → get_tracking c t s key w ≡ get_tracking c t' s key w
  unfolding get_tracking
  same_lookup s key w h = grind (arith, h)

  same_script :
      (script : Script) (s : TrackingSource) (w : World)
      → s.online ≡ false
      → run_script c t script s w ≡ run_script c t' script s w
  unfolding run_script
  same_script (read key next) s w h =
      ap (λ g. run_script c t (next g.2) g.1 g.0) (same_lookup s key w h)
      ∙ same_script (next (get_tracking c t' s key w).2) (get_tracking c t' s key w).1
          (get_tracking c t' s key w).0 (get_tracking-IsOffline c t' s key w h).offline
  same_script (mark_address a rest) s w h = same_script rest (own_address a s) w h
  same_script (mark_code a rest) s w h = same_script rest (own_code a s) w h
  same_script (finish p k) s w h = refl

  same_run :
      (fixture : CapturedFixture) (scenario : Scenario) (snapshot : LedgerSnapshot) (w : World)
      → replay_run c t fixture scenario snapshot w ≡ replay_run c t' fixture scenario snapshot w
  unfolding replay_run new_source
  same_run fixture scenario snapshot w =
      same_script (scenario (replay_state fixture).ledger_info snapshot)
        (new_source fixture.coverage false no_local
          (replay_state fixture).ledger_info.protocol_version)
        w refl

  same_replay :
      (fixture : CapturedFixture) (scenario : Scenario) (w : World)
      → replay c t fixture scenario w ≡ replay c t' fixture scenario w
  unfolding replay
  same_replay fixture scenario w = grind (arith, same_run fixture scenario)

module _ {World : Type 0} (content : Contents World) (f : Files World) (l : IsFileSystem content f)
    (c : Codec) (supported : ℕ) (reader : BundleReader) (parse_address : Bytes → Option ScAddress)
    (print : Printer) (scenario : Scenario) where
  -- A run by a cached fixture, and what follows where there is none.
  choice :
      {A : Type 0} (P : A → Type 0) (cache : Option FilePath) (test : FilePath → Bool) (absent : A)
      (found missing : FilePath → A)
      → P absent
      → ((path : FilePath) → P (found path))
      → ((path : FilePath) → P (missing path))
      → P (elim cache as (λ x. A) [
        | none ↦ absent
        | some path ↦ if test path then found path else missing path
      ])
  choice P none test absent found missing a b d = a
  choice P (some path) test absent found missing a b d = branch (test path)
    where
      branch : (b : Bool) → P (if b then found path else missing path)
      branch true = b path
      branch false = d path

  same_cached :
      (t t' : Transport World) (r : AutoRunner) (path : FilePath) (w : World)
      → replay_cached c supported f reader parse_address print t scenario r path w
        ≡ replay_cached c supported f reader parse_address print t' scenario r path w
  unfolding replay_cached
  same_cached t t' r path w i =
      resume
        (λ cached.
          capturing {World = World} (λ u. same_replay c t t' cached scenario u i)
          >> returning (record { fixture = cached; cache_status = hit }))
        (load c supported f reader parse_address print r path w)

  -- No file changed, and a run that succeeds is a hit on a fixture whose strict replay succeeded.
  abbrev pub IsHit : Transport World → World → World × Result AutoStop AutoRun → Type 0
  IsHit t w x =
      (content x.0 ≡ content w)
      × ((a : AutoRun) → x.1 ≡ ok a → (a.cache_status ≡ hit) × Replayed c t scenario a.fixture)

  stopped-IsHit :
      (t : Transport World) (w v : World) (stop : AutoStop)
      → content v ≡ content w
      → IsHit t w (v, err stop)
  stopped-IsHit t w v stop k = (k, λ a e. cc)

  hit_of : CapturedFixture → Unit {0} → Io World AutoStop AutoRun
  hit_of fixture u = returning (record { fixture = fixture; cache_status = hit })

  -- What follows the load of the cached fixture.
  replayed-IsHit :
      (t : Transport World) (fixture : CapturedFixture) (w u : World)
      (x : World × Result Stop (Unit {0}))
      → content x.0 ≡ content w
      → replay c t fixture scenario u ≡ x
      → IsHit t w (resume (hit_of fixture) (x.0, stop_of x.1))
  unfolding hit_of
  replayed-IsHit t fixture w u (v, err (Rpc.fails e)) k h = stopped-IsHit t w v _ k
  replayed-IsHit t fixture w u (v, err Rpc.panics) k h = stopped-IsHit t w v _ k
  replayed-IsHit t fixture w u (v, ok a) k h = (
    k,
    λ a e.
        subst (λ z. (z.cache_status ≡ hit) × Replayed c t scenario z.fixture) (ok_injective e)
          (refl, (u, v, h)),
  )

  loaded-IsHit :
      (t : Transport World) (w : World) (x : World × Result AutoStop CapturedFixture)
      → content x.0 ≡ content w
      → IsHit t w (
          resume
            (λ cached.
              replaying c supported f reader parse_address print t scenario cached
              >>= hit_of cached)
            x)
  loaded-IsHit t w (v, err stop) k = stopped-IsHit t w v stop k
  loaded-IsHit t w (v, ok fixture) k =
      replayed-IsHit t fixture w v (replay c t fixture scenario v)
        (ap content (replay_world c t fixture scenario v) ∙ k) refl

  cached-IsHit :
      (t : Transport World) (r : AutoRunner) (path : FilePath) (w : World)
      → IsHit t w (replay_cached c supported f reader parse_address print t scenario r path w)
  unfolding replay_cached hit_of
  cached-IsHit t r path w =
      loaded-IsHit t w (load c supported f reader parse_address print r path w)
        (load-Keeps content f l c supported reader parse_address print r path w)

  offline-IsHit :
      (t : Transport World) (r : AutoRunner) (w : World)
      → IsHit t w (run_offline c supported f reader parse_address print t scenario r w)
  unfolding run_offline
  offline-IsHit t r w =
      choice (IsHit t w) (usable_cache r) (λ path. f.exists path w)
        (w, err (fails (offline_cache_missing (path_or_default r.cache))))
        (λ path. replay_cached c supported f reader parse_address print t scenario r path w)
        (λ path. (w, err (fails (offline_cache_missing path)))) (stopped-IsHit t w w _ refl)
        (λ path. cached-IsHit t r path w) (λ path. stopped-IsHit t w w _ refl)

  same_offline :
      (t t' : Transport World) (r : AutoRunner) (w : World)
      → run_offline c supported f reader parse_address print t scenario r w
        ≡ run_offline c supported f reader parse_address print t' scenario r w
  unfolding run_offline
  same_offline t t' r w = grind (arith, same_cached t t' r)

  hit-IsSafe :
      (t : Transport World) (cache : Option FilePath) (w : World)
      (x : World × Result AutoStop AutoRun)
      → IsHit t w x
      → IsSafe content c supported print reader parse_address t scenario cache w x
  unfolding IsStored
  hit-IsSafe t cache w x (k, h) = record {
    cached = λ q e. inl (λ i. k i q);
    others = λ q old n e. (λ i. k i q) ∙ e;
    success = λ a e. (
      (h a e).1,
      subst
          (IsStored content c supported print reader parse_address t scenario cache w x.0 a.fixture)
          (sym ((h a e).0)) k,
    );
  }

  module _ (connect : Bytes → ℕ → Transport World) where
    online-IsSafe :
        (t : Transport World)
        → IsApart content t
        → (r : AutoRunner) (b : Result CaptureError CaptureBuilder) (w : World)
        → IsSafe content c supported print reader parse_address t scenario r.cache w
            (elim b as (λ x. World × Result AutoStop AutoRun) [
              | err e ↦ (w, err (fails (capture e)))
              | ok b ↦ run_online c supported f reader parse_address print t scenario b r w
            ])
    online-IsSafe t apart r (err e) w =
        untouched-IsSafe content c supported print reader parse_address t scenario r.cache w w _
          refl
    online-IsSafe t apart r (ok b) w =
        run_online-IsSafe content c supported print reader parse_address t scenario f l apart b r w

    either-IsSafe :
        (t : Transport World) (r : AutoRunner) (w : World) (test : Bool)
        (x y : World × Result AutoStop AutoRun)
        → IsSafe content c supported print reader parse_address t scenario r.cache w x
        → IsSafe content c supported print reader parse_address t scenario r.cache w y
        → IsSafe content c supported print reader parse_address t scenario r.cache w
            (if test then x else y)
    either-IsSafe t r w true x y p q = p
    either-IsSafe t r w false x y p q = q

    -- On a file system whose calls do what they document, and with transports that change no file, a
    -- run of any settings leaves in the cache file its old content or the whole bundle of a fixture
    -- whose strict replay succeeded, and every other file as it was. A run that succeeds returns a
    -- fixture whose strict replay succeeded; a hit has changed no file, and a run that created or
    -- refreshed the cache has left the returned fixture's bundle in it.
    pub run-IsSafe :
        ((url : Bytes) (rate : ℕ) → IsApart content (connect url rate))
        → (r : AutoRunner) (w : World)
        → IsSafe content c supported print reader parse_address
            (connect r.rpc_url r.rpc_rate_limit)
            scenario
            r.cache
            w
            (run c supported f reader parse_address print connect r scenario w)
    unfolding run
    run-IsSafe apart r w =
        either-IsSafe (connect r.rpc_url r.rpc_rate_limit) r w r.offline _ _
          (hit-IsSafe (connect r.rpc_url r.rpc_rate_limit) r.cache w _
            (offline-IsHit (connect r.rpc_url r.rpc_rate_limit) r w))
          (online-IsSafe (connect r.rpc_url r.rpc_rate_limit) (apart r.rpc_url r.rpc_rate_limit) r
            (builder_of c supported f reader parse_address print r) w)

    -- On such a file system an offline run is the same whatever the transport is, changes no file, and succeeds only with a
    -- hit on a fixture whose strict replay succeeded.
    pub run-IsHit :
        (connect' : Bytes → ℕ → Transport World) (r : AutoRunner) (w : World)
        → r.offline ≡ true
        → (run c supported f reader parse_address print connect r scenario w
            ≡ run c supported f reader parse_address print connect' r scenario w)
          × IsHit
              (connect r.rpc_url r.rpc_rate_limit)
              w
              (run c supported f reader parse_address print connect r scenario w)
    unfolding run
    run-IsHit connect' r w h = rw h (
      same_offline (connect r.rpc_url r.rpc_rate_limit) (connect' r.rpc_url r.rpc_rate_limit) r w,
      offline-IsHit (connect r.rpc_url r.rpc_rate_limit) r w,
    )
