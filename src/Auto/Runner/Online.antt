-- ===== src/Auto/Runner/Online.antt =====
-- What an online run of `AutoRunner::run` of src/auto.rs does to the cache and the other files.
use kanatoko.Prelude.{
  ℕ, ◌≡◌, ◌≢◌, ◌⊎◌, inl, inr, refl, sym, ◌∙◌, ap, subst, Option, none, some, Bool, true, false,
  Result, ok, err, arith, if◌then◌else◌,
}
use kanatoko.Bytes.{Bytes}
use kanatoko.Xdr.{Codec, ScAddress}
use kanatoko.Capture.{CaptureError, CapturedFixture}
use kanatoko.Capture.Rpc.{Transport, Stop, Io, Rpc, resume, returning, ◌>>=◌}
use kanatoko.Capture.Rpc
use kanatoko.Capture.Frame.{Keeps, IsApart}
use kanatoko.Capture.Materialize.{CaptureBuilder}
use kanatoko.Capture.Discover.{Scenario}
use kanatoko.Capture.Replay.{replay}
use kanatoko.Capture.Bundle.Files.{BundleReader}
use kanatoko.Capture.Storage.{FilePath, Files, Printer, bundle_bytes, write_file, atomic_write}
use kanatoko.Capture.Storage.Atomic.{Contents, IsFileSystem, atomic_write-IsAtomic}
use kanatoko.Auto.Settings.{AutoRunner}
use kanatoko.Auto.Runner.{
  CacheStatus, disabled, hit, created, refreshed, AutoRun, AutoStop, Obtained, replayed, captured,
  make_parent, save, store, conclude, obtain, run_online, cache_exists, stop_of, failure_of,
}
use kanatoko.Auto.Runner.Hits.{Replayed, obtain-IsHonest}
use kanatoko.Auto.Runner.Frame.{replay_world, obtain-Keeps}

either : {A B C : Type 0} → A ⊎ B → (B → C) → A ⊎ C
either (inl a) go = inl a
either (inr b) go = inr (go b)

either_after : {B : Type 0} {a b d : Option Bytes} → (a ≡ b) ⊎ B → b ≡ d → (a ≡ d) ⊎ B
either_after (inl e) k = inl (e ∙ k)
either_after (inr b) k = inr b

some_injective : {p q : FilePath} → ◌≡◌ {A = Option FilePath} (some p) (some q) → p ≡ q
some_injective e = cc

pub ok_injective : {a b : AutoRun} → ◌≡◌ {A = Result AutoStop AutoRun} (ok a) (ok b) → a ≡ b
ok_injective e = cc

obtained_injective : {a b : Obtained} → ◌≡◌ {A = Result AutoStop Obtained} (ok a) (ok b) → a ≡ b
obtained_injective e = cc

module _ {World : Type 0} (content : Contents World) (c : Codec) (supported : ℕ) (print : Printer)
    (reader : BundleReader) (parse_address : Bytes → Option ScAddress) (t : Transport World)
    (scenario : Scenario) where
  -- The file holds the bundle of the fixture.
  abbrev pub Holds : CapturedFixture → Option Bytes → Type 0
  Holds fixture file =
      (bytes : Bytes) × (bundle_bytes c supported print fixture ≡ ok bytes) × (file ≡ some bytes)

  -- What the status of a run says of the files.
  unfoldable pub IsStored : Option FilePath → World → World → CapturedFixture → CacheStatus → Type 0
  IsStored cache w v fixture disabled = (cache ≡ none) × (content v ≡ content w)
  IsStored cache w v fixture hit = content v ≡ content w
  IsStored cache w v fixture created =
      (path : FilePath) × (cache ≡ some path) × Holds fixture (content v path)
  IsStored cache w v fixture refreshed =
      (path : FilePath) × (cache ≡ some path) × Holds fixture (content v path)

  -- The cache file is as it was, or is the whole bundle of a fixture that was replayed; every other
  -- file that was there is as it was; and a run that succeeds returns a fixture that was replayed,
  -- with the status that says what became of the files.
  pub record IsSafe (cache : Option FilePath) (w : World) (x : World × Result AutoStop AutoRun)
      : Type 0 where
    pub cached :
        (path : FilePath)
        → cache ≡ some path
        → (content x.0 path ≡ content w path)
          ⊎ ((fixture : CapturedFixture) × Replayed c t scenario fixture
              × Holds fixture (content x.0 path))
    pub others :
        (q : FilePath) (old : Bytes)
        → cache ≢ some q
        → content w q ≡ some old
        → content x.0 q ≡ some old
    pub success :
        (a : AutoRun)
        → x.1 ≡ ok a
        → Replayed c t scenario a.fixture × IsStored cache w x.0 a.fixture a.cache_status

  pub untouched-IsSafe :
      (cache : Option FilePath) (w v : World) (stop : AutoStop)
      → content v ≡ content w
      → IsSafe cache w (v, err stop)
  untouched-IsSafe cache w v stop k = record {
    cached = λ path e. inl (λ i. k i path);
    others = λ q old n e. (λ i. k i q) ∙ e;
    success = λ a e. cc;
  }

  module _ (f : Files World) (l : IsFileSystem content f) where
    make_parent-Keeps :
        (parent : Option Bytes)
        → Keeps content (make_parent c supported f reader parse_address print t scenario parent)
    unfolding make_parent
    make_parent-Keeps none w = refl
    make_parent-Keeps (some parent) w =
        let k : content (f.create_dir_all parent w).0 ≡ content w =
          λ i q. l.create_dir_all parent w q i in
        ground (arith, k)

    -- What a write of the fixture's bundle may leave.
    IsSaved : CapturedFixture → FilePath → World → World × Result CaptureError (Unit {0}) → Type 0
    IsSaved fixture path w (v, r) =
        ((content v path ≡ content w path) ⊎ Holds fixture (content v path))
        × (r ≡ ok tt → Holds fixture (content v path))
        × ((q : FilePath) (old : Bytes)
            → q ≢ path
            → content w q ≡ some old
            → content v q ≡ some old)

    written-IsSaved :
        (fixture : CapturedFixture) (path : FilePath) (w : World) (r : Result CaptureError Bytes)
        → bundle_bytes c supported print fixture ≡ r
        → IsSaved fixture path w (resume (atomic_write f path) (w, r))
    unfolding IsSaved
    written-IsSaved fixture path w (err e) h = (inl refl, (λ x. cc), λ q old n d. d)
    written-IsSaved fixture path w (ok bytes) h =
        let (a, b, d) = atomic_write-IsAtomic content f l path bytes w in
        (either a (λ e. (bytes, h, e)), (λ x. (bytes, h, b x)), d)

    parent-IsSaved :
        (fixture : CapturedFixture) (path : FilePath) (w : World)
        (x : World × Result CaptureError (Unit {0}))
        → content x.0 ≡ content w
        → IsSaved fixture path w (resume (λ u. write_file f c supported print fixture path) x)
    unfolding IsSaved write_file
    parent-IsSaved fixture path w (v, err e) k =
        (inl (λ i. k i path), (λ x. cc), λ q old n d. (λ i. k i q) ∙ d)
    parent-IsSaved fixture path w (v, ok u) k =
        let (a, b, d) =
          written-IsSaved fixture path v (bundle_bytes c supported print fixture) refl in
        (either_after a (λ i. k i path), b, λ q old n e. d q old n ((λ i. k i q) ∙ e))

    save-IsSaved :
        (fixture : CapturedFixture) (path : FilePath) (w : World)
        → IsSaved fixture path w
            (save c supported f reader parse_address print t scenario fixture path w)
    unfolding save
    save-IsSaved fixture path w =
        parent-IsSaved fixture path w
          (make_parent c supported f reader parse_address print t scenario path.parent w)
          (make_parent-Keeps path.parent w)

    status-IsStored :
        (existed : Bool) (cache : Option FilePath) (w v : World) (fixture : CapturedFixture)
        (path : FilePath)
        → cache ≡ some path
        → Holds fixture (content v path)
        → IsStored cache w v fixture (if existed then refreshed else created)
    unfolding IsStored
    status-IsStored true cache w v fixture path e h = (path, e, h)
    status-IsStored false cache w v fixture path e h = (path, e, h)

    cached_at :
        (fixture : CapturedFixture) (path : FilePath) (w u v : World)
        → content u ≡ content w
        → Replayed c t scenario fixture
        → (content v path ≡ content u path) ⊎ Holds fixture (content v path)
        → (q : FilePath) → ◌≡◌ {A = Option FilePath} (some path) (some q)
        → (content v q ≡ content w q)
          ⊎ ((fixture : CapturedFixture) × Replayed c t scenario fixture
              × Holds fixture (content v q))
    cached_at fixture path w u v k p a q e =
        subst
          (λ z.
            (content v z ≡ content w z)
            ⊎ ((fixture : CapturedFixture) × Replayed c t scenario fixture
                × Holds fixture (content v z)))
          (some_injective e) (either (either_after a (λ i. k i path)) (λ h. (fixture, p, h)))

    -- What a run returns after the cache file was written.
    stored_result : Bool → CapturedFixture → Unit {0} → Io World AutoStop AutoRun
    stored_result existed fixture u =
        returning
          (record { fixture = fixture; cache_status = if existed then refreshed else created })

    stored-IsSafe :
        (existed : Bool) (fixture : CapturedFixture) (path : FilePath) (w u : World)
        (x : World × Result CaptureError (Unit {0}))
        → content u ≡ content w
        → Replayed c t scenario fixture
        → IsSaved fixture path u x
        → IsSafe (some path) w (resume (stored_result existed fixture) (x.0, failure_of x.1))
    unfolding IsSaved stored_result
    stored-IsSafe existed fixture path w u (v, err e) k p (a, b, d) = record {
      cached = cached_at fixture path w u v k p a;
      others = λ q old n e. d q old (λ same. n (ap some (sym same))) ((λ i. k i q) ∙ e);
      success = λ r e. cc;
    }
    stored-IsSafe existed fixture path w u (v, ok done) k p (a, b, d) = record {
      cached = cached_at fixture path w u v k p a;
      others = λ q old n e. d q old (λ same. n (ap some (sym same))) ((λ i. k i q) ∙ e);
      success = λ r e.
          subst
            (λ z.
              Replayed c t scenario z.fixture × IsStored (some path) w v z.fixture z.cache_status)
            (ok_injective e)
            (p, status-IsStored existed (some path) w v fixture path refl (b refl));
    }

    store-IsSafe :
        (cache : Option FilePath) (r : AutoRunner) (existed : Bool) (fixture : CapturedFixture)
        (w u : World)
        → content u ≡ content w
        → Replayed c t scenario fixture
        → IsSafe cache w (
            store c supported f reader parse_address print t scenario
              (record r { cache = cache })
              existed
              fixture
              u)
    unfolding store IsStored stored_result
    store-IsSafe none r existed fixture w u k p = record {
      cached = λ q e. cc;
      others = λ q old n e. (λ i. k i q) ∙ e;
      success = λ a e.
          subst (λ z. Replayed c t scenario z.fixture × IsStored none w u z.fixture z.cache_status)
            (ok_injective e) (p, (refl, k));
    }
    store-IsSafe (some path) r existed fixture w u k p =
        stored-IsSafe existed fixture path w u
          (save c supported f reader parse_address print t scenario fixture path u) k p
          (save-IsSaved fixture path u)

    -- What follows the capture: its strict replay, then the write.
    replayed-IsSafe :
        (r : AutoRunner) (existed : Bool) (fixture : CapturedFixture) (w u : World)
        (x : World × Result Stop (Unit {0}))
        → content x.0 ≡ content w
        → replay c t fixture scenario u ≡ x
        → IsSafe r.cache w (
            resume
              (λ a. store c supported f reader parse_address print t scenario r existed fixture)
              (x.0, stop_of x.1))
    replayed-IsSafe r existed fixture w u (v, ok a) k e =
        store-IsSafe r.cache r existed fixture w v k (u, v, e)
    replayed-IsSafe r existed fixture w u (v, err (Rpc.fails e)) k h =
        untouched-IsSafe r.cache w v _ k
    replayed-IsSafe r existed fixture w u (v, err Rpc.panics) k h = untouched-IsSafe r.cache w v _ k

    concluded-IsSafe :
        (r : AutoRunner) (existed : Bool) (w : World) (x : World × Result AutoStop Obtained)
        → content x.0 ≡ content w
        → ((fixture : CapturedFixture)
            → x.1 ≡ ok (replayed fixture)
            → Replayed c t scenario fixture)
        → IsSafe r.cache w
            (resume (conclude c supported f reader parse_address print t scenario r existed) x)
    unfolding conclude IsStored
    concluded-IsSafe r existed w (v, err stop) k p = untouched-IsSafe r.cache w v stop k
    concluded-IsSafe r existed w (v, ok (captured fixture)) k p =
        replayed-IsSafe r existed fixture w v (replay c t fixture scenario v)
          (ap content (replay_world c t fixture scenario v) ∙ k) refl
    concluded-IsSafe r existed w (v, ok (replayed fixture)) k p = record {
      cached = λ q e. inl (λ i. k i q);
      others = λ q old n e. (λ i. k i q) ∙ e;
      success = λ a e.
          subst
            (λ z. Replayed c t scenario z.fixture × IsStored r.cache w v z.fixture z.cache_status)
            (ok_injective e) (p fixture refl, k);
    }

    -- An online run, whatever its settings, leaves in the cache file its old content or the whole
    -- bundle of a fixture whose strict replay succeeded, and every other file as it was. A run that
    -- succeeds returns a fixture whose strict replay succeeded; a hit has changed no file, and a
    -- run that created or refreshed the cache has left the returned fixture's bundle in it.
    pub run_online-IsSafe :
        IsApart content t
        → (b : CaptureBuilder) (r : AutoRunner) (w : World)
        → IsSafe r.cache w (run_online c supported f reader parse_address print t scenario b r w)
    unfolding run_online
    run_online-IsSafe apart b r w =
        concluded-IsSafe r (cache_exists c supported f reader parse_address print t scenario r w) w
          (obtain c supported f reader parse_address print t scenario b r w)
          (obtain-Keeps content f l c supported reader parse_address print t apart scenario b r w)
          (obtain-IsHonest c t scenario supported f reader parse_address print b r w)
