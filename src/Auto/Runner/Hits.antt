-- ===== src/Auto/Runner/Hits.antt =====
-- A cache hit of `AutoRunner::run` of src/auto.rs is a strict replay of the cached fixture.
use kanatoko.Prelude.{
  ℕ, ◌≡◌, refl, subst, Option, none, some, Bool, true, false, Result, ok, err, arith, if◌then◌else◌,
}
use kanatoko.Bytes.{Bytes}
use kanatoko.Xdr.{Codec, ScAddress}
use kanatoko.Capture.{CapturedFixture}
use kanatoko.Capture.Rpc.{Transport, Stop, Io, resume, returning, ◌>>=◌}
use kanatoko.Capture.Rpc
use kanatoko.Capture.Materialize.{CaptureBuilder}
use kanatoko.Capture.Discover.{Scenario}
use kanatoko.Capture.Replay.{replay}
use kanatoko.Capture.Bundle.Files.{BundleReader}
use kanatoko.Capture.Storage.{FilePath, Files, Printer}
use kanatoko.Auto.Settings.{AutoRunner, usable_cache}
use kanatoko.Auto.Runner.{
  AutoStop, Obtained, replayed, captured, after_replay, recapture, cold_capture, obtain_from,
  obtain,
}

hit_injective :
    {a b : CapturedFixture}
    → ◌≡◌ {A = Result AutoStop Obtained} (ok (replayed a)) (ok (replayed b))
    → a ≡ b
hit_injective e = cc

module _ {World : Type 0} (c : Codec) (t : Transport World) (scenario : Scenario) where
  -- A strict replay of the fixture succeeded.
  abbrev pub Replayed : CapturedFixture → Type 0
  Replayed fixture = (w : World) × (v : World) × (replay c t fixture scenario w ≡ (v, ok tt))

  module _ (supported : ℕ) (f : Files World) (reader : BundleReader)
      (parse_address : Bytes → Option ScAddress) (print : Printer) where
    -- A step that gives a replayed fixture only where its replay succeeded.
    abbrev IsHonest : Io World AutoStop Obtained → Type 0
    IsHonest m =
        (w : World) (fixture : CapturedFixture) → (m w).1 ≡ ok (replayed fixture) → Replayed fixture

    resume-IsHonest :
        {A : Type 0} (next : A → Io World AutoStop Obtained) (x : World × Result AutoStop A)
        → ((a : A) → IsHonest (next a))
        → (fixture : CapturedFixture) → (resume next x).1 ≡ ok (replayed fixture)
        → Replayed fixture
    resume-IsHonest next (w, ok a) k fixture e = k a w fixture e
    resume-IsHonest next (w, err stop) k fixture e = cc

    bind-IsHonest :
        {A : Type 0} (m : Io World AutoStop A) (next : A → Io World AutoStop Obtained)
        → ((a : A) → IsHonest (next a))
        → IsHonest (m >>= next)
    bind-IsHonest m next k w fixture e = resume-IsHonest next (m w) k fixture e

    if-IsHonest :
        (b : Bool) (m n : Io World AutoStop Obtained)
        → IsHonest m
        → IsHonest n
        → IsHonest (if b then m else n)
    if-IsHonest true m n p q = p
    if-IsHonest false m n p q = q

    captured-IsHonest :
        (x : World × Result AutoStop CapturedFixture) (fixture : CapturedFixture)
        → (resume (λ a. returning (captured a)) x).1 ≡ ok (replayed fixture)
        → Replayed fixture
    captured-IsHonest (w, ok a) fixture e = cc
    captured-IsHonest (w, err stop) fixture e = cc

    recapture-IsHonest :
        (b : CaptureBuilder) (cached : CapturedFixture)
        → IsHonest (recapture c supported f reader parse_address print t scenario b cached)
    unfolding recapture
    recapture-IsHonest b cached w fixture e = captured-IsHonest _ fixture e

    cold-IsHonest :
        (b : CaptureBuilder)
        → IsHonest (cold_capture c supported f reader parse_address print t scenario b)
    unfolding cold_capture
    cold-IsHonest b w fixture e = captured-IsHonest _ fixture e

    replay-IsHonest :
        (cached : CapturedFixture) (again : Io World AutoStop Obtained) (w : World)
        (x : World × Result Stop (Unit {0}))
        → replay c t cached scenario w ≡ x
        → IsHonest again
        → (fixture : CapturedFixture) → (after_replay cached again x).1 ≡ ok (replayed fixture)
        → Replayed fixture
    replay-IsHonest cached again w (v, ok u) h k fixture e =
        (w, v, subst (λ z. replay c t z scenario w ≡ (v, ok u)) (hit_injective e) h)
    replay-IsHonest cached again w (v, err Rpc.panics) h k fixture e = cc
    replay-IsHonest cached again w (v, err (Rpc.fails e')) h k fixture e =
        ground (arith, k v fixture)

    again-IsHonest :
        (b : CaptureBuilder) (cached : CapturedFixture)
        → IsHonest (λ w.
          after_replay cached
            (recapture c supported f reader parse_address print t scenario b cached)
            (replay c t cached scenario w))
    again-IsHonest b cached w =
        replay-IsHonest cached
          (recapture c supported f reader parse_address print t scenario b cached) w
          (replay c t cached scenario w) refl (recapture-IsHonest b cached)

    from-IsHonest :
        (b : CaptureBuilder) (r : AutoRunner) (path : FilePath)
        → IsHonest (obtain_from c supported f reader parse_address print t scenario b r path)
    unfolding obtain_from
    from-IsHonest b r path = search (bind-IsHonest, if-IsHonest, again-IsHonest, recapture-IsHonest)

    either-IsHonest :
        (test : Bool) (x y : World × Result AutoStop Obtained) {fixture : CapturedFixture}
        → (x.1 ≡ ok (replayed fixture) → Replayed fixture)
        → (y.1 ≡ ok (replayed fixture) → Replayed fixture)
        → (if test then x else y).1 ≡ ok (replayed fixture)
        → Replayed fixture
    either-IsHonest true x y p q = p
    either-IsHonest false x y p q = q

    choice-IsHonest :
        (cache : Option FilePath) (w : World) (m : FilePath → Io World AutoStop Obtained)
        (n : Io World AutoStop Obtained)
        → ((path : FilePath) → IsHonest (m path))
        → IsHonest n
        → (fixture : CapturedFixture)
        → (◌≡◌ {A = Result AutoStop Obtained}
            (elim cache as (λ x. World × Result AutoStop Obtained) [
              | none ↦ n w
              | some path ↦ if f.exists path w then m path w else n w
            ]).1
            (ok (replayed fixture)))
        → Replayed fixture
    choice-IsHonest none w m n p q fixture = q w fixture
    choice-IsHonest (some path) w m n p q fixture =
        either-IsHonest (f.exists path w) (m path w) (n w) (p path w fixture) (q w fixture)

    -- The fixture that a run takes from the cache without a capture was replayed.
    pub obtain-IsHonest :
        (b : CaptureBuilder) (r : AutoRunner)
        → IsHonest (obtain c supported f reader parse_address print t scenario b r)
    unfolding obtain
    obtain-IsHonest b r w fixture =
        choice-IsHonest (usable_cache r) w
          (obtain_from c supported f reader parse_address print t scenario b r)
          (cold_capture c supported f reader parse_address print t scenario b) (from-IsHonest b r)
          (cold-IsHonest b) fixture
