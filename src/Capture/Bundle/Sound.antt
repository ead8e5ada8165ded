-- ===== src/Capture/Bundle/Sound.antt =====
-- What a bundle that src/capture.rs accepts has in it.
use kanatoko.Prelude.{
  ℕ, ◌≡◌, refl, true, Result, ok, err, is_ok, arith, ◌>>=◌, ◌>>◌, >>=-eq-ok, holds, guard, map_err,
  subst, sym, of_holds,
}
use kanatoko.Bytes.{Bytes, Bytes-discrete}
use kanatoko.Xdr.{Codec, Hash, LedgerSnapshot}
use kanatoko.Protocol.{Policy}
use kanatoko.Fixture.{FrozenFixture, canonical_digest, from_snapshot_with_policy}
use kanatoko.Ledger.{Coverage}
use kanatoko.Capture.{CaptureError, CapturedFixture, fixture, capture_bundle_integrity}
use kanatoko.Capture.Validate.{validate_coverage}
use kanatoko.Capture.Closure.{ensure_executable_closure_present}
use kanatoko.Capture.Validate.Valid.{AreValid, coverage-AreValid}
use kanatoko.Capture.Closure.Holds.{IsExecutableClosed, closure-IsExecutableClosed}
use kanatoko.Capture.Digest.{BundleReport, BundleDigests, inventory_digest}
use kanatoko.Capture.Discover.{count_present}
use kanatoko.Capture.Bundle.{
  CaptureBundle, validate_bundle_envelope, validate_bundle_coverage, bundle_coverage,
}
use kanatoko.Capture.Bundle.Held.{
  HasDigests, ArePresent, envelope_accepted, bundle_coverage-ArePresent, passed,
}
use kanatoko.Capture.Bundle.Files.{from_bundle, restored}

-- A fixture that a bundle describes: its digests are those of its contents and in the bundle, all
-- entries of its snapshot are in its coverage, and its coverage is valid and holds its executables.
pub record IsFaithful (c : Codec) (bundle : CaptureBundle) (f : CapturedFixture) : Type 0 where
  pub snapshot : f.fixture.snapshot ≡ bundle.ledger_snapshot
  pub ledger_digest : canonical_digest c f.fixture.snapshot ≡ ok f.fixture.ledger_digest
  pub inventory_digest : inventory_digest c f.coverage ≡ ok f.report.inventory_digest
  pub digests : HasDigests c bundle f.fixture.ledger_digest f.report.inventory_digest
  pub entries : ArePresent c f.coverage f.fixture.snapshot.ledger_entries
  pub valid :
      AreValid c f.fixture.snapshot.sequence_number f.fixture.snapshot.max_entry_ttl f.coverage
  pub closed : IsExecutableClosed c f.coverage
  pub present_entries : f.report.present_entries ≡ count_present f.coverage

unmapped : {E F A : Type 0} (f : E → F) (r : Result E A) {a : A} → map_err f r ≡ ok a → r ≡ ok a
unmapped f (ok a) h = cc
unmapped f (err e) h = cc

of_ok : {A : Type 0} {a b : A} → ◌≡◌ {A = Result CaptureError A} (ok a) (ok b) → a ≡ b
of_ok h = cc (h)

module _ (c : Codec) where
  ok_unit : (r : Result CaptureError (Unit {0})) → is_ok r ≡ true → r ≡ ok tt
  ok_unit (ok u) h = refl
  ok_unit (err e) h = cc

  coverage_accepted :
      (coverage : Coverage) (report : BundleReport) (expected : Hash) (sequence max_ttl : ℕ)
      (counts : ℕ × ℕ)
      → validate_bundle_coverage c coverage report expected sequence max_ttl ≡ ok counts
      → (is_ok (validate_coverage c coverage sequence max_ttl) ≡ true)
        × (is_ok (ensure_executable_closure_present c coverage) ≡ true)
        × (inventory_digest c coverage ≡ ok expected)
        × (counts.0 ≡ count_present coverage)
  unfolding validate_bundle_coverage
  coverage_accepted coverage report expected sequence max_ttl counts h = ground arith

  frozen_accepted :
      (supported : ℕ) (s : LedgerSnapshot) (passphrase : Bytes) (policy : Policy)
      (f : FrozenFixture)
      → from_snapshot_with_policy c supported s passphrase policy ≡ ok f
      → (f.snapshot ≡ s) × (canonical_digest c f.snapshot ≡ ok f.ledger_digest)
  unfolding from_snapshot_with_policy
  frozen_accepted supported s passphrase policy f h = ground arith

  -- What the frozen snapshot, the coverage and the counts of an accepted bundle come to.
  assembled :
      (supported : ℕ) (bundle : CaptureBundle) (passphrase : Bytes) (policy : Policy)
      (digests : BundleDigests) (frozen : FrozenFixture) (coverage : Coverage) (counts : ℕ × ℕ)
      (f : CapturedFixture)
      → from_snapshot_with_policy c supported bundle.ledger_snapshot passphrase policy ≡ ok frozen
      → validate_bundle_coverage c coverage bundle.report digests.inventory
          frozen.snapshot.sequence_number frozen.snapshot.max_entry_ttl
        ≡ ok counts
      → HasDigests c bundle digests.ledger digests.inventory
      → frozen.ledger_digest ≡ digests.ledger
      → ArePresent c coverage frozen.snapshot.ledger_entries
      → restored c supported frozen coverage bundle digests.inventory counts ≡ f
      → IsFaithful c bundle f
  assembled supported bundle passphrase policy digests frozen coverage counts f a v d q i e =
      let x = frozen_accepted supported bundle.ledger_snapshot passphrase policy frozen a in
      let y =
        coverage_accepted coverage bundle.report digests.inventory frozen.snapshot.sequence_number
          frozen.snapshot.max_entry_ttl counts v in
      subst (IsFaithful c bundle) e (record {
        snapshot = x.0;
        digests = subst (λ z. HasDigests c bundle z digests.inventory) (sym q) d;
        entries = i;
        ledger_digest = x.1;
        inventory_digest = y.2;
        valid =
            coverage-AreValid c frozen.snapshot.sequence_number frozen.snapshot.max_entry_ttl
              coverage
              (ok_unit
                (validate_coverage c coverage frozen.snapshot.sequence_number
                  frozen.snapshot.max_entry_ttl)
                y.0);
        closed =
            closure-IsExecutableClosed c coverage
              (ok_unit (ensure_executable_closure_present c coverage) y.1);
        present_entries = y.3;
      })

  -- A fixture that is read from a bundle has the bundle's snapshot; its ledger and inventory digests
  -- are those of its contents, and the bundle has their hexadecimal forms and that of the digest of its
  -- other fields with them. All entries of the snapshot are in the coverage; the coverage's present
  -- entries are under their own keys, code under its own hash, not modified after the ledger and live;
  -- the code of each contract instance has a present entry, directly or by an executable reference; and
  -- the count of present entries is the coverage's.
  pub from_bundle-IsFaithful :
      (supported : ℕ) (bundle : CaptureBundle) (passphrase : Bytes) (policy : Policy)
      (f : CapturedFixture)
      → from_bundle c supported bundle passphrase policy ≡ ok f
      → IsFaithful c bundle f
  unfolding from_bundle
  from_bundle-IsFaithful supported bundle passphrase policy f h =
      let a =
        >>=-eq-ok (validate_bundle_envelope c bundle passphrase)
          (λ digests.
            map_err fixture
              (from_snapshot_with_policy c supported bundle.ledger_snapshot passphrase policy)
            >>= λ frozen.
                guard (holds (Bytes-discrete frozen.ledger_digest digests.ledger))
                  capture_bundle_integrity
                >> (bundle_coverage c frozen.snapshot bundle.known_absent >>= λ coverage.
                    validate_bundle_coverage c coverage bundle.report digests.inventory
                      frozen.snapshot.sequence_number frozen.snapshot.max_entry_ttl
                    >>= λ counts.
                        ok (restored c supported frozen coverage bundle digests.inventory counts)))
          h in
      let d =
        >>=-eq-ok
          (map_err fixture
            (from_snapshot_with_policy c supported bundle.ledger_snapshot passphrase policy))
          (λ frozen.
            guard (holds (Bytes-discrete frozen.ledger_digest a.0.ledger)) capture_bundle_integrity
            >> (bundle_coverage c frozen.snapshot bundle.known_absent >>= λ coverage.
                validate_bundle_coverage c coverage bundle.report a.0.inventory
                  frozen.snapshot.sequence_number frozen.snapshot.max_entry_ttl
                >>= λ counts.
                    ok (restored c supported frozen coverage bundle a.0.inventory counts)))
          a.2 in
      let g =
        >>=-eq-ok
          (guard (holds (Bytes-discrete d.0.ledger_digest a.0.ledger)) capture_bundle_integrity)
          (λ u. bundle_coverage c d.0.snapshot bundle.known_absent >>= λ coverage.
            validate_bundle_coverage c coverage bundle.report a.0.inventory
              d.0.snapshot.sequence_number d.0.snapshot.max_entry_ttl
            >>= λ counts. ok (restored c supported d.0 coverage bundle a.0.inventory counts))
          d.2 in
      let k =
        >>=-eq-ok (bundle_coverage c d.0.snapshot bundle.known_absent)
          (λ coverage.
            validate_bundle_coverage c coverage bundle.report a.0.inventory
              d.0.snapshot.sequence_number d.0.snapshot.max_entry_ttl
            >>= λ counts. ok (restored c supported d.0 coverage bundle a.0.inventory counts))
          g.2 in
      let v =
        >>=-eq-ok
          (validate_bundle_coverage c k.0 bundle.report a.0.inventory d.0.snapshot.sequence_number
            d.0.snapshot.max_entry_ttl)
          (λ counts. ok (restored c supported d.0 k.0 bundle a.0.inventory counts)) k.2 in
      assembled supported bundle passphrase policy a.0 d.0 k.0 v.0 f
        (unmapped fixture
          (from_snapshot_with_policy c supported bundle.ledger_snapshot passphrase policy) d.1)
        v.1 (envelope_accepted c bundle passphrase a.0 a.1)
        (of_holds (Bytes-discrete d.0.ledger_digest a.0.ledger)
          (passed (holds (Bytes-discrete d.0.ledger_digest a.0.ledger)) g.1))
        (bundle_coverage-ArePresent c d.0.snapshot bundle.known_absent k.0 k.1) (of_ok v.2)
