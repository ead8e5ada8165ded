-- ===== src/Tests/Digest.antt =====
-- The properties of protocols, digests and differences at concrete snapshots.
use mathlib.Core.List.Perm
use kanatoko.Prelude.{◌≡◌, refl, sym, subst, ◌⊎◌, List, [], ◌∷◌, none, ok, arith, ok_of}
use kanatoko.Xdr.{LedgerSnapshot, Hash}
use kanatoko.Protocol.{allow_newer, check, executed_version, restore}
use kanatoko.Protocol.Window.{accepted_executes}
use kanatoko.Fixture.{Encoded, canonical_digest, sort_by_key}
use kanatoko.Fixture.Order.{canonical_digest-perm}
use kanatoko.Fixture.Preimage.{Fits}
use kanatoko.Fixture.Binding.{Collision, SameContents, InRange, canonical_digest-binding}
use kanatoko.Ledger.{Coverage, StateChange, snapshot_map, state_diff, update_coverage}
use kanatoko.Ledger.Diff.{LedgerMap}
use kanatoko.Ledger.Promote.{Promoted, state_diff-update_coverage}
use kanatoko.Tests.Toy.{toy_codec, bumped, account_9}
use kanatoko.Tests.Fork.{
  captured, captured_coverage, captured_map, captured_map_lem, captured-Covers, account_1, entry_1,
  account_id, opened,
}

accepted_executes_example : (executed_version 29 30 ≡ 29) × (restore 29 29 30 ≡ 30)
unfolding check
accepted_executes_example = accepted_executes 29 30 allow_newer refl

abbrev two : LedgerSnapshot
two = record captured {
  network_id =
      1 ∷ 2 ∷ 3 ∷ 4 ∷ 5 ∷ 6 ∷ 7 ∷ 8 ∷ 1 ∷ 2 ∷ 3 ∷ 4 ∷ 5 ∷ 6 ∷ 7 ∷ 8 ∷ 1 ∷ 2 ∷ 3 ∷ 4 ∷ 5 ∷ 6 ∷ 7 ∷ 8
      ∷ 1 ∷ 2 ∷ 3 ∷ 4 ∷ 5 ∷ 6 ∷ 7 ∷ 8 ∷ [];
  ledger_entries = (account_9, bumped, none) ∷ (account_1, entry_1, none) ∷ [];
}

abbrev two_encoded : List Encoded
two_encoded =
    record {
      key = account_id 9;
      entry = 7 ∷ 2 ∷ 0 ∷ 0 ∷ 0 ∷ 0 ∷ 0 ∷ 0 ∷ 0 ∷ 1 ∷ 9 ∷ 0 ∷ 0 ∷ 0 ∷ 0 ∷ 0 ∷ 0 ∷ 0 ∷ 1 ∷ 1 ∷ [];
      live_until = none;
    }
    ∷ record {
      key = account_id 1;
      entry = 5 ∷ 2 ∷ 0 ∷ 0 ∷ 0 ∷ 0 ∷ 0 ∷ 0 ∷ 0 ∷ 1 ∷ 1 ∷ 0 ∷ 0 ∷ 0 ∷ 0 ∷ 0 ∷ 0 ∷ 0 ∷ 1 ∷ 4 ∷ [];
      live_until = none;
    }
    ∷ []

two_digest : (d : Hash) × (canonical_digest toy_codec two ≡ ok d)
unfolding opened
two_digest = ok_of _ refl

canonical_digest-perm_example :
    canonical_digest toy_codec
      (record two { ledger_entries = (account_1, entry_1, none) ∷ (account_9, bumped, none) ∷ [] })
    ≡ ok two_digest.0
canonical_digest-perm_example =
    canonical_digest-perm toy_codec two
      ((account_1, entry_1, none) ∷ (account_9, bumped, none) ∷ []) two_digest.0 (Perm.swap _ _ _)
      two_digest.1

two-Fits : (xs : List Encoded) → xs ≡ two_encoded → Fits two (sort_by_key xs)
unfolding opened
two-Fits xs e =
    subst (λ z. Fits two (sort_by_key z)) (sym e)
      (record {
        protocol_version = omega arith;
        sequence_number = omega arith;
        timestamp = omega arith;
        network_id = refl;
        base_reserve = omega arith;
        min_persistent_entry_ttl = omega arith;
        min_temp_entry_ttl = omega arith;
        max_entry_ttl = omega arith;
        count = omega arith;
        entries = (
          record { key = omega arith; entry = omega arith; live_until = tt },
          (record { key = omega arith; entry = omega arith; live_until = tt }, tt),
        );
      })

two-InRange : InRange toy_codec two
unfolding opened
two-InRange xs e = two-Fits xs (cc (e))

canonical_digest-binding_example : Collision toy_codec ⊎ SameContents toy_codec two two
canonical_digest-binding_example =
    canonical_digest-binding toy_codec two two two_digest.0 two-InRange two-InRange two_digest.1
      two_digest.1

abbrev after_bump : LedgerSnapshot
after_bump = record captured {
  ledger_entries = (account_1, entry_1, none) ∷ (account_9, bumped, none) ∷ [];
}

after_bump_map : (m : LedgerMap) × (snapshot_map toy_codec after_bump ≡ ok m)
unfolding opened
after_bump_map = ok_of _ refl

state_diff-update_coverage_example :
    (changes : List StateChange) × (state_diff toy_codec captured after_bump ≡ ok changes)
    × (to : Coverage) × (update_coverage toy_codec captured_coverage changes ≡ (to, ok tt))
    × Promoted toy_codec captured_map after_bump_map.0 captured_coverage to
state_diff-update_coverage_example =
    state_diff-update_coverage toy_codec captured after_bump captured_map after_bump_map.0
      captured_coverage captured_map_lem after_bump_map.1 captured-Covers
