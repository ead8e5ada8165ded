-- ===== src/Capture/Bundle/Held.antt =====
-- The coverage that src/capture.rs makes of a bundle, and the digests that it checks.
use kanatoko.Prelude.{
  ◌≡◌, inl, inr, refl, ℕ, sym, ◌∙◌, ap, subst, List, [], ◌∷◌, Option, none, some, Bool, true, false,
  Result, ok, >>=-eq-ok, guard, In, arith, of_holds, holds, Option-cases, ◌==◌,
}
use kanatoko.Bytes.{Bytes, Bytes-discrete}
use kanatoko.BTree.{get, insert}
use kanatoko.BTree.Lookup.{get-insert_self, get-insert_ne}
use kanatoko.Xdr.{Codec, Hash, LedgerSnapshot, LedgerEntry, LedgerKey, SnapshotEntry}
use kanatoko.Ledger.{Coverage, LookupState, present, absent}
use kanatoko.Capture.{
  CaptureError, capture_id, capture_bundle_integrity, unsupported_capture_bundle_schema,
}
use kanatoko.Capture.Digest.{BundleDigests, canonical_bundle_digest, capture_bundle_schema_version}
use kanatoko.Capture.Hex.{hex, decode_hex_digest}
use kanatoko.Capture.Hex.RoundTrip.{decoded_form}
use kanatoko.Capture.Bundle.{
  CaptureBundle, add_present, add_absent, bundle_coverage, envelope_digests,
  validate_bundle_envelope, validate_bundle_metadata,
}

pub passed : (b : Bool) {u : Unit {0}} → guard b capture_bundle_integrity ≡ ok u → b ≡ true
passed true h = refl
passed false h = cc

of_ok : {A : Type 0} {a b : A} → ◌≡◌ {A = Result CaptureError A} (ok a) (ok b) → a ≡ b
of_ok h = cc

module _ (c : Codec) where
  kept :
      (id i : Bytes) (state new : LookupState) (coverage : Coverage)
      → get id coverage ≡ some state
      → get i coverage ≡ none
      → get id (insert i new coverage) ≡ some state
  kept id i state new coverage e n = elim (Bytes-discrete i id) [
    | yes q ↦ absurd (clash (get i coverage) n (subst (λ z. get z coverage ≡ some state) (sym q) e))
    | no q ↦ get-insert_ne i id new coverage q ∙ e
  ]
    where
      clash : (o : Option LookupState) → o ≡ none → o ≡ some state → ⊥
      clash o a b = cc

  present_step :
      (coverage result : Coverage) (key : LedgerKey) (entry : LedgerEntry) (live_until : Option ℕ)
      (es : List SnapshotEntry)
      → add_present c coverage ((key, entry, live_until) ∷ es) ≡ ok result
      → (id : Bytes) × (c.key_xdr (c.to_key entry) ≡ some id)
        × (get id coverage ≡ none)
        × (add_present c (insert id (present entry live_until) coverage) es ≡ ok result)
  unfolding add_present capture_id
  present_step coverage result key entry live_until es h =
      elim (Option-cases (c.key_xdr (c.to_key entry))) [
        | inl n ↦ absurd (ground (arith, h, n))
        | inr (id, k) ↦ elim (Option-cases (get id coverage)) [
          | inl g ↦ (id, k, g, ground (arith, h, k, g))
          | inr (state, g) ↦ absurd (ground (arith, h, k, g))
        ]
      ]

  present_keeps :
      (coverage result : Coverage) (es : List SnapshotEntry) (id : Bytes) (state : LookupState)
      → add_present c coverage es ≡ ok result
      → get id coverage ≡ some state
      → get id result ≡ some state
  unfolding add_present
  present_keeps coverage result [] id state h e =
      subst (λ z. get id z ≡ some state) (ground (arith, h)) e
  present_keeps coverage result ((key, entry, live_until) ∷ es) id state h e =
      let (i, k, n, rest) = present_step coverage result key entry live_until es h in
      present_keeps (insert i (present entry live_until) coverage) result es id state rest
        (kept id i state (present entry live_until) coverage e n)

  absent_step :
      (previous : Option Bytes) (coverage result : Coverage) (encoded : Bytes) (es : List Bytes)
      → add_absent c previous coverage (encoded ∷ es) ≡ ok result
      → (bytes : Bytes) × (get bytes coverage ≡ none)
        × (add_absent c (some bytes) (insert bytes absent coverage) es ≡ ok result)
  unfolding add_absent
  absent_step previous coverage result encoded es h =
      elim (Option-cases (c.base64_decode encoded)) [
        | inl n ↦ absurd (ground (arith, h, n))
        | inr (bytes, d) ↦ elim (Option-cases (get bytes coverage)) [
          | inl g ↦ (bytes, g, ground (arith, h, d, g))
          | inr (state, g) ↦ absurd (ground (arith, h, d, g))
        ]
      ]

  absent_keeps :
      (previous : Option Bytes) (coverage result : Coverage) (es : List Bytes) (id : Bytes)
      (state : LookupState)
      → add_absent c previous coverage es ≡ ok result
      → get id coverage ≡ some state
      → get id result ≡ some state
  unfolding add_absent
  absent_keeps previous coverage result [] id state h e =
      subst (λ z. get id z ≡ some state) (ground (arith, h)) e
  absent_keeps previous coverage result (encoded ∷ es) id state h e =
      let (i, n, rest) = absent_step previous coverage result encoded es h in
      absent_keeps (some i) (insert i absent coverage) result es id state rest
        (kept id i state absent coverage e n)

  -- Every entry is present in the coverage, under its own key.
  abbrev pub ArePresent : Coverage → List SnapshotEntry → Type 0
  ArePresent coverage es =
      (key : LedgerKey) (entry : LedgerEntry) (live_until : Option ℕ)
      → In (key, entry, live_until) es
      → (id : Bytes) × (c.key_xdr (c.to_key entry) ≡ some id)
        × (get id coverage ≡ some (present entry live_until))

  add_present-ArePresent :
      (coverage result : Coverage) (es : List SnapshotEntry)
      → add_present c coverage es ≡ ok result
      → ArePresent result es
  unfolding add_present
  add_present-ArePresent coverage result [] h key entry live_until m = absurd m
  add_present-ArePresent coverage result ((k0, e0, l0) ∷ es) h key entry live_until (inl q) =
      let (i, k, n, rest) = present_step coverage result k0 e0 l0 es h in
      subst
        (λ (x : SnapshotEntry).
          (id : Bytes) × (c.key_xdr (c.to_key x.1) ≡ some id)
          × (get id result ≡ some (present x.1 x.2)))
        q
        (
          i,
          k,
          present_keeps (insert i (present e0 l0) coverage) result es i (present e0 l0) rest
              (get-insert_self i (present e0 l0) coverage),
        )
  add_present-ArePresent coverage result ((k0, e0, l0) ∷ es) h key entry live_until (inr m) =
      let (i, k, n, rest) = present_step coverage result k0 e0 l0 es h in
      add_present-ArePresent (insert i (present e0 l0) coverage) result es rest key entry live_until
        m

  pub bundle_coverage-ArePresent :
      (snapshot : LedgerSnapshot) (known_absent : List Bytes) (coverage : Coverage)
      → bundle_coverage c snapshot known_absent ≡ ok coverage
      → ArePresent coverage snapshot.ledger_entries
  unfolding bundle_coverage
  bundle_coverage-ArePresent snapshot known_absent coverage h key entry live_until m =
      let (first, a, b) = >>=-eq-ok (add_present c [] snapshot.ledger_entries) _ h in
      let (id, k, g) =
        add_present-ArePresent [] first snapshot.ledger_entries a key entry live_until m in
      (id, k, absent_keeps none first coverage known_absent id (present entry live_until) b g)

  -- The bundle's digests are the forms of these, and of the digest of its other fields with them.
  abbrev pub HasDigests : CaptureBundle → Hash → Hash → Type 0
  HasDigests bundle ledger inventory =
      (bundle.ledger_digest ≡ hex ledger)
      × (bundle.inventory_digest ≡ hex inventory)
      × ((canonical : Hash) × (canonical_bundle_digest c bundle.known_absent bundle.report
              bundle.provenance ledger inventory
            ≡ ok canonical)
          × (bundle.canonical_digest ≡ hex canonical))

  envelope-HasDigests :
      (bundle : CaptureBundle) (d : BundleDigests)
      → envelope_digests c bundle
          (canonical_bundle_digest c bundle.known_absent bundle.report bundle.provenance)
        ≡ ok d
      → HasDigests bundle d.ledger d.inventory
  unfolding envelope_digests
  envelope-HasDigests bundle d h =
      let (ledger, a, h1) = >>=-eq-ok (decode_hex_digest bundle.ledger_digest) _ h in
      let (inventory, b, h2) = >>=-eq-ok (decode_hex_digest bundle.inventory_digest) _ h1 in
      let (actual, e, h3) = >>=-eq-ok (decode_hex_digest bundle.canonical_digest) _ h2 in
      let (expected, f, h4) =
        >>=-eq-ok
          (canonical_bundle_digest c bundle.known_absent bundle.report bundle.provenance ledger
            inventory)
          _ h3 in
      let (u, g, h5) =
        >>=-eq-ok (guard (holds (Bytes-discrete actual expected)) capture_bundle_integrity) _ h4 in
      let same =
        of_holds (Bytes-discrete actual expected)
          (passed (holds (Bytes-discrete actual expected)) g) in
      subst (λ (x : BundleDigests). HasDigests bundle x.ledger x.inventory) (of_ok h5)
        (
          decoded_form bundle.ledger_digest ledger a,
          decoded_form bundle.inventory_digest inventory b,
          (expected, f, decoded_form bundle.canonical_digest actual e ∙ ap hex same),
        )

  pub envelope_accepted :
      (bundle : CaptureBundle) (passphrase : Bytes) (d : BundleDigests)
      → validate_bundle_envelope c bundle passphrase ≡ ok d
      → HasDigests bundle d.ledger d.inventory
  unfolding validate_bundle_envelope
  envelope_accepted bundle passphrase d h =
      let (u, a, h1) =
        >>=-eq-ok
          (guard (bundle.schema_version == capture_bundle_schema_version)
            (unsupported_capture_bundle_schema bundle.schema_version capture_bundle_schema_version))
          _ h in
      let (v, b, h2) =
        >>=-eq-ok
          (validate_bundle_metadata bundle.ledger_snapshot bundle.report bundle.provenance
            passphrase)
          _ h1 in
      envelope-HasDigests bundle d h2
