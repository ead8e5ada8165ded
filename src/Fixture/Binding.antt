-- ===== src/Fixture/Binding.antt =====
-- The digest of a snapshot commits to its contents.
use mathlib.Core.List.{Perm}
use mathlib.Core.List.Perm
use kanatoko.Prelude.{◌≡◌, sym, ◌∙◌, subst, ◌≢◌, ◌⊎◌, inl, inr, List, ok}
use kanatoko.Bytes.{Bytes, Bytes-discrete}
use kanatoko.Xdr.{Codec, LedgerSnapshot, Hash}
use kanatoko.Fixture.{Encoded, encode_entries, sort_by_key, preimage, canonical_digest}
use kanatoko.Fixture.Order.{canonical_digest_inv, sort_by_key-perm}
use kanatoko.Fixture.Preimage.{Fits, SameHeader, preimage-injective}

module _ (c : Codec) where
  -- Two different texts with one hash.
  abbrev pub Collision : Type 0
  Collision = (a : Bytes) × (b : Bytes) × (a ≢ b) × (c.sha256 a ≡ c.sha256 b)

  -- The snapshots agree in all header fields, and their entries encode to the same encodings, listed in
  -- some order.
  abbrev pub SameContents : LedgerSnapshot → LedgerSnapshot → Type 0
  SameContents s t =
      SameHeader s t
      × ((xs : List Encoded) × (ys : List Encoded) × (encode_entries c 0 s.ledger_entries ≡ ok xs)
          × (encode_entries c 0 t.ledger_entries ≡ ok ys)
          × Perm xs ys)

  -- The integers and lengths of a snapshot are those of the machine types.
  abbrev pub InRange : LedgerSnapshot → Type 0
  InRange s =
      (xs : List Encoded) → encode_entries c 0 s.ledger_entries ≡ ok xs → Fits s (sort_by_key xs)

  perm_of_sorted : (xs ys : List Encoded) → sort_by_key xs ≡ sort_by_key ys → Perm xs ys
  perm_of_sorted xs ys e =
      Perm.trans (Perm.symm ∣ sort_by_key-perm xs ∣₁)
        (subst (λ z. Perm z ys) (sym e) ∣ sort_by_key-perm ys ∣₁)

  -- Two snapshots of machine-sized values with the same canonical digest have the same contents, or
  -- their hash inputs are a collision of the hash function.
  pub canonical_digest-binding :
      (s t : LedgerSnapshot) (d : Hash)
      → InRange s
      → InRange t
      → canonical_digest c s ≡ ok d
      → canonical_digest c t ≡ ok d
      → Collision ⊎ SameContents s t
  canonical_digest-binding s t d f g p q =
      let (xs, e, r, u) = canonical_digest_inv c s d p in
      let (ys, e', r', u') = canonical_digest_inv c t d q in
      elim (Bytes-discrete (preimage s (sort_by_key xs)) (preimage t (sort_by_key ys))) [
        | no n ↦ inl (preimage s (sort_by_key xs), preimage t (sort_by_key ys), n, sym u ∙ u')
        | yes same ↦
            let both =
              preimage-injective s t (sort_by_key xs) (sort_by_key ys) (f xs e) (g ys e') same in
            inr (both.0, (xs, ys, e, e', perm_of_sorted xs ys both.1))
      ]
