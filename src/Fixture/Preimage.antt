-- ===== src/Fixture/Preimage.antt =====
-- The bytes under the ledger digest determine what they encode.
use kanatoko.Prelude.{
  ℕ, ◌<◌, ◌^◌, ◌≡◌, refl, sym, ◌∙◌, ap, List, [], ◌∷◌, ◌++◌, Option, none, some, append_assoc,
  length, arith,
}
use kanatoko.Bytes.{Bytes}
use kanatoko.Bytes.Encode.{field, append_cancel, be_bytes_cancel, field_cancel}
use kanatoko.Xdr.{LedgerSnapshot}
use kanatoko.Fixture.{
  Encoded, live_until_bytes, encoded_bytes, entries_bytes, preimage, ledger_digest_domain,
}

abbrev pub FitsU32 : Option ℕ → Type 0
FitsU32 none = Unit {0}
FitsU32 (some n) = n < 2 ^ 32

-- The ranges of the machine integers and the lengths of byte strings, per entry and for a snapshot.
pub record FitsEntry (x : Encoded) : Type 0 where
  pub key : length x.key < 2 ^ 64
  pub entry : length x.entry < 2 ^ 64
  pub live_until : FitsU32 x.live_until

abbrev pub FitsEntries : List Encoded → Type 0
FitsEntries [] = Unit {0}
FitsEntries (x ∷ xs) = FitsEntry x × FitsEntries xs

pub record Fits (s : LedgerSnapshot) (xs : List Encoded) : Type 0 where
  pub protocol_version : s.protocol_version < 2 ^ 32
  pub sequence_number : s.sequence_number < 2 ^ 32
  pub timestamp : s.timestamp < 2 ^ 64
  pub network_id : length s.network_id ≡ 32
  pub base_reserve : s.base_reserve < 2 ^ 32
  pub min_persistent_entry_ttl : s.min_persistent_entry_ttl < 2 ^ 32
  pub min_temp_entry_ttl : s.min_temp_entry_ttl < 2 ^ 32
  pub max_entry_ttl : s.max_entry_ttl < 2 ^ 32
  pub count : length xs < 2 ^ 64
  pub entries : FitsEntries xs

-- All that the digest covers besides the entries.
pub record SameHeader (s t : LedgerSnapshot) : Type 0 where
  pub protocol_version : s.protocol_version ≡ t.protocol_version
  pub sequence_number : s.sequence_number ≡ t.sequence_number
  pub timestamp : s.timestamp ≡ t.timestamp
  pub network_id : s.network_id ≡ t.network_id
  pub base_reserve : s.base_reserve ≡ t.base_reserve
  pub min_persistent_entry_ttl : s.min_persistent_entry_ttl ≡ t.min_persistent_entry_ttl
  pub min_temp_entry_ttl : s.min_temp_entry_ttl ≡ t.min_temp_entry_ttl
  pub max_entry_ttl : s.max_entry_ttl ≡ t.max_entry_ttl

live_until_cancel :
    (a b : Option ℕ) (r s : Bytes)
    → FitsU32 a
    → FitsU32 b
    → live_until_bytes a ++ r ≡ live_until_bytes b ++ s
    → (a ≡ b) × (r ≡ s)
live_until_cancel none none r s f g h = (refl, cc)
live_until_cancel none (some n) r s f g h = absurd (ground arith)
live_until_cancel (some n) none r s f g h = absurd (ground arith)
live_until_cancel (some n) (some m) r s f g h =
    let t : (n ≡ m) × (r ≡ s) = be_bytes_cancel 4 n m r s f g (cc) in (ap some t.0, t.1)

encoded_cancel :
    (x y : Encoded) (r s : Bytes)
    → FitsEntry x
    → FitsEntry y
    → encoded_bytes x ++ r ≡ encoded_bytes y ++ s
    → (x ≡ y) × (r ≡ s)
encoded_cancel x y r s f g h =
    let k : (x.key ≡ y.key)
        × ((field x.entry ++ live_until_bytes x.live_until) ++ r
            ≡ (field y.entry ++ live_until_bytes y.live_until) ++ s) =
      field_cancel x.key y.key _ _ f.key g.key
        (sym (append_assoc (field x.key) _ r) ∙ h ∙ append_assoc (field y.key) _ s) in
    let e : (x.entry ≡ y.entry)
        × (live_until_bytes x.live_until ++ r ≡ live_until_bytes y.live_until ++ s) =
      field_cancel x.entry y.entry _ _ f.entry g.entry
        (sym (append_assoc (field x.entry) _ r) ∙ k.1 ∙ append_assoc (field y.entry) _ s) in
    let l : (x.live_until ≡ y.live_until) × (r ≡ s) =
      live_until_cancel x.live_until y.live_until r s f.live_until g.live_until e.1 in
    (λ i. record { key = k.0 i; entry = e.0 i; live_until = l.0 i }, l.1)

entries_cancel :
    (xs ys : List Encoded)
    → FitsEntries xs
    → FitsEntries ys
    → length xs ≡ length ys
    → entries_bytes xs ≡ entries_bytes ys
    → xs ≡ ys
entries_cancel [] [] f g l h = refl
entries_cancel [] (y ∷ ys) f g l h = absurd (omega arith)
entries_cancel (x ∷ xs) [] f g l h = absurd (omega arith)
entries_cancel (x ∷ xs) (y ∷ ys) f g l h =
    let t : (x ≡ y) × (entries_bytes xs ≡ entries_bytes ys) =
      encoded_cancel x y (entries_bytes xs) (entries_bytes ys) f.0 g.0 h in
    cc (t.0, entries_cancel xs ys f.1 g.1 (omega arith) t.1)

-- Two snapshots, with entries in digest order, that are hashed from the same bytes have the same
-- header fields and the same encoded entries, if their integers and lengths are in range.
pub preimage-injective :
    (s t : LedgerSnapshot) (xs ys : List Encoded)
    → Fits s xs
    → Fits t ys
    → preimage s xs ≡ preimage t ys
    → SameHeader s t × (xs ≡ ys)
unfolding preimage
preimage-injective s t xs ys f g h =
    let p0 = append_cancel ledger_digest_domain ledger_digest_domain _ _ refl h in
    let p1 = be_bytes_cancel 4 _ _ _ _ f.protocol_version g.protocol_version p0.1 in
    let p2 = be_bytes_cancel 4 _ _ _ _ f.sequence_number g.sequence_number p1.1 in
    let p3 = be_bytes_cancel 8 _ _ _ _ f.timestamp g.timestamp p2.1 in
    let p4 = append_cancel s.network_id t.network_id _ _ (f.network_id ∙ sym g.network_id) p3.1 in
    let p5 = be_bytes_cancel 4 _ _ _ _ f.base_reserve g.base_reserve p4.1 in
    let p6 = be_bytes_cancel 4 _ _ _ _ f.min_persistent_entry_ttl g.min_persistent_entry_ttl p5.1 in
    let p7 = be_bytes_cancel 4 _ _ _ _ f.min_temp_entry_ttl g.min_temp_entry_ttl p6.1 in
    let p8 = be_bytes_cancel 4 _ _ _ _ f.max_entry_ttl g.max_entry_ttl p7.1 in
    let p9 = be_bytes_cancel 8 _ _ _ _ f.count g.count p8.1 in
    (
      record {
        protocol_version = p1.0;
        sequence_number = p2.0;
        timestamp = p3.0;
        network_id = p4.0;
        base_reserve = p5.0;
        min_persistent_entry_ttl = p6.0;
        min_temp_entry_ttl = p7.0;
        max_entry_ttl = p8.0;
      },
      entries_cancel xs ys f.entries g.entries p9.0 p9.1,
    )
