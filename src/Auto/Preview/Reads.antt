-- ===== src/Auto/Preview/Reads.antt =====
-- `forward_preview_reads` of src/auto.rs: what the source knows after the reads of a preview.
use kanatoko.Prelude.{
  ℕ, ◌+◌, ◌-◌, ◌≤◌, ◌≡◌, inl, inr, refl, ap, subst, List, [], ◌∷◌, Option, none, some, Bool, true,
  false, ok, ◌>>=◌, guard, if◌then◌else◌, In, arith, ◌||◌, if_pos, Bool-cases,
}
use kanatoko.Bytes.{Bytes, Bytes-discrete}
use kanatoko.BTree.{get, insert}
use kanatoko.BTree.Lookup.{get-insert, get-insert_self, get-insert_ne}
use kanatoko.Strict.Source.{is_covered}
use kanatoko.Strict.{reject_unknown}
use kanatoko.Xdr.{Codec, LedgerKey}
use kanatoko.Ledger.{host_inspection, Coverage, LookupState, is_nonce}
use kanatoko.Host.{Answer}
use kanatoko.Capture.{owns}
use kanatoko.Capture.Rpc.{Transport}
use kanatoko.Capture.Source.{TrackingSource, get_tracking}
use kanatoko.Auto.Preview.{has_failed, observe_all, forwarded, forward_stored}

-- Does the source know the key: is it local, or its state cached?
unfoldable pub is_known : Codec → TrackingSource → LedgerKey → Bool
unfolding owns get is_covered
is_known c s key =
    owns s.local key
    || elim (c.key_xdr key) [ none ↦ false | some id ↦ is_covered (get id s.cache) ]

covered-insert :
    (k j : Bytes) (v : LookupState) (m : Coverage)
    → is_covered (get j m) ≡ true
    → is_covered (get j (insert k v m)) ≡ true
unfolding is_covered
covered-insert k j v m h = elim (Bytes-discrete k j) [
  | yes e ↦ rw (get-insert k j v m) (rw (if_pos (Bytes-discrete k j) e (some v) (get j m)) refl)
  | no n ↦ rw (get-insert_ne k j v m n) h
]

covered-insert_self :
    (k : Bytes) (v : LookupState) (m : Coverage) → is_covered (get k (insert k v m)) ≡ true
unfolding is_covered
covered-insert_self k v m = rw (get-insert_self k v m) refl

covered_some : (o : Option LookupState) (state : LookupState) → o ≡ some state → is_covered o ≡ true
unfolding is_covered
covered_some o state e = ground (arith, e)

module _ {World : Type 0} (c : Codec) (t : Transport World) where
  -- What a lookup leaves of a source: what it knows, and no fewer reads.
  record Grows (s s' : TrackingSource) : Type 0 where
    knows : (key : LedgerKey) → is_known c s key ≡ true → is_known c s' key ≡ true
    rpc_reads : s.rpc_reads ≤ s'.rpc_reads

  get_tracking-Grows :
      (s : TrackingSource) (key : LedgerKey) (w : World) → Grows s (get_tracking c t s key w).1
  unfolding get_tracking is_known
  get_tracking-Grows s key w = record {
    knows = λ k h. grind (arith, h, covered-insert);
    rpc_reads = ground arith;
  }

  get_tracking-is_known :
      (s : TrackingSource) (key : LedgerKey) (w : World)
      → has_failed (get_tracking c t s key w).2 ≡ false
      → is_known c (get_tracking c t s key w).1 key ≡ true
  unfolding get_tracking is_known
  get_tracking-is_known s key w e = grind (arith, e, covered-insert_self, covered_some)

  Grows-trans : (a b d : TrackingSource) → Grows a b → Grows b d → Grows a d
  Grows-trans a b d x y = record {
    knows = λ k h. y.knows k (x.knows k h);
    rpc_reads = omega (arith, x.rpc_reads, y.rpc_reads);
  }

  failed_stays :
      (keys : List LedgerKey) (s : TrackingSource) (w : World)
      → (observe_all c t keys true s w).2 ≡ true
  unfolding observe_all
  failed_stays [] s w = refl
  failed_stays (key ∷ keys) s w = elim (Bool-cases (is_nonce key)) [
    | inl e ↦ rw e (failed_stays keys s w)
    | inr e ↦ let g = get_tracking c t s key w in grind (arith, e, failed_stays keys g.1 g.0)
  ]

  observe_all-Grows :
      (keys : List LedgerKey) (failed : Bool) (s : TrackingSource) (w : World)
      → Grows s (observe_all c t keys failed s w).1
  unfolding observe_all
  observe_all-Grows [] failed s w = record { knows = λ k h. h; rpc_reads = omega arith }
  observe_all-Grows (key ∷ keys) failed s w =
      let g = get_tracking c t s key w in
      let a = observe_all-Grows keys failed s w in
      let b =
        Grows-trans s g.1 _ (get_tracking-Grows s key w)
          (observe_all-Grows keys (if has_failed g.2 then true else failed) g.1 g.0) in
      elim (Bool-cases (is_nonce key)) [ inl e ↦ rw e a | inr e ↦ rw e b ]

  abbrev pub Answered : List LedgerKey → TrackingSource → Type 0
  Answered keys s = (key : LedgerKey) → In key keys → is_nonce key ≡ false → is_known c s key ≡ true

  later :
      (keys : List LedgerKey) (failed : Bool) (a : Answer) (s : TrackingSource) (w : World)
      → (observe_all c t keys (if has_failed a then true else failed) s w).2 ≡ false
      → has_failed a ≡ false
  later keys failed none s w e = absurd (ground (arith, e, failed_stays keys s w))
  later keys failed (some x) s w e = refl

  observe_all-Answered :
      (keys : List LedgerKey) (failed : Bool) (s : TrackingSource) (w : World)
      → (observe_all c t keys failed s w).2 ≡ false
      → Answered keys (observe_all c t keys failed s w).1
  unfolding observe_all
  observe_all-Answered [] failed s w e = λ key m n. absurd m
  observe_all-Answered (key ∷ keys) failed s w e =
      let g = get_tracking c t s key w in
      let next = if has_failed g.2 then true else failed in
      elim (Bool-cases (is_nonce key)) [
        | inl nonce ↦
            let all = observe_all-Answered keys failed s w (ground (arith, e, nonce)) in
            rw nonce (λ k m n. elim m [
              | inl same ↦ absurd (ground (arith, n, nonce, ap is_nonce same))
              | inr later ↦ all k later n
            ])
        | inr other ↦
            let clean : (observe_all c t keys next g.1 g.0).2 ≡ false = ground (arith, e, other) in
            let all = observe_all-Answered keys next g.1 g.0 clean in
            let head = get_tracking-is_known s key w (later keys failed g.2 g.1 g.0 clean) in
            let grown = observe_all-Grows keys next g.1 g.0 in
            rw other (λ k m n. elim m [
              | inl same ↦
                  subst (λ z. is_known c (observe_all c t keys next g.1 g.0).1 z ≡ true) same
                    (grown.knows key head)
              | inr later ↦ all k later n
            ])
      ]

  -- What the forwarded reads of a source have done.
  abbrev pub IsForwarded : List LedgerKey → TrackingSource → TrackingSource → ℕ → Type 0
  IsForwarded keys s s' reads =
      Answered keys s' × (s'.unknown ≡ []) × (reads + s.rpc_reads ≡ s'.rpc_reads)

  decided :
      (u : List Bytes) (failed : Bool) (n reads : ℕ)
      → (reject_unknown u >>= λ z.
          guard (if failed then false else true) host_inspection >>= λ y. ok n)
        ≡ ok reads
      → (u ≡ []) × (failed ≡ false) × (reads ≡ n)
  unfolding reject_unknown
  decided [] false n reads e = (refl, refl, ground (arith, e))
  decided [] true n reads e = cc
  decided (k ∷ ks) failed n reads e = cc

  forwarded-inv :
      (n reads : ℕ) (s : TrackingSource) (failed : Bool)
      → forwarded c t n s failed ≡ ok reads
      → (s.unknown ≡ []) × (failed ≡ false) × (reads ≡ s.rpc_reads - n)
  unfolding forwarded
  forwarded-inv n reads s failed e = decided s.unknown failed (s.rpc_reads - n) reads e

  pub forward_stored-IsForwarded :
      (keys : List LedgerKey) (s : TrackingSource) (w : World) (reads : ℕ)
      → (forward_stored c t (some keys) s w).2 ≡ ok reads
      → IsForwarded keys s (observe_all c t keys false s w).1 reads
  unfolding forward_stored
  forward_stored-IsForwarded keys s w reads e =
      let o = observe_all c t keys false s w in
      let (none_unknown, clean, count) = forwarded-inv s.rpc_reads reads o.1 o.2 e in
      let grown = (observe_all-Grows keys false s w).rpc_reads in
      (observe_all-Answered keys false s w clean, none_unknown, omega (arith, count, grown))
