-- ===== src/Fixture/Order.antt =====
-- The canonical digest forgets the order in which a snapshot lists its entries.
use Prim.Native.Nat.{Ordering}
use mathlib.Core.List.{Permᴰ, Perm}
use mathlib.Core.List.Permᴰ
use kanatoko.Prelude.{
  ℕ, suc, ◌≡◌, refl, sym, ◌∙◌, ap, ap₂, List, [], ◌∷◌, arith, ◌≢◌, ok, err, >>=-eq-ok, ◌>>=◌, subst,
  ite, inl, inr, ∥∥₁_elim,
}
use kanatoko.Bytes.{Bytes, Bytes-discrete, cmp, ◌≺◌}
use kanatoko.Bytes.Order.{eq_of_cmp, lt_of_gt, gt_of_lt, ≺_trans, ≺_irrefl, cmp-cases}
use kanatoko.Xdr.{Codec, SnapshotEntry, LedgerSnapshot, Hash}
use kanatoko.Fixture.{
  Encoded, encode_entry, encode_entries, insert_sorted, sort_by_key, reject_duplicates, preimage,
  canonical_digest, FixtureError,
}

-- No entry of the list has the key `k`; no two entries have one key.
abbrev pub Fresh : Bytes → List Encoded → Type 0
Fresh k [] = Unit {0}
Fresh k (x ∷ xs) = (¬ (k ≡ x.key)) × Fresh k xs

abbrev pub Distinct : List Encoded → Type 0
Distinct [] = Unit {0}
Distinct (x ∷ xs) = Fresh x.key xs × Distinct xs

Fresh-perm : {xs ys : List Encoded} (k : Bytes) → Permᴰ xs ys → Fresh k xs → Fresh k ys
Fresh-perm k Permᴰ.nil f = tt
Fresh-perm k (Permᴰ.cons e p) f = (λ q. f.0 (q ∙ ap (λ x. x.key) (sym e)), Fresh-perm k p f.1)
Fresh-perm k (Permᴰ.swap a b) f =
    (λ q. f.1.0 (q ∙ ap (λ x. x.key) (sym b)), (λ q. f.0 (q ∙ ap (λ x. x.key) (sym a)), f.1.1))
Fresh-perm k (Permᴰ.trans p q) f = Fresh-perm k q (Fresh-perm k p f)

Distinct-perm : {xs ys : List Encoded} → Permᴰ xs ys → Distinct xs → Distinct ys
Distinct-perm Permᴰ.nil d = tt
Distinct-perm (Permᴰ.cons {l₂ = l} e p) d =
    (subst (λ x. Fresh x.key l) e (Fresh-perm _ p d.0), Distinct-perm p d.1)
Distinct-perm (Permᴰ.swap {l = l} a b) d = (
  (
    λ q. d.0.0 (ap (λ x. x.key) a ∙ sym q ∙ ap (λ x. x.key) (sym b)),
    subst (λ x. Fresh x.key l) b d.1.0,
  ),
  (subst (λ x. Fresh x.key l) a d.0.1, d.1.1),
)
Distinct-perm (Permᴰ.trans p q) d = Distinct-perm q (Distinct-perm p d)

swap_lt :
    (a b : Encoded) (s : List Encoded)
    → a.key ≺ b.key
    → insert_sorted a (insert_sorted b s) ≡ insert_sorted b (insert_sorted a s)
unfolding insert_sorted
swap_lt a b [] h = ground (arith, gt_of_lt a.key b.key)
swap_lt a b (x ∷ s) h = ground (
  arith,
  swap_lt a b s,
  gt_of_lt a.key b.key,
  eq_of_cmp b.key x.key,
  ≺_trans a.key b.key x.key,
  lt_of_gt a.key x.key,
  ≺_trans x.key a.key b.key,
  gt_of_lt x.key b.key,
)

insert_sorted_swap :
    (a b : Encoded) (s : List Encoded)
    → ¬ (a.key ≡ b.key)
    → insert_sorted a (insert_sorted b s) ≡ insert_sorted b (insert_sorted a s)
insert_sorted_swap a b s h = elim (cmp-cases a.key b.key) [
  | inl l ↦ swap_lt a b s l
  | inr (inl g) ↦ sym (swap_lt b a s g)
  | inr (inr e) ↦ absurd (h e)
]

-- Lists without a repeated key that are permutations of one another sort alike.
sort-perm : {xs ys : List Encoded} → Permᴰ xs ys → Distinct xs → sort_by_key xs ≡ sort_by_key ys
unfolding sort_by_key
sort-perm Permᴰ.nil d = refl
sort-perm (Permᴰ.cons e p) d = ap₂ insert_sorted e (sort-perm p d.1)
sort-perm (Permᴰ.swap {a = a} {b = b} {l = l} p q) d =
    insert_sorted_swap a b (sort_by_key l) d.0.0
    ∙ ap₂ (λ x y. insert_sorted x (insert_sorted y (sort_by_key l))) q p
sort-perm (Permᴰ.trans p q) d = sort-perm p d ∙ sort-perm q (Distinct-perm p d)

insert-perm : (x : Encoded) (s : List Encoded) → Permᴰ (insert_sorted x s) (x ∷ s)
unfolding insert_sorted
insert-perm x [] = Permᴰ.refl (x ∷ [])
insert-perm x (y ∷ s) =
    elim (cmp x.key y.key)
      as (λ o. Permᴰ (elim o [ Ordering.gt ↦ y ∷ insert_sorted x s | _ ↦ x ∷ y ∷ s ]) (x ∷ y ∷ s)) [
        | Ordering.lt ↦ Permᴰ.refl (x ∷ y ∷ s)
        | Ordering.eq ↦ Permᴰ.refl (x ∷ y ∷ s)
        | Ordering.gt ↦ Permᴰ.trans (Permᴰ.cons refl (insert-perm x s)) (Permᴰ.swap refl refl)
      ]

pub sort_by_key-perm : (xs : List Encoded) → Permᴰ (sort_by_key xs) xs
unfolding sort_by_key
sort_by_key-perm [] = Permᴰ.nil
sort_by_key-perm (x ∷ xs) =
    Permᴰ.trans (insert-perm x (sort_by_key xs)) (Permᴰ.cons refl (sort_by_key-perm xs))

-- Each entry's key is at most the next one's; each is below all that follow.
abbrev IsAscending : List Encoded → Type 0
IsAscending [] = Unit {0}
IsAscending (x ∷ []) = Unit {0}
IsAscending (x ∷ y ∷ r) = (cmp x.key y.key ≢ Ordering.gt) × IsAscending (y ∷ r)

abbrev Above : Bytes → List Encoded → Type 0
Above k [] = Unit {0}
Above k (x ∷ xs) = (k ≺ x.key) × Above k xs

insert-IsAscending :
    (x : Encoded) (s : List Encoded) → IsAscending s → IsAscending (insert_sorted x s)
unfolding insert_sorted
insert-IsAscending x [] a = tt
insert-IsAscending x (y ∷ []) a = ground (arith, lt_of_gt x.key y.key)
insert-IsAscending x (y ∷ z ∷ r) a =
    ground (arith, insert-IsAscending x (z ∷ r), lt_of_gt x.key y.key)

sort-IsAscending : (xs : List Encoded) → IsAscending (sort_by_key xs)
unfolding sort_by_key
sort-IsAscending [] = tt
sort-IsAscending (x ∷ xs) = insert-IsAscending x (sort_by_key xs) (sort-IsAscending xs)

Above-weaken : (i k : Bytes) (xs : List Encoded) → i ≺ k → Above k xs → Above i xs
Above-weaken i k [] h a = tt
Above-weaken i k (x ∷ xs) h a = (≺_trans i k x.key h a.0, Above-weaken i k xs h a.1)

Fresh-of_Above : (k : Bytes) (xs : List Encoded) → Above k xs → Fresh k xs
Fresh-of_Above k [] a = tt
Fresh-of_Above k (x ∷ xs) a = (≺_irrefl k x.key a.0, Fresh-of_Above k xs a.1)

reject_inv :
    (x y : Encoded) (r : List Encoded)
    → reject_duplicates (x ∷ y ∷ r) ≡ ok tt
    → (¬ (x.key ≡ y.key)) × (reject_duplicates (y ∷ r) ≡ ok tt)
unfolding reject_duplicates
reject_inv x y r h =
    elim (Bytes-discrete x.key y.key)
        as (λ d.
          ite d (err (FixtureError.duplicate_ledger_key x.key)) (reject_duplicates (y ∷ r)) ≡ ok tt
          → (¬ (x.key ≡ y.key)) × (reject_duplicates (y ∷ r) ≡ ok tt)) [
            | yes e ↦ λ q. cc
            | no n ↦ λ q. (n, q)
          ]
      h

strict_lem :
    (x : Encoded) (r : List Encoded)
    → IsAscending (x ∷ r)
    → reject_duplicates (x ∷ r) ≡ ok tt
    → Above x.key r × Distinct (x ∷ r)
strict_lem x [] a h = (tt, (tt, tt))
strict_lem x (y ∷ r) a h =
    let inv = reject_inv x y r h in
    let rest = strict_lem y r a.1 inv.1 in
    let lt : x.key ≺ y.key = ground (arith, a.0, inv.0, eq_of_cmp x.key y.key) in
    let above : Above x.key (y ∷ r) = (lt, Above-weaken x.key y.key r lt rest.0) in
    (above, (Fresh-of_Above x.key (y ∷ r) above, rest.1))

Distinct-of_reject : (s : List Encoded) → IsAscending s → reject_duplicates s ≡ ok tt → Distinct s
Distinct-of_reject [] a h = tt
Distinct-of_reject (x ∷ r) a h = (strict_lem x r a h).1

-- Encoding does not depend on the index, which only an error reports.
module _ (c : Codec) where
  encode_entry_index :
      (i j : ℕ) (e : SnapshotEntry) (x : Encoded)
      → encode_entry c i e ≡ ok x
      → encode_entry c j e ≡ ok x
  unfolding encode_entry
  encode_entry_index i j (key, entry, live) x h = ground arith

  encode_cons_inv :
      (i : ℕ) (e : SnapshotEntry) (es : List SnapshotEntry) (xs : List Encoded)
      → encode_entries c i (e ∷ es) ≡ ok xs
      → (x : Encoded) × (r : List Encoded) × (encode_entry c i e ≡ ok x)
        × (encode_entries c (suc i) es ≡ ok r)
        × (xs ≡ x ∷ r)
  unfolding encode_entries
  encode_cons_inv i e es xs h =
      let (x, p, q) =
        >>=-eq-ok (encode_entry c i e) (λ x. encode_entries c (suc i) es >>= λ r. ok (x ∷ r)) h in
      let (r, p', q') = >>=-eq-ok (encode_entries c (suc i) es) (λ r. ok (x ∷ r)) q in
      (x, r, p, p', cc (q'))

  encode_cons :
      (i : ℕ) (e : SnapshotEntry) (es : List SnapshotEntry) (x : Encoded) (r : List Encoded)
      → encode_entry c i e ≡ ok x
      → encode_entries c (suc i) es ≡ ok r
      → encode_entries c i (e ∷ es) ≡ ok (x ∷ r)
  unfolding encode_entries
  encode_cons i e es x r p q = rw (p, q)

  encode_entries_index :
      (i j : ℕ) (es : List SnapshotEntry) (xs : List Encoded)
      → encode_entries c i es ≡ ok xs
      → encode_entries c j es ≡ ok xs
  encode_entries_index i j [] xs h = unfold encode_entries in h
  encode_entries_index i j (e ∷ es) xs h =
      let (x, r, p, q, t) = encode_cons_inv i e es xs h in
      encode_cons j e es x r (encode_entry_index i j e x p)
        (encode_entries_index (suc i) (suc j) es r q)
      ∙ ap ok (sym t)

  encode_entries-perm :
      {es fs : List SnapshotEntry}
      → Permᴰ es fs
      → (xs : List Encoded) → encode_entries c 0 es ≡ ok xs
      → (ys : List Encoded) × (encode_entries c 0 fs ≡ ok ys) × Permᴰ xs ys
  encode_entries-perm Permᴰ.nil xs h = (xs, h, Permᴰ.refl xs)
  encode_entries-perm (Permᴰ.cons {a = a} {b = b} {l₁ = k} {l₂ = l} e p) xs h =
      let (x, r, u, v, t) = encode_cons_inv 0 a k xs h in
      let (ys, w, q) = encode_entries-perm p r (encode_entries_index 1 0 k r v) in
      (
        x ∷ ys,
        encode_cons 0 b l x ys (subst (λ z. encode_entry c 0 z ≡ ok x) e u)
            (encode_entries_index 0 1 l ys w),
        subst (λ z. Permᴰ z (x ∷ ys)) (sym t) (Permᴰ.cons refl q),
      )
  encode_entries-perm (Permᴰ.swap {a = a} {b = b} {a' = a'} {b' = b'} {l = l} e f) xs h =
      let (x, r, u, v, t) = encode_cons_inv 0 a (b ∷ l) xs h in
      let (y, r', u', v', t') = encode_cons_inv 1 b l r v in
      (
        y ∷ x ∷ r',
        encode_cons 0 a' (b' ∷ l) y (x ∷ r')
            (subst (λ z. encode_entry c 0 z ≡ ok y) f (encode_entry_index 1 0 b y u'))
            (encode_cons 1 b' l x r'
              (subst (λ z. encode_entry c 1 z ≡ ok x) e (encode_entry_index 0 1 a x u)) v'),
        subst (λ z. Permᴰ z (y ∷ x ∷ r')) (sym (t ∙ ap (λ z. x ∷ z) t')) (Permᴰ.swap refl refl),
      )
  encode_entries-perm (Permᴰ.trans p q) xs h =
      let (ys, u, v) = encode_entries-perm p xs h in
      let (zs, w, z) = encode_entries-perm q ys u in (zs, w, Permᴰ.trans v z)

module _ (c : Codec) where
  pub canonical_digest_inv :
      (s : LedgerSnapshot) (d : Hash)
      → canonical_digest c s ≡ ok d
      → (xs : List Encoded) × (encode_entries c 0 s.ledger_entries ≡ ok xs)
        × (reject_duplicates (sort_by_key xs) ≡ ok tt)
        × (d ≡ c.sha256 (preimage s (sort_by_key xs)))
  unfolding canonical_digest
  canonical_digest_inv s d h =
      let (xs, p, q) =
        >>=-eq-ok (encode_entries c 0 s.ledger_entries)
          (λ xs.
            reject_duplicates (sort_by_key xs) >>= λ _. ok (c.sha256 (preimage s (sort_by_key xs))))
          h in
      let (u, p', q') =
        >>=-eq-ok (reject_duplicates (sort_by_key xs))
          (λ _. ok (c.sha256 (preimage s (sort_by_key xs)))) q in
      (xs, p, p', cc (q'))

  digest_of_perm :
      (s : LedgerSnapshot) (es : List SnapshotEntry) (d : Hash)
      → Permᴰ s.ledger_entries es
      → canonical_digest c s ≡ ok d
      → canonical_digest c (record s { ledger_entries = es }) ≡ ok d
  unfolding canonical_digest
  digest_of_perm s es d p h =
      let (xs, e, r, t) = canonical_digest_inv s d h in
      let (ys, f, q) = encode_entries-perm c p xs e in
      let distinct =
        Distinct-perm (sort_by_key-perm xs)
          (Distinct-of_reject (sort_by_key xs) (sort-IsAscending xs) r) in
      let same : sort_by_key ys ≡ sort_by_key xs = sym (sort-perm q distinct) in
      rw (f, same, r) (ap ok (sym t))

  -- A snapshot whose digest is defined keeps that digest however its entries are reordered.
  pub canonical_digest-perm :
      (s : LedgerSnapshot) (es : List SnapshotEntry) (d : Hash)
      → Perm s.ledger_entries es
      → canonical_digest c s ≡ ok d
      → canonical_digest c (record s { ledger_entries = es }) ≡ ok d
  canonical_digest-perm s es d p h = ∥∥₁_elim p (hlevel) (λ q. digest_of_perm s es d q h)
