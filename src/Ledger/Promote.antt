-- ===== src/Ledger/Promote.antt =====
-- The list of changes between two snapshots is what turns coverage of the first into coverage of the
-- second.
use kanatoko.Prelude.{
  ◌≡◌, refl, sym, ◌∙◌, ap, subst, ◌≢◌, ◌⊎◌, inl, inr, List, [], ◌∷◌, ◌++◌, Option, none, some, ok,
  ◌>>=◌, >>=-eq-ok, Option-cases, arith, In,
}
use kanatoko.Bytes.{Bytes, Bytes-discrete}
use kanatoko.BTree.{get, insert, keys}
use kanatoko.BTree.Lookup.{get-insert_self, get-insert_ne, In-keys_of_get, insert_key-In}
use kanatoko.Xdr.{Codec, LedgerKey, LedgerSnapshot}
use kanatoko.Ledger.{
  Coverage, LedgerValue, StateChange, value_of, snapshot_map, diff_one, diff_ids, key_set,
  state_diff, state_of, update_coverage, push_change,
}
use kanatoko.Ledger.Diff.{
  LedgerMap, live, Covers, live-state_of, diff_one_cases, IsKeyed, snapshot_map-IsKeyed,
}

module _ (c : Codec) where
  update_cons :
      (change : StateChange) (rest : List StateChange) (id : Bytes) (coverage : Coverage)
      → c.key_xdr change.key ≡ some id
      → update_coverage c coverage (change ∷ rest)
        ≡ update_coverage c (insert id (state_of change.after) coverage) rest
  unfolding update_coverage
  update_cons change rest id coverage h = ground arith

  -- What applying the changes for a list of identifiers does to coverage.
  record Applied (b a : LedgerMap) (ids : List Bytes) (from to : Coverage) : Type 0 where
    pub done :
        (j : Bytes)
        → In j ids
        → live (get j from) ≡ value_of (get j b)
        → live (get j to) ≡ value_of (get j a)
    pub keeps :
        (j : Bytes) → live (get j from) ≡ value_of (get j a) → live (get j to) ≡ value_of (get j a)
    pub frame : (j : Bytes) → value_of (get j b) ≡ value_of (get j a) → get j to ≡ get j from

  changed_id :
      (b a : LedgerMap) (id : Bytes) (key : LedgerKey)
      → IsKeyed c b
      → IsKeyed c a
      → ((v : LedgerValue) × (get id b ≡ some (key, v)))
        ⊎ ((v : LedgerValue) × (get id a ≡ some (key, v)))
      → c.key_xdr key ≡ some id
  changed_id b a id key kb ka (inl (v, e)) = kb id key v e
  changed_id b a id key kb ka (inr (v, e)) = ka id key v e

  Applied-same :
      (b a : LedgerMap) (id : Bytes) (ids : List Bytes) (from to : Coverage)
      → value_of (get id b) ≡ value_of (get id a)
      → Applied b a ids from to
      → Applied b a (id ∷ ids) from to
  Applied-same b a id ids from to e r = record {
    done = λ j m h. elim m [
      | inl p ↦ r.keeps j (h ∙ subst (λ k. value_of (get k b) ≡ value_of (get k a)) p e)
      | inr q ↦ r.done j q h
    ];
    keeps = r.keeps;
    frame = r.frame;
  }

  Applied-changed :
      (b a : LedgerMap) (id : Bytes) (ids : List Bytes) (from to : Coverage)
      (after : Option LedgerValue)
      → value_of (get id b) ≢ value_of (get id a)
      → after ≡ value_of (get id a)
      → Applied b a ids (insert id (state_of after) from) to
      → Applied b a (id ∷ ids) from to
  Applied-changed b a id ids from to after n e r = record {
    done = λ j m h. elim (Bytes-discrete id j) [
      | yes p ↦ r.keeps j (written j p)
      | no q ↦ elim m [
        | inl p ↦ absurd (q p)
        | inr m' ↦ r.done j m' (ap live (get-insert_ne id j (state_of after) from q) ∙ h)
      ]
    ];
    keeps = λ j h. elim (Bytes-discrete id j) [
      | yes p ↦ r.keeps j (written j p)
      | no q ↦ r.keeps j (ap live (get-insert_ne id j (state_of after) from q) ∙ h)
    ];
    frame = λ j h. elim (Bytes-discrete id j) [
      | yes p ↦ absurd (n (subst (λ k. value_of (get k b) ≡ value_of (get k a)) (sym p) h))
      | no q ↦ r.frame j h ∙ get-insert_ne id j (state_of after) from q
    ];
  }
    where
      written :
          (j : Bytes) → id ≡ j → live (get j (insert id (state_of after) from)) ≡ value_of (get j a)
      written j p =
          subst (λ k. live (get k (insert id (state_of after) from)) ≡ value_of (get k a)) p
            (ap live (get-insert_self id (state_of after) from) ∙ live-state_of after ∙ e)

  diff_cons :
      (b a : LedgerMap) (id : Bytes) (ids : List Bytes) (o : Option StateChange)
      (changes : List StateChange)
      → diff_one (get id b) (get id a) ≡ ok o
      → diff_ids b a (id ∷ ids) ≡ ok changes
      → (rest : List StateChange) × (diff_ids b a ids ≡ ok rest) × (changes ≡ push_change o rest)
  unfolding diff_ids
  diff_cons b a id ids o changes e h =
      let (rest, p, q) =
        >>=-eq-ok (diff_ids b a ids) (λ rest. ok (push_change o rest)) (rw e at h) in
      (rest, p, cc (q))

  apply_diff :
      (b a : LedgerMap)
      → IsKeyed c b
      → IsKeyed c a
      → (ids : List Bytes) (from : Coverage) (changes : List StateChange)
      → diff_ids b a ids ≡ ok changes
      → (to : Coverage) × (update_coverage c from changes ≡ (to, ok tt)) × Applied b a ids from to
  apply_diff b a kb ka [] from changes h = (
    from,
    empty changes h,
    record { done = λ j m. absurd m; keeps = λ j q. q; frame = λ j q. refl },
  )
    where
      empty :
          (changes : List StateChange)
          → diff_ids b a [] ≡ ok changes
          → update_coverage c from changes ≡ (from, ok tt)
      empty [] h = unfold update_coverage in refl
      empty (x ∷ xs) h = unfold diff_ids in cc
  apply_diff b a kb ka (id ∷ ids) from changes h = elim (diff_one_cases (get id b) (get id a)) [
    | inl (e, same) ↦
        let (rest, p, q) = diff_cons b a id ids none changes same h in
        let (to, u, r) = apply_diff b a kb ka ids from rest p in
        (
          to,
          subst (λ x. update_coverage c from x ≡ (to, ok tt)) (sym q) u,
          Applied-same b a id ids from to e r,
        )
    | inr (n, (change, d, after, before, key)) ↦
        let (rest, p, q) = diff_cons b a id ids (some change) changes d h in
        let (to, u, r) = apply_diff b a kb ka ids (insert id (state_of change.after) from) rest p in
        (
          to,
          subst (λ x. update_coverage c from x ≡ (to, ok tt)) (sym q)
              (update_cons change rest id from (changed_id b a id change.key kb ka key) ∙ u),
          Applied-changed b a id ids from to change.after n after r,
        )
  ]

  -- The comparison itself never fails.
  diff_ids_total :
      (b a : LedgerMap) (ids : List Bytes)
      → (changes : List StateChange) × (diff_ids b a ids ≡ ok changes)
  unfolding diff_ids
  diff_ids_total b a [] = ([], refl)
  diff_ids_total b a (id ∷ ids) =
      let (rest, p) = diff_ids_total b a ids in
      elim (diff_one_cases (get id b) (get id a)) [
        | inl (e, same) ↦ (rest, rw (same, p))
        | inr (n, (change, d, after, before, key)) ↦ (change ∷ rest, rw (d, p))
      ]

  In-key_set : (j : Bytes) (ks : List Bytes) → In j ks → In j (key_set ks)
  unfolding key_set
  In-key_set j [] m = m
  In-key_set j (k ∷ ks) (inl e) = insert_key-In k j (key_set ks) (inl e)
  In-key_set j (k ∷ ks) (inr m) = insert_key-In k j (key_set ks) (inr (In-key_set j ks m))

  In-append_left : (j : Bytes) (xs ys : List Bytes) → In j xs → In j (xs ++ ys)
  In-append_left j [] ys m = absurd m
  In-append_left j (x ∷ xs) ys (inl e) = inl e
  In-append_left j (x ∷ xs) ys (inr m) = inr (In-append_left j xs ys m)

  In-append_right : (j : Bytes) (xs ys : List Bytes) → In j ys → In j (xs ++ ys)
  In-append_right j [] ys m = m
  In-append_right j (x ∷ xs) ys m = inr (In-append_right j xs ys m)

  Applied-Covers :
      (b a : LedgerMap) (from to : Coverage)
      → Applied b a (key_set (keys b ++ keys a)) from to
      → Covers from b
      → Covers to a
  Applied-Covers b a from to r h j = elim (Option-cases (get j b)) [
    | inr (x, e) ↦
        r.done j (In-key_set j _ (In-append_left j (keys b) (keys a) (In-keys_of_get j x b e)))
          (h j)
    | inl p ↦ elim (Option-cases (get j a)) [
      | inr (y, e) ↦
          r.done j (In-key_set j _ (In-append_right j (keys b) (keys a) (In-keys_of_get j y a e)))
            (h j)
      | inl q ↦ r.keeps j (h j ∙ ap value_of (p ∙ sym q))
    ]
  ]

  -- What a promotion of coverage from one snapshot to another achieves.
  pub record Promoted (b a : LedgerMap) (from to : Coverage) : Type 0 where
    pub covers : Covers to a
    pub frame : (j : Bytes) → value_of (get j b) ≡ value_of (get j a) → get j to ≡ get j from

  -- If all keys of two snapshots encode, their difference exists, and applying it to coverage of the
  -- first succeeds with coverage of the second, in which every identifier that holds the same value in
  -- both keeps its state.
  pub state_diff-update_coverage :
      (before after : LedgerSnapshot) (b a : LedgerMap) (from : Coverage)
      → snapshot_map c before ≡ ok b
      → snapshot_map c after ≡ ok a
      → Covers from b
      → (changes : List StateChange) × (state_diff c before after ≡ ok changes)
        × (to : Coverage) × (update_coverage c from changes ≡ (to, ok tt))
        × Promoted b a from to
  unfolding state_diff
  state_diff-update_coverage before after b a from p q h =
      let (changes, d) = diff_ids_total b a (key_set (keys b ++ keys a)) in
      let (to, u, r) =
        apply_diff b a (snapshot_map-IsKeyed c before b p) (snapshot_map-IsKeyed c after a q)
          (key_set (keys b ++ keys a)) from changes d in
      (
        changes,
        rw (p, q, d),
        to,
        u,
        record { covers = Applied-Covers b a from to r h; frame = r.frame },
      )

  -- Whatever coverage it is applied to, the difference of two snapshots is applied without an error.
  pub update_coverage_total :
      (before after : LedgerSnapshot) (changes : List StateChange) (from : Coverage)
      → state_diff c before after ≡ ok changes
      → (to : Coverage) × (update_coverage c from changes ≡ (to, ok tt))
  unfolding state_diff
  update_coverage_total before after changes from h =
      let (b, p, q) =
        >>=-eq-ok (snapshot_map c before)
          (λ b. snapshot_map c after >>= λ a. diff_ids b a (key_set (keys b ++ keys a))) h in
      let (a, p', q') =
        >>=-eq-ok (snapshot_map c after) (λ a. diff_ids b a (key_set (keys b ++ keys a))) q in
      let (to, u, r) =
        apply_diff b a (snapshot_map-IsKeyed c before b p) (snapshot_map-IsKeyed c after a p')
          (key_set (keys b ++ keys a)) from changes q' in
      (to, u)
