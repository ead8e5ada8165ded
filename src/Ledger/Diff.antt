-- ===== src/Ledger/Diff.antt =====
-- The difference of two snapshots, one identifier at a time, and the map that it is taken of.
use kanatoko.Prelude.{
  ◌≡◌, refl, sym, ◌∙◌, subst, ◌≢◌, ◌⊎◌, inl, inr, List, [], ◌∷◌, Option, none, some, ok,
  Option-cases, arith, if_pos, if_neg,
}
use kanatoko.Bytes.{Bytes, Bytes-discrete}
use kanatoko.BTree.{BTreeMap, get, insert}
use kanatoko.BTree.Lookup.{get-insert_self, get-insert_ne}
use kanatoko.Xdr.{Codec, LedgerKey, LedgerSnapshot, SnapshotEntry}
use kanatoko.Ledger.{
  LookupState, present, absent, Coverage, LedgerValue, StateChange, Value-discrete, value_of,
  collect_entries, snapshot_map, diff_one, state_of,
}

abbrev pub LedgerMap : Type 0
LedgerMap = BTreeMap (LedgerKey × LedgerValue)

-- What a lookup through coverage shows.
abbrev pub live : Option LookupState → Option LedgerValue
live none = none
live (some absent) = none
live (some (present entry live_until)) =
    some (record { entry = entry; live_until_ledger = live_until })

-- Coverage shows at every identifier what the snapshot holds there.
abbrev pub Covers : Coverage → LedgerMap → Type 0
Covers coverage m = (id : Bytes) → live (get id coverage) ≡ value_of (get id m)

pub live-state_of : (v : Option LedgerValue) → live (some (state_of v)) ≡ v
live-state_of none = refl
live-state_of (some v) = refl

pub diff_one_cases :
    (x y : Option (LedgerKey × LedgerValue))
    → ((value_of x ≡ value_of y) × (diff_one x y ≡ ok none))
      ⊎ ((value_of x ≢ value_of y)
          × ((change : StateChange) × (diff_one x y ≡ ok (some change))
              × (change.after ≡ value_of y)
              × (change.before ≡ value_of x)
              × (((v : LedgerValue) × (x ≡ some (change.key, v)))
                  ⊎ ((v : LedgerValue) × (y ≡ some (change.key, v))))))
unfolding diff_one
diff_one_cases x y = elim (Value-discrete (value_of x) (value_of y)) [
  | yes e ↦ inl (e, if_pos (Value-discrete (value_of x) (value_of y)) e _ _)
  | no n ↦ inr (n, changed x y n)
]
  where
    changed :
        (x y : Option (LedgerKey × LedgerValue))
        → value_of x ≢ value_of y
        → ((change : StateChange) × (diff_one x y ≡ ok (some change))
            × (change.after ≡ value_of y)
            × (change.before ≡ value_of x)
            × (((v : LedgerValue) × (x ≡ some (change.key, v)))
                ⊎ ((v : LedgerValue) × (y ≡ some (change.key, v)))))
    changed none none n = absurd (n refl)
    changed none (some (k, v)) n = (
      record { key = k; before = none; after = some v },
      if_neg (Value-discrete none (some v)) n _ _,
      refl,
      refl,
      inr (v, refl),
    )
    changed (some (k, v)) y n = (
      record { key = k; before = some v; after = value_of y },
      if_neg (Value-discrete (some v) (value_of y)) n _ _,
      refl,
      refl,
      inl (v, refl),
    )

module _ (c : Codec) where
  -- Each entry of the map stands under its own key's identifier.
  abbrev pub IsKeyed : LedgerMap → Type 0
  IsKeyed m =
      (id : Bytes) (k : LedgerKey) (v : LedgerValue)
      → get id m ≡ some (k, v)
      → c.key_xdr k ≡ some id

  insert-IsKeyed :
      (id : Bytes) (k : LedgerKey) (v : LedgerValue) (m : LedgerMap)
      → c.key_xdr k ≡ some id
      → IsKeyed m
      → IsKeyed (insert id (k, v) m)
  insert-IsKeyed id k v m e h j k' v' g = elim (Bytes-discrete id j) [
    | yes p ↦ ground (arith, get-insert_self id (k, v) m)
    | no n ↦ h j k' v' (sym (get-insert_ne id j (k, v) m n) ∙ g)
  ]

  collect-IsKeyed :
      (m n : LedgerMap) (es : List SnapshotEntry)
      → IsKeyed m
      → collect_entries c m es ≡ ok n
      → IsKeyed n
  unfolding collect_entries
  collect-IsKeyed m n [] h e = subst IsKeyed (cc) h
  collect-IsKeyed m n ((key, entry, live_until) ∷ es) h e = elim (Option-cases (c.key_xdr key)) [
    | inl p ↦ absurd (ground arith)
    | inr (id, p) ↦
        collect-IsKeyed
          (insert id (key, record { entry = entry; live_until_ledger = live_until }) m) n es
          (insert-IsKeyed id key _ m p h) (rw p at e)
  ]

  pub snapshot_map-IsKeyed :
      (s : LedgerSnapshot) (m : LedgerMap) → snapshot_map c s ≡ ok m → IsKeyed m
  unfolding snapshot_map get
  snapshot_map-IsKeyed s m h = collect-IsKeyed [] m s.ledger_entries (λ id k v g. cc) h
