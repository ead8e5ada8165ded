-- ===== src/BTree.antt =====
-- The standard library's `BTreeMap<Vec<u8>, V>`, which keeps its entries in key order: an association
-- list that `insert` keeps sorted. A `BTreeSet<Vec<u8>>` is the same list of keys alone.
pub mod Lookup
pub mod Sorted
use Prim.Native.Nat.{Ordering}
use kanatoko.Prelude.{List, [], ◌∷◌, Option, none, some, ite}
use kanatoko.Bytes.{Bytes, Bytes-discrete, cmp}

abbrev pub BTreeMap : Type 0 → Type 0
BTreeMap V = List (Bytes × V)

module _ {V : Type 0} where
  -- `map.get(k)`
  unfoldable pub get : Bytes → BTreeMap V → Option V
  get k [] = none
  get k ((j, v) ∷ m) = ite (Bytes-discrete j k) (some v) (get k m)

  -- The map after `map.insert(k, v)`; the call's own result is `get k` before it.
  unfoldable pub insert : Bytes → V → BTreeMap V → BTreeMap V
  unfolding cmp
  insert k v [] = (k, v) ∷ []
  insert k v ((j, w) ∷ m) =
      let rest = insert k v m in
      elim (cmp k j) [
        | Ordering.lt ↦ (k, v) ∷ (j, w) ∷ m
        | Ordering.eq ↦ (k, v) ∷ m
        | Ordering.gt ↦ (j, w) ∷ rest
      ]

  -- `map.keys()`
  unfoldable pub keys : BTreeMap V → List Bytes
  keys [] = []
  keys ((k, v) ∷ m) = k ∷ keys m

-- `set.insert(k)`
unfoldable pub insert_key : Bytes → List Bytes → List Bytes
unfolding cmp
insert_key k [] = k ∷ []
insert_key k (j ∷ s) =
    let rest = insert_key k s in
    elim (cmp k j) [ Ordering.lt ↦ k ∷ j ∷ s | Ordering.eq ↦ j ∷ s | Ordering.gt ↦ j ∷ rest ]
