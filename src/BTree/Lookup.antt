-- ===== src/BTree/Lookup.antt =====
-- What a lookup finds after an insertion.
use kanatoko.Prelude.{◌≡◌, refl, List, [], ◌∷◌, some, ite, ◌⊎◌, arith, In, if_pos, if_neg}
use kanatoko.Bytes.{Bytes, Bytes-discrete}
use kanatoko.Bytes.Order.{eq_of_cmp, cmp_refl}
use kanatoko.BTree.{BTreeMap, get, insert, keys, insert_key}

module _ {V : Type 0} where
  pub get-insert :
      (k j : Bytes) (v : V) (m : BTreeMap V)
      → get j (insert k v m) ≡ ite (Bytes-discrete k j) (some v) (get j m)
  unfolding get insert
  get-insert k j v [] = refl
  get-insert k j v ((i, w) ∷ m) = ground (arith, get-insert k j v m, eq_of_cmp k i, cmp_refl k)

  pub get-insert_self : (k : Bytes) (v : V) (m : BTreeMap V) → get k (insert k v m) ≡ some v
  get-insert_self k v m = rw (get-insert k k v m) (if_pos (Bytes-discrete k k) refl _ _)

  pub get-insert_ne :
      (k j : Bytes) (v : V) (m : BTreeMap V) → ¬ (k ≡ j) → get j (insert k v m) ≡ get j m
  get-insert_ne k j v m h = rw (get-insert k j v m) (if_neg (Bytes-discrete k j) h _ _)

  pub In-keys_of_get : (k : Bytes) (v : V) (m : BTreeMap V) → get k m ≡ some v → In k (keys m)
  unfolding get keys
  In-keys_of_get k v [] h = cc
  In-keys_of_get k v ((j, w) ∷ m) h = ground (arith, In-keys_of_get k v m)

pub In-keys_of_insert :
    {V : Type 0} (k j : Bytes) (v : V) (m : BTreeMap V)
    → In j (keys (insert k v m))
    → (k ≡ j) ⊎ In j (keys m)
unfolding keys insert
In-keys_of_insert k j v [] h = ground arith
In-keys_of_insert k j v ((i, w) ∷ m) h = ground (arith, In-keys_of_insert k j v m, eq_of_cmp k i)

pub In-insert_key : (k j : Bytes) (s : List Bytes) → In j (insert_key k s) → (k ≡ j) ⊎ In j s
unfolding insert_key
In-insert_key k j [] h = ground arith
In-insert_key k j (i ∷ s) h = ground (arith, In-insert_key k j s, eq_of_cmp k i)

pub insert_key-In : (k j : Bytes) (s : List Bytes) → (k ≡ j) ⊎ In j s → In j (insert_key k s)
unfolding insert_key
insert_key-In k j [] h = ground arith
insert_key-In k j (i ∷ s) h = ground (arith, insert_key-In k j s, eq_of_cmp k i)
