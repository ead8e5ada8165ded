-- ===== src/BTree/Sorted.antt =====
-- Keys stay in strictly ascending order, and a sorted map is determined by its lookups.
use kanatoko.Prelude.{◌≡◌, refl, sym, ◌∙◌, ap, [], ◌∷◌, none, some, inl, inr, arith, if_pos, subst}
use kanatoko.Bytes.{Bytes, Bytes-discrete, ◌≺◌}
use kanatoko.Bytes.Order.{eq_of_cmp, lt_of_gt, ≺_trans, ≺_irrefl, cmp-cases}
use kanatoko.BTree.{BTreeMap, get, insert}

-- Every key of the map is above `k`.
abbrev pub Above : {V : Type 0} → Bytes → BTreeMap V → Type 0
Above k [] = Unit {0}
Above k ((j, v) ∷ m) = (k ≺ j) × Above k m

abbrev pub IsSorted : {V : Type 0} → BTreeMap V → Type 0
IsSorted [] = Unit {0}
IsSorted ((k, v) ∷ m) = Above k m × IsSorted m

module _ {V : Type 0} where
  Above-weaken : (i k : Bytes) (m : BTreeMap V) → i ≺ k → Above k m → Above i m
  Above-weaken i k [] h a = tt
  Above-weaken i k ((j, v) ∷ m) h a = (≺_trans i k j h a.0, Above-weaken i k m h a.1)

  Above-insert : (i k : Bytes) (v : V) (m : BTreeMap V) → i ≺ k → Above i m → Above i (insert k v m)
  unfolding insert
  Above-insert i k v [] h a = (h, tt)
  Above-insert i k v ((j, w) ∷ m) h a = ground (arith, Above-insert i k v m h)

  pub insert-IsSorted : (k : Bytes) (v : V) (m : BTreeMap V) → IsSorted m → IsSorted (insert k v m)
  unfolding insert
  insert-IsSorted k v [] s = (tt, tt)
  insert-IsSorted k v ((j, w) ∷ m) s = ground (
    arith,
    insert-IsSorted k v m,
    Above-insert j k v m,
    Above-weaken k j m,
    lt_of_gt k j,
    eq_of_cmp k j,
  )

  -- A key below all those of the map is not in it.
  pub get_below : (k : Bytes) (m : BTreeMap V) → Above k m → get k m ≡ none
  unfolding get
  get_below k [] a = refl
  get_below k ((j, v) ∷ m) a = ground (arith, get_below k m, ≺_irrefl k j)

  get_tail :
      (k i : Bytes) (v w : V) (m n : BTreeMap V)
      → Above k m
      → Above k n
      → get i ((k, v) ∷ m) ≡ get i ((k, w) ∷ n)
      → get i m ≡ get i n
  unfolding get
  get_tail k i v w m n a b h = elim (Bytes-discrete k i) [
    | yes e ↦
        get_below i m (subst (λ x. Above x m) e a)
        ∙ sym (get_below i n (subst (λ x. Above x n) e b))
    | no d ↦ ground (arith, h)
  ]

  get_head : (k : Bytes) (v : V) (m : BTreeMap V) → get k ((k, v) ∷ m) ≡ some v
  unfolding get
  get_head k v m = if_pos (Bytes-discrete k k) refl _ _

  get_before :
      (k j : Bytes) (w : V) (n : BTreeMap V) → k ≺ j → Above j n → get k ((j, w) ∷ n) ≡ none
  get_before k j w n h a = get_below k ((j, w) ∷ n) (h, Above-weaken k j n h a)

  get_nil : (k : Bytes) (m : BTreeMap V) → m ≡ [] → get k m ≡ none
  unfolding get
  get_nil k [] e = refl
  get_nil k ((j, v) ∷ m) e = cc

  ext-cons :
      (k j : Bytes) (v w : V) (m n : BTreeMap V)
      → k ≡ j
      → get k ((k, v) ∷ m) ≡ get k ((j, w) ∷ n)
      → m ≡ n
      → ◌≡◌ {A = BTreeMap V} ((k, v) ∷ m) ((j, w) ∷ n)
  unfolding get
  ext-cons k j v w m n e h r = ground arith

  -- Two sorted maps with the same lookups are the same map.
  pub ext : (m n : BTreeMap V) → IsSorted m → IsSorted n → ((k : Bytes) → get k m ≡ get k n) → m ≡ n
  ext [] [] s t h = refl
  ext [] ((j, w) ∷ n) s t h = absurd (cc (h j, get_head j w n, get_nil j [] refl))
  ext ((k, v) ∷ m) [] s t h = absurd (cc (h k, get_head k v m, get_nil k [] refl))
  ext ((k, v) ∷ m) ((j, w) ∷ n) s t h = elim (cmp-cases k j) [
    | inl l ↦ absurd (cc (h k, get_head k v m, get_before k j w n l t.0))
    | inr (inl g) ↦ absurd (cc (h j, get_head j w n, get_before j k v m g s.0))
    | inr (inr e) ↦ ext-cons k j v w m n e (h k) (
        ext m n s.1 t.1 (λ i.
          get_tail k i v w m n s.0 (subst (λ x. Above x n) (sym e) t.0)
            (h i ∙ ap (λ x. get i ((x, w) ∷ n)) (sym e))))
  ]
