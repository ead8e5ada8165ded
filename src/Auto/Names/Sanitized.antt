-- ===== src/Auto/Names/Sanitized.antt =====
-- `sanitize_cache_name` of src/auto.rs gives a short file name without special characters.
use kanatoko.Prelude.{
  ℕ, ◌+◌, ◌≤◌, ◌≡◌, ◌≢◌, ◌⊎◌, inl, inr, refl, [], ◌∷◌, Bool, true, false, not, ◌&&◌, ◌==◌, ltb,
  if◌then◌else◌, length, All, arith, Bool-cases,
}
use kanatoko.Bytes.{Bytes}
use kanatoko.Capture.Origin.{is_empty}
use kanatoko.Auto.Names.{
  is_word, push, push_separator, sanitize_loop, trim_separators, scenario_name, sanitize_cache_name,
}

-- A character of a cache name: a word character or the separator.
abbrev pub IsAllowed : ℕ → Type 0
IsAllowed x = (is_word x ≡ true) ⊎ (x ≡ b'-')

-- The text is empty or starts with a word character.
unfoldable pub StartsWord : Bytes → Type 0
StartsWord [] = Unit
StartsWord (x ∷ xs) = is_word x ≡ true

-- The text is empty or ends with another character than the separator.
unfoldable pub EndsWord : Bytes → Type 0
EndsWord [] = Unit
EndsWord (x ∷ []) = x ≢ b'-'
EndsWord (x ∷ y ∷ xs) = EndsWord (y ∷ xs)

abbrev pub IsCacheName : Bytes → Type 0
IsCacheName n = (1 ≤ length n) × (length n ≤ 80) × All IsAllowed n × StartsWord n × EndsWord n

length-push : (s : Bytes) (x : ℕ) → length (push s x) ≡ length s + 1
unfolding push
length-push [] x = refl
length-push (y ∷ ys) x = omega (arith, length-push ys x)

IsAllowed-push : (s : Bytes) (x : ℕ) → IsAllowed x → All IsAllowed s → All IsAllowed (push s x)
unfolding push
IsAllowed-push [] x p a = (p, tt)
IsAllowed-push (y ∷ ys) x p (q, a) = (q, IsAllowed-push ys x p a)

StartsWord-push :
    (s : Bytes) (x : ℕ)
    → (is_word x ≡ true) ⊎ (is_empty s ≡ false)
    → StartsWord s
    → StartsWord (push s x)
unfolding push StartsWord
StartsWord-push [] x (inl p) a = p
StartsWord-push [] x (inr p) a = cc
StartsWord-push (y ∷ ys) x p a = a

-- What holds of the name in every round.
abbrev IsPartial : Bytes → Type 0
IsPartial s = (length s ≤ 80) × All IsAllowed s × StartsWord s

push-IsPartial :
    (s : Bytes) (x : ℕ)
    → length s ≤ 79
    → IsAllowed x
    → (is_word x ≡ true) ⊎ (is_empty s ≡ false)
    → IsPartial s
    → IsPartial (push s x)
push-IsPartial s x l p q (m, a, b) =
    (omega (arith, length-push s x), IsAllowed-push s x p a, StartsWord-push s x q b)

separated-IsPartial :
    (s : Bytes) (due : Bool)
    → (due ≡ true → (length s ≤ 79) × (is_empty s ≡ false))
    → IsPartial s
    → IsPartial (if due then push s b'-' else s)
separated-IsPartial s false f p = p
separated-IsPartial s true f p = push-IsPartial s b'-' ((f refl).0) (inr refl) (inr ((f refl).1)) p

due_room :
    (pending : Bool) (s : Bytes)
    → (pending && not (is_empty s) && ltb (length s) 80) ≡ true
    → (length s ≤ 79) × (is_empty s ≡ false)
due_room pending s h = ground arith

push_separator-IsPartial :
    (pending : Bool) (s : Bytes) → IsPartial s → IsPartial (push_separator pending s)
unfolding push_separator
push_separator-IsPartial pending s p = separated-IsPartial s _ (due_room pending s) p

chosen-IsPartial :
    (word full : Bool) (spaced pushed skipped : Bytes)
    → IsPartial spaced
    → (word ≡ true → full ≡ false → IsPartial pushed)
    → IsPartial skipped
    → IsPartial (if word then (if full then spaced else pushed) else skipped)
chosen-IsPartial false full spaced pushed skipped p q r = r
chosen-IsPartial true true spaced pushed skipped p q r = p
chosen-IsPartial true false spaced pushed skipped p q r = q refl refl

room : (n : ℕ) → n ≤ 80 → (n == 80) ≡ false → n ≤ 79
room n h e = ground arith

sanitize_loop-IsPartial :
    (s : Bytes) (pending : Bool) (xs : Bytes) → IsPartial s → IsPartial (sanitize_loop s pending xs)
unfolding sanitize_loop
sanitize_loop-IsPartial s pending [] p = p
sanitize_loop-IsPartial s pending (x ∷ xs) p =
    let spaced = push_separator-IsPartial pending s p in
    chosen-IsPartial (is_word x) _ _ _ _ spaced
      (λ w e. sanitize_loop-IsPartial (push (push_separator pending s) x) false xs (
        push-IsPartial (push_separator pending s) x
          (room (length (push_separator pending s)) (spaced.0) e) (inl w) (inl w) spaced))
      (sanitize_loop-IsPartial s true xs p)

dash_no_word : (x : ℕ) → is_word x ≡ true → (x == b'-') ≡ false
unfolding is_word
dash_no_word x h = ground arith

trim-length : (s : Bytes) → length (trim_separators s) ≤ length s
unfolding trim_separators
trim-length [] = omega arith
trim-length (x ∷ xs) = ground (arith, trim-length xs)

trim-IsAllowed : (s : Bytes) → All IsAllowed s → All IsAllowed (trim_separators s)
unfolding trim_separators
trim-IsAllowed [] a = tt
trim-IsAllowed (x ∷ xs) (p, a) = elim (Bool-cases (is_empty (trim_separators xs) && (x == b'-'))) [
  | inl h ↦ rw h tt
  | inr h ↦ rw h (p, trim-IsAllowed xs a)
]

trim-StartsWord : (s : Bytes) → StartsWord s → StartsWord (trim_separators s)
unfolding trim_separators StartsWord
trim-StartsWord [] a = tt
trim-StartsWord (x ∷ xs) a = elim (Bool-cases (is_empty (trim_separators xs) && (x == b'-'))) [
  | inl h ↦ rw h tt
  | inr h ↦ rw h a
]

EndsWord-cons :
    (x : ℕ) (rest : Bytes)
    → (is_empty rest && (x == b'-')) ≡ false
    → EndsWord rest
    → EndsWord (x ∷ rest)
unfolding EndsWord
EndsWord-cons x [] h e = λ q. ground arith
EndsWord-cons x (y ∷ ys) h e = e

trim-EndsWord : (s : Bytes) → EndsWord (trim_separators s)
unfolding trim_separators EndsWord
trim-EndsWord [] = tt
trim-EndsWord (x ∷ xs) = elim (Bool-cases (is_empty (trim_separators xs) && (x == b'-'))) [
  | inl h ↦ rw h tt
  | inr h ↦ rw h (EndsWord-cons x (trim_separators xs) h (trim-EndsWord xs))
]

scenario_name-IsCacheName : IsCacheName scenario_name
unfolding StartsWord EndsWord is_word
scenario_name-IsCacheName = (
  omega arith,
  omega arith,
  (
    inl refl,
    (inl refl, (inl refl, (inl refl, (inl refl, (inl refl, (inl refl, (inl refl, tt))))))),
  ),
  refl,
  λ q. absurd (omega arith),
)

named :
    (s : Bytes)
    → (length s ≤ 80) × All IsAllowed s × StartsWord s × EndsWord s
    → IsCacheName (if is_empty s then scenario_name else s)
named [] p = scenario_name-IsCacheName
named (x ∷ xs) (l, a, b, e) = (omega arith, l, a, b, e)

-- The cache name of any thread is not empty, has at most 80 characters, each a letter, a digit, an
-- underscore or a separator, and neither starts nor ends with a separator.
pub sanitize_cache_name-IsCacheName : (raw : Bytes) → IsCacheName (sanitize_cache_name raw)
unfolding sanitize_cache_name StartsWord
sanitize_cache_name-IsCacheName raw =
    let p : IsPartial (sanitize_loop [] false raw) =
      sanitize_loop-IsPartial [] false raw (omega arith, tt, tt) in
    named (trim_separators (sanitize_loop [] false raw)) (
      omega (arith, trim-length (sanitize_loop [] false raw), p.0),
      trim-IsAllowed (sanitize_loop [] false raw) (p.1),
      trim-StartsWord (sanitize_loop [] false raw) (p.2),
      trim-EndsWord (sanitize_loop [] false raw),
    )
