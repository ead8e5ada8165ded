-- ===== src/Auto/Names/Binding.antt =====
-- The default cache file of src/auto.rs belongs to one place of one program.
use kanatoko.Prelude.{
  ℕ, ◌<◌, ◌^◌, ◌≡◌, ◌≢◌, ◌⊎◌, inl, inr, ◌∙◌, sym, ap, refl, [], ◌∷◌, ◌++◌, ok, length,
  length-append, take, All, arith, zero, suc, ◌≤◌, Result,
}
use kanatoko.Bytes.{Bytes, Bytes-discrete}
use kanatoko.Bytes.Encode.{u32_be, append_cancel, be_bytes_injective, be_bytes_cancel, field_cancel}
use kanatoko.Xdr.{Hash}
use kanatoko.Capture.{CaptureError}
use kanatoko.Capture.Hex.{hex, decode_pairs}
use kanatoko.Capture.Hex.RoundTrip.{length-hex, decode_pairs-hex}
use kanatoko.Auto.Names.{
  CallSite, cache_preimage, default_cache_name, default_cache_domain, json_extension,
  sanitize_cache_name,
}

pub record SiteFits (s : CallSite) : Type 0 where
  pub network_passphrase : length s.network_passphrase < 2 ^ 64
  pub thread_name : length s.thread_name < 2 ^ 64
  pub caller_file : length s.caller_file < 2 ^ 64
  pub caller_line : s.caller_line < 2 ^ 32
  pub caller_column : s.caller_column < 2 ^ 32

cache_preimage-injective :
    (s t : CallSite) → SiteFits s → SiteFits t → cache_preimage s ≡ cache_preimage t → s ≡ t
unfolding cache_preimage
cache_preimage-injective s t f g h =
    let d = append_cancel default_cache_domain default_cache_domain _ _ refl h in
    let n =
      field_cancel s.network_passphrase t.network_passphrase _ _ f.network_passphrase
        g.network_passphrase (d.1) in
    let m = field_cancel s.thread_name t.thread_name _ _ f.thread_name g.thread_name (n.1) in
    let p = field_cancel s.caller_file t.caller_file _ _ f.caller_file g.caller_file (m.1) in
    let l =
      be_bytes_cancel 4 s.caller_line t.caller_line (u32_be s.caller_column)
        (u32_be t.caller_column) f.caller_line g.caller_line (p.1) in
    let c =
      be_bytes_injective 4 s.caller_column t.caller_column f.caller_column g.caller_column (l.1) in
    λ i. record {
      network_passphrase = n.0 i;
      thread_name = m.0 i;
      caller_file = p.0 i;
      caller_line = l.0 i;
      caller_column = c i;
    }

-- Two texts with equal ends of the same length.
suffix_cancel : (xs ys r s : Bytes) → length r ≡ length s → xs ++ r ≡ ys ++ s → r ≡ s
suffix_cancel xs ys r s l h =
    (append_cancel xs ys r s (omega (arith, length-append xs r, length-append ys s, ap length h, l))
      h).1

-- The hash function gives 32 bytes.
abbrev pub IsHash : (Bytes → Hash) → Type 0
IsHash sha256 = (x : Bytes) → (length (sha256 x) ≡ 32) × All (λ b. b < 256) (sha256 x)

take_byte : (n : ℕ) (xs : Bytes) → All (λ b. b < 256) xs → All (λ b. b < 256) (take n xs)
take_byte zero xs a = tt
take_byte (suc n) [] a = tt
take_byte (suc n) (x ∷ xs) (p, a) = (p, take_byte n xs a)

length-take : (n : ℕ) (xs : Bytes) → n ≤ length xs → length (take n xs) ≡ n
length-take zero xs h = refl
length-take (suc n) [] h = absurd (omega arith)
length-take (suc n) (x ∷ xs) h = omega (arith, length-take n xs)

ok_injective : {xs ys : Bytes} → ◌≡◌ {A = Result CaptureError Bytes} (ok xs) (ok ys) → xs ≡ ys
ok_injective h = cc

cons_injective : {x : ℕ} {xs ys : Bytes} → ◌≡◌ {A = Bytes} (x ∷ xs) (x ∷ ys) → xs ≡ ys
cons_injective h = cc

hex_injective :
    (xs ys : Bytes) → All (λ b. b < 256) xs → All (λ b. b < 256) ys → hex xs ≡ hex ys → xs ≡ ys
hex_injective xs ys p q h =
    ok_injective (sym (decode_pairs-hex xs p) ∙ ap decode_pairs h ∙ decode_pairs-hex ys q)

module _ (sha256 : Bytes → Hash) where
  -- Two different texts whose hashes start with the same six bytes.
  abbrev pub ShortCollision : Type 0
  ShortCollision = (a : Bytes) × (b : Bytes) × (a ≢ b) × (take 6 (sha256 a) ≡ take 6 (sha256 b))

  short_hash : CallSite → Bytes
  short_hash s = take 6 (sha256 (cache_preimage s))

  same_hash :
      IsHash sha256
      → (s t : CallSite) → default_cache_name sha256 s ≡ default_cache_name sha256 t
      → short_hash s ≡ short_hash t
  unfolding default_cache_name short_hash
  same_hash d s t h =
      let l : (r : CallSite) → length (take 6 (sha256 (cache_preimage r))) ≡ 6 =
        λ r. length-take 6 (sha256 (cache_preimage r)) (omega (arith, (d (cache_preimage r)).0)) in
      let b : (r : CallSite) → All (λ b. b < 256) (take 6 (sha256 (cache_preimage r))) =
        λ r. take_byte 6 (sha256 (cache_preimage r)) ((d (cache_preimage r)).1) in
      let e =
        suffix_cancel (sanitize_cache_name s.thread_name) (sanitize_cache_name t.thread_name) _ _
          (omega (
            arith,
            length-append (hex (short_hash s)) json_extension,
            length-append (hex (short_hash t)) json_extension,
            length-hex (short_hash s),
            length-hex (short_hash t),
            l s,
            l t,
          ))
          h in
      let q =
        append_cancel (b'-' ∷ hex (short_hash s)) (b'-' ∷ hex (short_hash t)) json_extension
          json_extension
          (omega (arith, length-hex (short_hash s), length-hex (short_hash t), l s, l t)) e in
      hex_injective (short_hash s) (short_hash t) (b s) (b t) (cons_injective (q.0))

  -- If the hash function gives 32 bytes, two call sites with machine-sized lengths and positions that share a default cache file are the
  -- same site, or the start of their hashes collides.
  pub default_cache_name-binding :
      IsHash sha256
      → (s t : CallSite) → SiteFits s
      → SiteFits t
      → default_cache_name sha256 s ≡ default_cache_name sha256 t
      → (s ≡ t) ⊎ ShortCollision
  unfolding short_hash
  default_cache_name-binding d s t f g h =
      elim (Bytes-discrete (cache_preimage s) (cache_preimage t)) [
        | yes e ↦ inl (cache_preimage-injective s t f g e)
        | no n ↦ inr (cache_preimage s, cache_preimage t, n, same_hash d s t h)
      ]
