-- ===== src/Auto/Scenario/Accounts.antt =====
-- `ScenarioFork::local_account` of src/auto.rs: an account belongs to its label.
use kanatoko.Prelude.{
  ◌<◌, ◌^◌, ◌≡◌, ◌≢◌, ◌⊎◌, inl, inr, refl, sym, ◌∙◌, ap, subst, List, [], ◌∷◌, Bool, true, false,
  ok, arith, holds-yes, if◌then◌else◌, length, append-nil, In,
}
use kanatoko.Bytes.{Bytes, Bytes-discrete}
use kanatoko.Bytes.Encode.{field, append_cancel, field_cancel}
use kanatoko.BTree.{insert_key}
use kanatoko.BTree.Lookup.{insert_key-In, In-insert_key}
use kanatoko.Xdr.{Codec, Hash, ScAddress, ScAddress-discrete, LedgerKey}
use kanatoko.Ledger.{has_hash, has_address}
use kanatoko.Capture.{LocalLedger, owns}
use kanatoko.Fixture.Binding.{Collision}
use kanatoko.Auto.Scenario.{
  ScenarioHost, ScenarioFork, local_account, account_of_key, register_account, public_key_of,
  local_account_preimage, local_account_domain,
}

has_hash-In : (x : Bytes) (xs : List Bytes) → In x xs → has_hash x xs ≡ true
unfolding has_hash
has_hash-In x [] m = absurd m
has_hash-In x (y ∷ ys) (inl e) = rw (holds-yes (Bytes-discrete y x) e) refl
has_hash-In x (y ∷ ys) (inr m) = ground (arith, has_hash-In x ys m)

In-has_hash : (x : Bytes) (xs : List Bytes) → has_hash x xs ≡ true → In x xs
unfolding has_hash
In-has_hash x [] h = cc
In-has_hash x (y ∷ ys) h = elim (Bytes-discrete y x) [
  | yes e ↦ inl e
  | no n ↦ inr (In-has_hash x ys (rest y h n))
]
  where
    rest : (y : Bytes) → has_hash x (y ∷ ys) ≡ true → y ≢ x → has_hash x ys ≡ true
    rest y h n = grind (arith, h, n)

marked_owned :
    (l : LocalLedger) (id : Bytes)
    → owns (record l { addresses = ScAddress.account id ∷ l.addresses }) (LedgerKey.account id)
      ≡ true
unfolding owns has_address
marked_owned l id =
    rw (holds-yes (ScAddress-discrete (ScAddress.account id) (ScAddress.account id)) refl) refl

module _ {Env : Type 0} (c : Codec) (h : ScenarioHost Env) where
  -- Every local account of the fork is in the local ledger.
  abbrev pub AllOwned : ScenarioFork Env → Type 0
  AllOwned s =
      (id : Bytes)
      → has_hash id s.local_accounts ≡ true
      → owns s.local_ledger (LedgerKey.account id) ≡ true

  register_run :
      (s v : ScenarioFork Env) (key : Hash) (address : ScAddress)
      → register_account c h key s ≡ (v, ok address)
      → (address ≡ ScAddress.account key)
        × (v.local_accounts ≡ insert_key key s.local_accounts)
        × (v.local_ledger ≡ record s.local_ledger {
          addresses = ScAddress.account key ∷ s.local_ledger.addresses;
        })
  unfolding register_account
  register_run s v key address e = (ground (arith, e), ground (arith, e), ground (arith, e))

  -- What the account of a key leaves: its address, known to the fork, and all accounts local.
  abbrev pub IsKnown : Hash → ScenarioFork Env → ScAddress → Type 0
  IsKnown key v address =
      (address ≡ ScAddress.account key) × (has_hash key v.local_accounts ≡ true) × AllOwned v

  owned_after :
      (key id : Hash) (l : LocalLedger)
      → (key ≡ id) ⊎ (owns l (LedgerKey.account id) ≡ true)
      → owns (record l { addresses = ScAddress.account key ∷ l.addresses }) (LedgerKey.account id)
        ≡ true
  unfolding owns has_address
  owned_after key id l (inl e) =
      subst
        (λ z.
          owns (record l { addresses = ScAddress.account key ∷ l.addresses }) (LedgerKey.account z)
          ≡ true)
        e (marked_owned l key)
  owned_after key id l (inr p) = ground (arith, p)

  register-IsKnown :
      (s v : ScenarioFork Env) (key : Hash) (address : ScAddress)
      → AllOwned s
      → register_account c h key s ≡ (v, ok address)
      → IsKnown key v address
  register-IsKnown s v key address all e =
      let (a, b, d) = register_run s v key address e in
      (
        a,
        subst (λ z. has_hash key z ≡ true) (sym b)
            (has_hash-In key (insert_key key s.local_accounts)
              (insert_key-In key key s.local_accounts (inl refl))),
        λ id m.
            subst (λ z. owns z (LedgerKey.account id) ≡ true) (sym d)
              (owned_after key id s.local_ledger (
                was_known id (
                  In-insert_key key id s.local_accounts (
                    In-has_hash id (insert_key key s.local_accounts)
                      (subst (λ z. has_hash id z ≡ true) b m))))),
      )
    where
      was_known :
          (id : Hash)
          → (key ≡ id) ⊎ In id s.local_accounts
          → (key ≡ id) ⊎ (owns s.local_ledger (LedgerKey.account id) ≡ true)
      was_known id (inl q) = inl q
      was_known id (inr m) = inr (all id (has_hash-In id s.local_accounts m))

  chosen-IsKnown :
      (s v : ScenarioFork Env) (key : Hash) (address : ScAddress) (known : Bool)
      → has_hash key s.local_accounts ≡ known
      → AllOwned s
      → (if known then (s, ok (ScAddress.account key)) else register_account c h key s)
        ≡ (v, ok address)
      → IsKnown key v address
  chosen-IsKnown s v key address false k all e = register-IsKnown s v key address all e
  chosen-IsKnown s v key address true k all e =
      let same : s ≡ v = ap (λ x. x.0) e in
      (
        ground (arith, e),
        subst (λ z. has_hash key z.local_accounts ≡ true) same k,
        subst AllOwned same all,
      )

  account_of_key_run :
      (s : ScenarioFork Env) (key : Hash)
      → account_of_key c h key s ≡ (
          if has_hash key s.local_accounts
          then (s, ok (ScAddress.account key))
          else register_account c h key s)
  unfolding account_of_key
  account_of_key_run s key = ground arith

  account_of_key-IsKnown :
      (s v : ScenarioFork Env) (key : Hash) (address : ScAddress)
      → AllOwned s
      → account_of_key c h key s ≡ (v, ok address)
      → IsKnown key v address
  account_of_key-IsKnown s v key address all e =
      chosen-IsKnown s v key address (has_hash key s.local_accounts) refl all
        (sym (account_of_key_run s key) ∙ e)

  known_again :
      (v : ScenarioFork Env) (key : Hash)
      → has_hash key v.local_accounts ≡ true
      → account_of_key c h key v ≡ (v, ok (ScAddress.account key))
  known_again v key k =
      account_of_key_run v key
      ∙ (λ i. if k i then (v, ok (ScAddress.account key)) else register_account c h key v)

  -- Looking an entry up keeps the ledger's header.
  abbrev pub KeepsInfo : Type 0
  KeepsInfo =
      (l : LocalLedger) (key : LedgerKey) (env : Env)
      → h.ledger_info (h.get_ledger_entry l key env).0 ≡ h.ledger_info env

  key_kept :
      KeepsInfo
      → (s v : ScenarioFork Env) (key : Hash) (address : ScAddress)
      → account_of_key c h key s ≡ (v, ok address)
      → h.ledger_info v.env ≡ h.ledger_info s.env
  unfolding account_of_key register_account
  key_kept keeps s v key address e = grind (arith, keeps, e)

  -- If lookups keep the ledger's header and all accounts of the fork are in its local ledger, an
  -- account that is given for a label has the label's public key, is known to the fork, and again
  -- all accounts are in the local ledger; and asking for the label again gives the same address and
  -- changes nothing.
  pub local_account-IsKnown :
      KeepsInfo
      → (label : Bytes) (s v : ScenarioFork Env) (address : ScAddress) → AllOwned s
      → local_account c h label s ≡ (v, ok address)
      → IsKnown (public_key_of c h label s) v address
        × (local_account c h label v ≡ (v, ok address))
  unfolding local_account
  local_account-IsKnown keeps label s v address all e =
      let key = public_key_of c h label s in
      let known = account_of_key-IsKnown s v key address all e in
      let same : public_key_of c h label v ≡ key =
        ap (λ i. c.sha256 (local_account_preimage i.network_id label))
          (key_kept keeps s v key address e) in
      let again : account_of_key c h (public_key_of c h label v) v
          ≡ (v, ok (ScAddress.account key)) =
        subst (λ k. account_of_key c h k v ≡ (v, ok (ScAddress.account key))) (sym same)
          (known_again v key known.1) in
      (known, again ∙ ap (λ z. (v, ok z)) (sym known.0))

  -- Two labels of machine-sized length that have one public key are the same label, or their hash
  -- inputs are a collision of the hash function.
  pub public_key_of-binding :
      (s : ScenarioFork Env) (a b : Bytes)
      → length a < 2 ^ 64
      → length b < 2 ^ 64
      → public_key_of c h a s ≡ public_key_of c h b s
      → Collision c ⊎ (a ≡ b)
  unfolding public_key_of local_account_preimage
  public_key_of-binding s a b p q e =
      let id = (h.ledger_info s.env).network_id in
      elim (Bytes-discrete (local_account_preimage id a) (local_account_preimage id b)) [
        | no n ↦ inl (local_account_preimage id a, local_account_preimage id b, n, e)
        | yes same ↦ inr (
            let x = append_cancel local_account_domain local_account_domain _ _ refl same in
            let y = append_cancel id id (field a) (field b) refl x.1 in
            (field_cancel a b [] [] p q
              (append-nil (field a) ∙ y.1 ∙ sym (append-nil (field b)))).0)
      ]
