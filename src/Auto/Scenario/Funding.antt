-- ===== src/Auto/Scenario/Funding.antt =====
-- `ScenarioFork::fund_local_account` of src/auto.rs adds to the balance of a local account.
use kanatoko.Prelude.{
  ℕ, suc, ◌+◌, ◌*◌, ◌^◌, ◌<◌, ◌≤◌, [], ◌≡◌, ◌⊎◌, inl, inr, refl, sym, ap, subst, ℤ, pos,
  checked_i64, checked_add, Option, none, some, Bool, true, false, Result, ok, err, leb, holds-yes,
  if◌then◌else◌, arith,
}
use kanatoko.Bytes.{Bytes, Bytes-discrete}
use kanatoko.Xdr.{Codec, ScAddress, LedgerKey, LedgerEntry, LedgerEntryData, AccountFields}
use kanatoko.Ledger.{has_hash}
use kanatoko.Host.{LedgerInfo}
use kanatoko.Capture.{LocalLedger, owns}
use kanatoko.Auto.Scenario.{
  ScenarioHost, ScenarioFork, Panic, panicked, Step, asserting, positive, account_id_of,
  funded_entry, first_funding, more_funding, new_account, account_entry, fund_local_account,
  add_entry,
}

abbrev pub Stored : Type 0
Stored = Option (LedgerEntry × Option ℕ)

-- What the environment's storage holds, and what its calls do to it: a key that it holds is found; a
-- key of the local ledger that it does not hold is absent; and what is added is held.
pub record IsStorage {Env : Type 0} (h : ScenarioHost Env) (view : Env → LedgerKey → Stored)
    : Type 0 where
  pub held :
      (l : LocalLedger) (key : LedgerKey) (env : Env) (x : LedgerEntry × Option ℕ)
      → view env key ≡ some x
      → (h.get_ledger_entry l key env).1 ≡ some (some x)
  pub absent :
      (l : LocalLedger) (key : LedgerKey) (env : Env)
      → owns l key ≡ true
      → view env key ≡ none
      → (h.get_ledger_entry l key env).1 ≡ some none
  pub info :
      (l : LocalLedger) (key : LedgerKey) (env : Env)
      → h.ledger_info (h.get_ledger_entry l key env).0 ≡ h.ledger_info env
  pub added :
      (key : LedgerKey) (entry : LedgerEntry) (live_until : Option ℕ) (env : Env)
      → ((h.add_ledger_entry key entry live_until env).1 ≡ true)
        × (view (h.add_ledger_entry key entry live_until env).0 key ≡ some (entry, live_until))

-- The stored account has this balance; one that is not stored has none.
unfoldable pub HasBalance : Bytes → ℕ → Stored → Type 0
HasBalance id n none = n ≡ 0
HasBalance id n (some (entry, live_until)) =
    (live_until ≡ none)
    × ((fields : AccountFields) × (entry.entry_data ≡ LedgerEntryData.account id fields)
        × (fields.balance ≡ pos n))

-- What a funding needs: the sum fits an `i64`, and a first funding covers two base reserves of a
-- ledger whose sequence fits an account's sequence number.
unfoldable pub CanFund : LedgerInfo → ℕ → ℕ → Stored → Type 0
CanFund info n amount none =
    (info.base_reserve * 2 ≤ amount)
    × (info.base_reserve * 2 < 2 ^ 63)
    × (info.sequence_number * 2 ^ 32 < 2 ^ 63)
CanFund info n amount (some x) = n + amount < 2 ^ 63

-- The entry that a funding makes, or that it fails.
Funds : LedgerInfo → Bytes → ℕ → ℕ → Stored → Option LedgerEntry → Type 0
unfolding HasBalance CanFund
Funds info id n amount o none = ¬ CanFund info n amount o
Funds info id n amount o (some entry) =
    CanFund info n amount o × HasBalance id (n + amount) (some (entry, none))

checked_cases :
    (n : ℕ)
    → ((n < 2 ^ 63) × (checked_i64 n ≡ some (pos n))) ⊎ ((2 ^ 63 ≤ n) × (checked_i64 n ≡ none))
checked_cases n = ground arith

leb_cases : (n m : ℕ) → ((n ≤ m) × (leb n m ≡ true)) ⊎ ((m < n) × (leb n m ≡ false))
leb_cases n m = ground arith

first_funding_cases :
    (info : LedgerInfo) (id : Bytes) (amount : ℕ) (b s : Option ℤ) (test : Bool)
    → checked_i64 (info.base_reserve * 2) ≡ b
    → leb (info.base_reserve * 2) amount ≡ test
    → checked_i64 (info.sequence_number * 2 ^ 32) ≡ s
    → first_funding info id amount ≡ elim b as (λ x. Option LedgerEntry) [
      | none ↦ none
      | some minimum ↦
          if test
          then elim s as (λ x. Option LedgerEntry) [
            | none ↦ none
            | some sequence ↦
                some (account_entry info.sequence_number id (new_account amount sequence) [])
          ]
          else none
    ]
unfolding first_funding
first_funding_cases info id amount b s test e f g i = elim (e i) as (λ x. Option LedgerEntry) [
  | none ↦ none
  | some minimum ↦
      if f i
      then elim (g i) as (λ x. Option LedgerEntry) [
        | none ↦ none
        | some sequence ↦
            some (account_entry info.sequence_number id (new_account amount sequence) [])
      ]
      else none
]

first_funding-Funds :
    (info : LedgerInfo) (id : Bytes) (amount : ℕ)
    → Funds info id 0 amount none (first_funding info id amount)
unfolding Funds CanFund HasBalance new_account
first_funding-Funds info id amount = elim (checked_cases (info.base_reserve * 2)) [
  | inr (p, e) ↦
      subst (Funds info id 0 amount none)
        (sym (first_funding_cases info id amount _ _ _ e refl refl))
        (λ (a, b, d). absurd (omega arith))
  | inl (p, e) ↦ elim (leb_cases (info.base_reserve * 2) amount) [
    | inr (q, f) ↦
        subst (Funds info id 0 amount none)
          (sym (first_funding_cases info id amount _ _ _ e f refl))
          (λ (a, b, d). absurd (omega arith))
    | inl (q, f) ↦ elim (checked_cases (info.sequence_number * 2 ^ 32)) [
      | inr (r, g) ↦
          subst (Funds info id 0 amount none) (sym (first_funding_cases info id amount _ _ _ e f g))
            (λ (a, b, d). absurd (omega arith))
      | inl (r, g) ↦
          subst (Funds info id 0 amount none) (sym (first_funding_cases info id amount _ _ _ e f g))
            (
              (q, p, r),
              (
                refl,
                (
                  new_account amount (pos (info.sequence_number * 2 ^ 32)),
                  refl,
                  ap pos (omega arith),
                ),
              ),
            )
    ]
  ]
]

more_funding-Funds :
    (info : LedgerInfo) (id : Bytes) (n amount : ℕ) (entry : LedgerEntry) (live_until : Option ℕ)
    → HasBalance id n (some (entry, live_until))
    → Funds info id n amount
        (some (entry, live_until))
        (more_funding info id amount entry live_until)
unfolding more_funding Funds CanFund HasBalance checked_add
more_funding-Funds info id n amount entry live_until (e, (fields, d, b)) =
    elim (checked_cases (n + amount)) [
      | inr (p, f) ↦ rw e (
          rw d
            (rw (holds-yes (Bytes-discrete id id) refl) (rw b (rw f (λ h. absurd (omega arith))))))
      | inl (p, f) ↦ rw e (
          rw d (
            rw (holds-yes (Bytes-discrete id id) refl) (
              rw b (rw f (p, (refl, (record fields { balance = pos (n + amount) }, refl, refl)))))))
    ]

funded_entry-Funds :
    (info : LedgerInfo) (id : Bytes) (n amount : ℕ) (o : Stored)
    → HasBalance id n o
    → Funds info id n amount o (funded_entry info id amount o)
unfolding funded_entry HasBalance
funded_entry-Funds info id n amount none e =
    subst (λ k. Funds info id k amount none (first_funding info id amount)) (sym e)
      (first_funding-Funds info id amount)
funded_entry-Funds info id n amount (some (entry, live_until)) b =
    more_funding-Funds info id n amount entry live_until b

module _ {Env : Type 0} (c : Codec) (h : ScenarioHost Env) (view : Env → LedgerKey → Stored)
    (law : IsStorage h view) where
  answered :
      (l : LocalLedger) (key : LedgerKey) (env : Env) (o : Stored)
      → view env key ≡ o
      → owns l key ≡ true
      → (h.get_ledger_entry l key env).1 ≡ some o
  answered l key env none e p = law.absent l key env p e
  answered l key env (some x) e p = law.held l key env x e

  -- What follows the entry of a funding.
  placed : LedgerKey → Option LedgerEntry → Step Env (Unit {0})
  placed key none s = (s, err panicked)
  placed key (some entry) s = add_entry c h key entry none s

  fund_run :
      (s : ScenarioFork Env) (id : Bytes) (m : ℕ) (o : Stored)
      → has_hash id s.local_accounts ≡ true
      → (h.get_ledger_entry s.local_ledger (LedgerKey.account id) s.env).1 ≡ some o
      → fund_local_account c h (ScAddress.account id) (pos (suc m)) s
        ≡ placed
            (LedgerKey.account id)
            (funded_entry
              (h.ledger_info (h.get_ledger_entry s.local_ledger (LedgerKey.account id) s.env).0)
              id
              (suc m)
              o)
            (record s { env = (h.get_ledger_entry s.local_ledger (LedgerKey.account id) s.env).0 })
  unfolding fund_local_account positive account_id_of placed
  fund_run s id m o known answer = ground (arith, known, answer)

  -- A funding succeeds exactly where it can, and then adds to the balance.
  pub IsFunding :
      LedgerInfo → Bytes → ℕ → ℕ → Stored → ScenarioFork Env × Result Panic (Unit {0}) → Type 0
  IsFunding info id n amount o (v, r) =
      (r ≡ ok tt
        → CanFund info n amount o × HasBalance id (n + amount) (view v.env (LedgerKey.account id)))
      × (CanFund info n amount o → r ≡ ok tt)

  accepted : (added : Bool) (s : ScenarioFork Env) → added ≡ true → asserting added s ≡ (s, ok tt)
  accepted true s e = refl
  accepted false s e = cc

  placed-IsFunding :
      (info : LedgerInfo) (id : Bytes) (n amount : ℕ) (o : Stored) (entry : Option LedgerEntry)
      (s : ScenarioFork Env)
      → Funds info id n amount o entry
      → IsFunding info id n amount o (placed (LedgerKey.account id) entry s)
  unfolding Funds placed IsFunding
  placed-IsFunding info id n amount o none s f = ((λ e. cc), λ can. absurd (f can))
  placed-IsFunding info id n amount o (some entry) s (can, b) =
      let (a, held) = law.added (LedgerKey.account id) entry none s.env in
      let env = (h.add_ledger_entry (LedgerKey.account id) entry none s.env).0 in
      subst (IsFunding info id n amount o)
        (sym (
          accepted (h.add_ledger_entry (LedgerKey.account id) entry none s.env).1
            (record s { env = env }) a))
        ((λ e. (can, subst (HasBalance id (n + amount)) (sym held) b)), λ e. refl)

  -- On a storage that finds what it holds and holds what is added, funding an account of this fork
  -- by a positive amount succeeds exactly where the sum of its balance and the amount fits an `i64`,
  -- or, where the account is not stored yet, where the amount covers two base reserves and the
  -- ledger's sequence fits an account's sequence number; and the account then holds the sum.
  pub fund_local_account_lem :
      (s : ScenarioFork Env) (id : Bytes) (n m : ℕ)
      → has_hash id s.local_accounts ≡ true
      → owns s.local_ledger (LedgerKey.account id) ≡ true
      → HasBalance id n (view s.env (LedgerKey.account id))
      → IsFunding
          (h.ledger_info s.env)
          id
          n
          (suc m)
          (view s.env (LedgerKey.account id))
          (fund_local_account c h (ScAddress.account id) (pos (suc m)) s)
  fund_local_account_lem s id n m known own b =
      let key = LedgerKey.account id in
      let o = view s.env key in
      let found = h.get_ledger_entry s.local_ledger key s.env in
      subst (IsFunding (h.ledger_info s.env) id n (suc m) o)
        (sym (fund_run s id m o known (answered s.local_ledger key s.env o refl own)))
        (placed-IsFunding (h.ledger_info s.env) id n (suc m) o _ (record s { env = found.0 })
          (subst
            (λ info. Funds (h.ledger_info s.env) id n (suc m) o (funded_entry info id (suc m) o))
            (sym (law.info s.local_ledger key s.env))
            (funded_entry-Funds (h.ledger_info s.env) id n (suc m) o b)))
