-- ===== src/Accounts/Repository/Books.antt =====
-- The accounts against the double-entry ledger: sums of the ledger's deltas, and what an operation
-- does to a list of accounts.
use ether_trade.Prelude.{
  ℕ, true, false, List, [], ◌∷◌, ◌++◌, ◌≡◌, ◌≢◌, refl, ◌==◌, if◌then◌else◌, All, arith,
}
use ether_trade.Prelude.Int.{ℤ, pos, ◌+ℤ◌, ◌≤ℤ◌, int_laws}
use ether_trade.Accounts.Types.{Account, LedgerTransaction}
use ether_trade.Accounts.Repository.Spec.{
  Operation, deposits, credits, locks, unlocks, debits, available_delta, locked_delta, changed,
  covers, touches,
}

-- What the ledger says the balances of an account are.
unfoldable pub ledger_available : ℕ → List LedgerTransaction → ℤ
ledger_available id [] = pos 0
ledger_available id (t ∷ ts) =
    (if t.account_id == id then t.available_delta else pos 0) +ℤ ledger_available id ts

unfoldable pub ledger_locked : ℕ → List LedgerTransaction → ℤ
ledger_locked id [] = pos 0
ledger_locked id (t ∷ ts) =
    (if t.account_id == id then t.locked_delta else pos 0) +ℤ ledger_locked id ts

pub ledger_available-append :
    (id : ℕ) (ts : List LedgerTransaction) (t : LedgerTransaction)
    → ledger_available id (ts ++ t ∷ [])
      ≡ ledger_available id ts +ℤ (if t.account_id == id then t.available_delta else pos 0)
unfolding ledger_available
ledger_available-append id [] t = omega int_laws
ledger_available-append id (s ∷ ts) t = rw (ledger_available-append id ts t) (omega int_laws)

pub ledger_locked-append :
    (id : ℕ) (ts : List LedgerTransaction) (t : LedgerTransaction)
    → ledger_locked id (ts ++ t ∷ [])
      ≡ ledger_locked id ts +ℤ (if t.account_id == id then t.locked_delta else pos 0)
unfolding ledger_locked
ledger_locked-append id [] t = omega int_laws
ledger_locked-append id (s ∷ ts) t = rw (ledger_locked-append id ts t) (omega int_laws)

pub ledger-zero :
    (id : ℕ) (ts : List LedgerTransaction)
    → All (λ t. t.account_id ≢ id) ts
    → (ledger_available id ts ≡ pos 0) × (ledger_locked id ts ≡ pos 0)
unfolding ledger_available ledger_locked
ledger-zero id [] h = (refl, refl)
ledger-zero id (t ∷ ts) h =
    let (available, locked) = ledger-zero id ts h.1 in
    let miss : (t.account_id == id) ≡ false = ground (arith, h.0) in
    (rw (miss, available) (omega int_laws), rw (miss, locked) (omega int_laws))

-- Both balances of an account are what the ledger says.
pub record Reconciles (ledger : List LedgerTransaction) (a : Account) : Type 0 where
  pub available : a.available_balance ≡ ledger_available a.id ledger
  pub locked : a.locked_balance ≡ ledger_locked a.id ledger

abbrev pub Covered : Account → Type 0
Covered a = (pos 0 ≤ℤ a.available_balance) × (pos 0 ≤ℤ a.locked_balance)

-- No two rows have one id.
abbrev pub UniqueIds : List Account → Type 0
UniqueIds [] = Unit
UniqueIds (a ∷ rest) = All (λ b. b.id ≢ a.id) rest × UniqueIds rest

pub changed-available :
    (op : Operation) (x now : ℕ) (a : Account)
    → (changed op x now a).available_balance ≡ a.available_balance +ℤ available_delta op x
changed-available deposits x now a = refl
changed-available credits x now a = refl
changed-available locks x now a = omega int_laws
changed-available unlocks x now a = refl
changed-available debits x now a = omega int_laws

pub changed-locked :
    (op : Operation) (x now : ℕ) (a : Account)
    → (changed op x now a).locked_balance ≡ a.locked_balance +ℤ locked_delta op x
changed-locked deposits x now a = omega int_laws
changed-locked credits x now a = omega int_laws
changed-locked locks x now a = refl
changed-locked unlocks x now a = omega int_laws
changed-locked debits x now a = omega int_laws

pub changed-id : (op : Operation) (x now : ℕ) (a : Account) → (changed op x now a).id ≡ a.id
changed-id deposits x now a = refl
changed-id credits x now a = refl
changed-id locks x now a = refl
changed-id unlocks x now a = refl
changed-id debits x now a = refl

-- The guard keeps the balances from falling below zero.
pub changed-Covered :
    (op : Operation) (x now : ℕ) (a : Account)
    → covers op x a ≡ true
    → Covered a
    → Covered (changed op x now a)
changed-Covered deposits x now a c h = grind int_laws
changed-Covered credits x now a c h = grind int_laws
changed-Covered locks x now a c h = grind int_laws
changed-Covered unlocks x now a c h = grind int_laws
changed-Covered debits x now a c h = grind int_laws

pub touches-id : (op : Operation) (x : ℕ) (a r : Account) → touches op x a r ≡ true → r.id ≡ a.id
touches-id deposits x a r h = ground arith
touches-id credits x a r h = ground arith
touches-id locks x a r h = ground arith
touches-id unlocks x a r h = ground arith
touches-id debits x a r h = ground arith

pub touches-covers :
    (op : Operation) (x : ℕ) (a r : Account) → touches op x a r ≡ true → covers op x r ≡ true
touches-covers deposits x a r h = refl
touches-covers credits x a r h = refl
touches-covers locks x a r h = ground arith
touches-covers unlocks x a r h = ground arith
touches-covers debits x a r h = ground arith
