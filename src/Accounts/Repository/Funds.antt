-- ===== src/Accounts/Repository/Funds.antt =====
-- The funds of all accounts in a currency: deposits, credits and withdrawals change them by their
-- amount, locks and unlocks not at all.
use ether_trade.Prelude.{
  ℕ, Bool, true, false, some, List, [], ◌∷◌, ◌++◌, ◌≡◌, ◌≢◌, ◌∙◌, refl, ap, inl, inr, sym, Text,
  text_eq, if◌then◌else◌, All, subst, select_first, update_where, Bool-cases, arith,
}
use mathlib.Core.Path.{ap₂}
use ether_trade.Prelude.Int.{ℤ, pos, ◌+ℤ◌, ◌-ℤ◌, int_laws}
use ether_trade.Transaction.{value}
use ether_trade.Accounts.Types.{Account, Database, Params, ok, Env}
use ether_trade.Accounts.Repository.Queries.{new_account}
use ether_trade.Accounts.Repository.Spec.{
  Operation, deposits, credits, locks, unlocks, debits, perform, changed, touches,
}
use ether_trade.Accounts.Repository.Books.{UniqueIds, touches-id}
use ether_trade.Accounts.Repository.Invariant.{IsSound}
use ether_trade.Accounts.Repository.Once.{perform_ends}

abbrev pub funds : Account → ℤ
funds a = a.available_balance +ℤ a.locked_balance

unfoldable pub funds_in : Text → List Account → ℤ
funds_in c [] = pos 0
funds_in c (a ∷ rest) = (if text_eq a.currency c then funds a else pos 0) +ℤ funds_in c rest

-- What an operation of some amount brings into the exchange.
abbrev pub external : Operation → ℕ → ℤ
external deposits x = pos x
external credits x = pos x
external locks x = pos 0
external unlocks x = pos 0
external debits x = pos 0 -ℤ pos x

changed-funds :
    (op : Operation) (x now : ℕ) (a : Account)
    → funds (changed op x now a) ≡ funds a +ℤ external op x
changed-funds deposits x now a = omega int_laws
changed-funds credits x now a = omega int_laws
changed-funds locks x now a = omega int_laws
changed-funds unlocks x now a = omega int_laws
changed-funds debits x now a = omega int_laws

changed-currency :
    (op : Operation) (x now : ℕ) (a : Account) → (changed op x now a).currency ≡ a.currency
changed-currency deposits x now a = refl
changed-currency credits x now a = refl
changed-currency locks x now a = refl
changed-currency unlocks x now a = refl
changed-currency debits x now a = refl

funds_in-rest :
    (op : Operation) (x now : ℕ) (a : Account) (c : Text) (rest : List Account)
    → All (λ r. r.id ≢ a.id) rest
    → update_where (touches op x a) (changed op x now) rest ≡ rest
unfolding update_where
funds_in-rest op x now a c [] h = refl
funds_in-rest op x now a c (r ∷ rest) h = elim (Bool-cases (touches op x a r)) [
  | inl hit ↦ absurd (h.0 (touches-id op x a r hit))
  | inr miss ↦ rw (miss, funds_in-rest op x now a c rest h.1)
]

pub add_if :
    (t : Bool) (a e s : ℤ)
    → (if t then a +ℤ e else pos 0) +ℤ s ≡ (if t then a else pos 0) +ℤ s +ℤ (if t then e else pos 0)
add_if true a e s = omega int_laws
add_if false a e s = omega int_laws

funds_in-update :
    (op : Operation) (x now : ℕ) (a y : Account) (c : Text) (rows : List Account)
    → UniqueIds rows
    → select_first (touches op x a) rows ≡ some y
    → funds_in c (update_where (touches op x a) (changed op x now) rows)
      ≡ funds_in c rows +ℤ (if text_eq y.currency c then external op x else pos 0)
unfolding update_where select_first funds_in
funds_in-update op x now a y c [] u e = cc
funds_in-update op x now a y c (r ∷ rest) u e = elim (Bool-cases (touches op x a r)) [
  | inl hit ↦
      let same : r ≡ y = ground arith in
      let quiet =
        funds_in-rest op x now a c rest
          (subst (λ i. All {A = Account} (λ s. s.id ≢ i) rest) (touches-id op x a r hit) u.0) in
      rw (hit, quiet, changed-currency op x now r, changed-funds op x now r, ← same)
        (add_if (text_eq r.currency c) (funds r) (external op x) (funds_in c rest))
  | inr miss ↦
      let later : select_first (touches op x a) rest ≡ some y = ground arith in
      rw (miss, funds_in-update op x now a y c rest u.1 later) (omega int_laws)
]

funds_in-new :
    (env : Env) (p : Params) (c : Text) (rows : List Account)
    → funds_in c (rows ++ new_account env p.user_id p.currency ∷ []) ≡ funds_in c rows
unfolding funds_in
funds_in-new env p c [] = elim (Bool-cases (text_eq p.currency c)) [
  | inl e ↦ rw e (omega int_laws)
  | inr e ↦ rw e (omega int_laws)
]
funds_in-new env p c (r ∷ rest) = rw (funds_in-new env p c rest)

-- A fresh success changes the funds of the account's currency by the operation's external amount
-- (deposits and credits bring it in, debits take it out, locks and unlocks move it within), and
-- the funds of no other currency; nothing else happens meanwhile, the database is valid, and the id
-- for a new account is unused.
pub perform_funds :
    (op : Operation) (env : Env) (p : Params) (d d' : Database) (u : Account) (c : Text)
    → IsSound env d
    → env.while_locking d ≡ d
    → env.before_insert d ≡ d
    → perform op env p d ≡ (value (ok u), d')
    → funds_in c d'.accounts
      ≡ funds_in c d.accounts +ℤ (if text_eq u.currency c then external op p.amount else pos 0)
perform_funds op env p d d' u c s w b h = elim (perform_ends op env p d s) [
  | inr rest ↦ absurd (rest.not_ok u (ap (λ z. z.0) h))
  | inl posted ↦
      let y = posted.row in
      let end = sym h ∙ posted.is_result in
      let same_account : u ≡ changed op p.amount env.now y = cc (ap (λ z. z.0) end) in
      let moved =
        funds_in-update op p.amount env.now posted.account y c posted.before.accounts
          posted.before_valid.unique posted.found in
      let started : funds_in c posted.before.accounts ≡ funds_in c d.accounts = elim posted.from [
        | inl from ↦ ap (λ x. funds_in c x.accounts) (from ∙ w)
        | inr from ↦
            ap (λ x. funds_in c x.accounts) from
            ∙ funds_in-new env p c (env.before_insert (env.while_locking d)).accounts
            ∙ ap (λ x. funds_in c x.accounts) (ap env.before_insert w ∙ b)
      ] in
      ap (λ z. funds_in c z.1.accounts) end
      ∙ moved
      ∙ ap₂ (λ f t. f +ℤ (if text_eq t c then external op p.amount else pos 0)) started
          (sym (ap (λ a. a.currency) same_account ∙ changed-currency op p.amount env.now y))
]
