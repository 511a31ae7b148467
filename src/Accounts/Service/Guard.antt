-- ===== src/Accounts/Service/Guard.antt =====
-- What the checks of apps/accounts/src/balances/balances.service.ts let through to the repository.
use ether_trade.Prelude.{
  ℕ, zero, suc, ◌<◌, Bool, true, false, Option, none, some, [], ◌∷◌, Text, text_eq, if◌then◌else◌,
  ◌≡◌, ◌≢◌, ◌⊎◌, refl, ap, ◌∙◌, subst, arith, text, inl, inr,
}
use ether_trade.Accounts.Types.{Account, Database, Params, Env}
use ether_trade.Accounts.Repository.Spec.{Operation, perform}
use ether_trade.Accounts.Service.Requests.{
  ServiceError, Checked, valid, invalid, ◌>>=◌, Names, Request, validate_user_id,
  normalize_currency, or_usdt, is_supported_currency, validate_amount, positive_amount, exceeds,
  limit_of, require_idempotency_key, non_empty, reference_of, validated, map_mutation_result,
  served, serve, trim, deposit_limit_exceeded, unsupported_currency,
}
use ether_trade.Accounts.Service.Amounts.{read_amount}

-- What the repository may rely on.
pub record IsProper (op : Operation) (p : Params) : Type 0 where
  pub positive : 0 < p.amount
  pub within_limit : exceeds (limit_of op) p.amount ≡ false
  pub supported : is_supported_currency p.currency ≡ true
  pub has_key : p.idempotency_key ≢ []

bind_valid :
    {A B : Type 0} (m : Checked A) (f : A → Checked B) (b : B)
    → (m >>= f) ≡ valid b
    → (a : A) × (m ≡ valid a) × (f a ≡ valid b)
bind_valid (valid a) f b h = (a, refl, h)
bind_valid (invalid e) f b h = absurd (cc h)

-- A test that lets a value through.
let_through :
    {A : Type 0} (b : Bool) (x y : A) (e : ServiceError)
    → (if b then valid x else invalid e) ≡ valid y
    → (b ≡ true) × (x ≡ y)
let_through true x y e h = (refl, cc h)
let_through false x y e h = absurd (cc h)

kept_out :
    {A : Type 0} (b : Bool) (x y : A) (e : ServiceError)
    → (if b then invalid e else valid x) ≡ valid y
    → (b ≡ false) × (x ≡ y)
kept_out true x y e h = absurd (cc h)
kept_out false x y e h = (refl, cc h)

or_usdt-supported :
    (names : Names) (s c : Text) → or_usdt names s ≡ valid c → is_supported_currency c ≡ true
unfolding text_eq
or_usdt-supported names [] c h =
    let is : text "USDT" ≡ c = cc h in subst (λ (x : Text). is_supported_currency x ≡ true) is refl
or_usdt-supported names (x ∷ s) c h =
    let t = names.upper (x ∷ s) in
    let passed = let_through (is_supported_currency t) t c unsupported_currency h in
    subst (λ (x : Text). is_supported_currency x ≡ true) passed.1 passed.0

positive_amount_lem :
    (max read : Option ℕ) (n : ℕ)
    → positive_amount max read ≡ valid n
    → (0 < n) × (exceeds max n ≡ false)
positive_amount_lem max none n h = absurd (cc h)
positive_amount_lem max (some zero) n h = absurd (cc h)
positive_amount_lem max (some (suc k)) n h =
    let passed = kept_out (exceeds max (suc k)) (suc k) n deposit_limit_exceeded h in
    subst (λ (x : ℕ). (0 < x) × (exceeds max x ≡ false)) passed.1 (omega arith, passed.0)

non_empty_lem : (s k : Text) → non_empty s ≡ valid k → k ≢ []
non_empty_lem [] k h e = cc h
non_empty_lem (c ∷ s) k h e = let is : c ∷ s ≡ k = cc h in let bad : c ∷ s ≡ [] = is ∙ e in cc

abbrev params : Operation → Request → ℕ → Text → ℕ → Text → Params
params op r user currency amount key = record {
  user_id = user;
  currency = currency;
  amount = amount;
  idempotency_key = key;
  reference_id = reference_of op r;
}

proper :
    (op : Operation) (names : Names) (r : Request) (user : ℕ) (currency : Text) (amount : ℕ)
    → (key : Text) → normalize_currency names r.currency ≡ valid currency
    → validate_amount (limit_of op) r.amount ≡ valid amount
    → require_idempotency_key r.idempotency_key ≡ valid key
    → IsProper op (params op r user currency amount key)
unfolding normalize_currency validate_amount require_idempotency_key
proper op names r user currency amount key hc ha hk =
    let bounds = positive_amount_lem (limit_of op) (read_amount (trim r.amount)) amount ha in
    record {
      positive = bounds.0;
      within_limit = bounds.1;
      supported = or_usdt-supported names (trim r.currency) currency hc;
      has_key = non_empty_lem (trim r.idempotency_key) key hk;
    }

Checked-cases :
    {A : Type 0} (c : Checked A)
    → ((e : ServiceError) × (c ≡ invalid e)) ⊎ ((a : A) × (c ≡ valid a))
Checked-cases (invalid e) = inl (e, refl)
Checked-cases (valid a) = inr (a, refl)

validated-IsProper :
    (op : Operation) (names : Names) (r : Request) (p : Params)
    → validated op names r ≡ valid p
    → IsProper op p
unfolding validated
validated-IsProper op names r p h =
    let user = bind_valid (validate_user_id names r.user_id) _ p h in
    let currency = bind_valid (normalize_currency names r.currency) _ p user.2 in
    let amount = bind_valid (validate_amount (limit_of op) r.amount) _ p currency.2 in
    let key = bind_valid (require_idempotency_key r.idempotency_key) _ p amount.2 in
    let is : params op r user.0 currency.0 amount.0 key.0 ≡ p = cc (key.2) in
    subst (IsProper op) is
      (proper op names r user.0 currency.0 amount.0 key.0 currency.1 amount.1 key.1)

-- What a request comes to: it is refused and nothing happens, or the repository's operation is
-- performed, once, with parameters that are proper.
abbrev pub Served : Operation → Env → Database → Checked Account × Database → Type 0
Served op env d z =
    ((e : ServiceError) × (z ≡ (invalid e, d)))
    ⊎ ((p : Params) × IsProper op p
        × (z ≡ (map_mutation_result (perform op env p d).0, (perform op env p d).1)))

-- A request for a balance operation is refused by the checks and changes nothing, or the operation
-- of the repository is performed with an amount above zero and within the limit for deposits, a
-- supported currency and a key that is not empty, and its result is mapped.
pub serve-Served :
    (op : Operation) (names : Names) (env : Env) (r : Request) (d : Database)
    → Served op env d (serve op names env r d)
unfolding serve
serve-Served op names env r d = elim (Checked-cases (validated op names r)) [
  | inl refused ↦ inl (refused.0, ap (λ c. served op env c d) refused.1)
  | inr checked ↦ inr (
    checked.0,
    validated-IsProper op names r checked.0 checked.1,
    ap (λ c. served op env c d) checked.1,
  )
]
