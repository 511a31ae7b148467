-- ===== src/Accounts/Service/Requests.antt =====
-- The operations of apps/accounts/src/balances/balances.service.ts: validation, the call of the
-- repository, and the mapping of its result.
use ether_trade.Prelude.{
  ℕ, zero, suc, Bool, false, ◌&&◌, ◌||◌, Option, none, some, [], ◌∷◌, Text, text, text_eq, ◌==◌,
  leb, ltb, if◌then◌else◌,
}
use mathlib.Core.List.{reverse}
use ether_trade.Prelude.Int.{ℤ}
use ether_trade.Transaction.{Fault, Outcome, value, throw}
use ether_trade.Accounts.Types.{
  Account, Database, Params, MutationResult, ok, idempotent_replay, not_found,
  idempotency_payload_mismatch, insufficient_available, insufficient_locked, Env,
}
use ether_trade.Accounts.Repository.Operations.{find_or_create}
use ether_trade.Accounts.Repository.Spec.{Operation, deposits, perform}
use ether_trade.Accounts.Service.Amounts.{read_amount}

pub data ServiceError : Type 0 where
  invalid_user_id unsupported_currency invalid_amount deposit_limit_exceeded
        idempotency_key_required :
      ServiceError
  account_not_found payload_mismatch : ServiceError
  insufficient_balance insufficient_locked_balance : ℤ → ServiceError
  repository_failed : Fault → ServiceError

pub data Checked (A : Type 0) : Type 0 where
  valid : A → Checked A
  invalid : ServiceError → Checked A

-- `await` of a check that throws.
infixl 5 ◌>>=◌
abbrev pub ◌>>=◌ : {A B : Type 0} → Checked A → (A → Checked B) → Checked B
valid a >>= f = f a
invalid e >>= f = invalid e

-- White space and line ends, as `trim` has them.
abbrev pub is_space : ℕ → Bool
is_space c =
    (leb 9 c && leb c 13)
    || c == 32
    || c == 160
    || c == 5760
    || (leb 8192 c && leb c 8202)
    || c == 8232
    || c == 8233
    || c == 8239
    || c == 8287
    || c == 12288
    || c == 65279

unfoldable pub trim_start : Text → Text
trim_start [] = []
trim_start (c ∷ s) = let rest = trim_start s in if is_space c then rest else c ∷ s

unfoldable pub trim : Text → Text
unfolding trim_start
trim s = reverse (trim_start (reverse (trim_start s)))

-- What the validation takes from outside: the user that a valid UUID names (the package uuid), and
-- JavaScript's `toUpperCase`, which rests on the tables of Unicode.
pub record Names : Type 0 where
  pub user_of : Text → Option ℕ
  pub upper : Text → Text

pub record Request : Type 0 where
  pub user_id : Text
  pub currency : Text
  pub amount : Text
  pub idempotency_key : Text
  pub reference_id : Text

abbrev pub validate_user_id : Names → Text → Checked ℕ
validate_user_id names id = elim (names.user_of id) [
  | none ↦ invalid invalid_user_id
  | some u ↦ valid u
]

abbrev pub is_supported_currency : Text → Bool
is_supported_currency c =
    text_eq (text "USDT") c
    || text_eq (text "USDC") c
    || text_eq (text "ETH") c
    || text_eq (text "BTC") c

abbrev pub or_usdt : Names → Text → Checked Text
or_usdt names [] = valid (text "USDT")
or_usdt names (c ∷ s) =
    if is_supported_currency (names.upper (c ∷ s))
    then valid (names.upper (c ∷ s))
    else invalid unsupported_currency

-- `normalizeCurrency`
unfoldable pub normalize_currency : Names → Text → Checked Text
unfolding trim
normalize_currency names currency = or_usdt names (trim currency)

abbrev pub exceeds : Option ℕ → ℕ → Bool
exceeds none n = false
exceeds (some max) n = ltb max n

abbrev pub positive_amount : Option ℕ → Option ℕ → Checked ℕ
positive_amount max none = invalid invalid_amount
positive_amount max (some zero) = invalid invalid_amount
positive_amount max (some (suc n)) =
    if exceeds max (suc n) then invalid deposit_limit_exceeded else valid (suc n)

-- `validateAmount`, in units of 10^-8.
unfoldable pub validate_amount : Option ℕ → Text → Checked ℕ
unfolding read_amount trim
validate_amount max amount = positive_amount max (read_amount (trim amount))

abbrev pub non_empty : Text → Checked Text
non_empty [] = invalid idempotency_key_required
non_empty (c ∷ s) = valid (c ∷ s)

-- `requireIdempotencyKey`
unfoldable pub require_idempotency_key : Text → Checked Text
unfolding trim
require_idempotency_key key = non_empty (trim key)

-- `data.referenceId?.trim() || undefined`
abbrev pub or_undefined : Text → Option Text
or_undefined [] = none
or_undefined (c ∷ s) = some (c ∷ s)

-- `SANDBOX_DEPOSIT_MAX` bounds the deposits only, which have no reference.
abbrev pub limit_of : Operation → Option ℕ
limit_of deposits = some 100000000000000
limit_of _ = none

abbrev pub reference_of : Operation → Request → Option Text
reference_of deposits r = none
reference_of _ r = or_undefined (trim r.reference_id)

-- The checks of an operation in their order, and what they make of the request.
unfoldable pub validated : Operation → Names → Request → Checked Params
unfolding normalize_currency validate_amount require_idempotency_key
validated op names r = validate_user_id names r.user_id >>= λ user_id.
    normalize_currency names r.currency >>= λ currency.
    validate_amount (limit_of op) r.amount >>= λ amount.
    require_idempotency_key r.idempotency_key >>= λ key. valid (record {
      user_id = user_id;
      currency = currency;
      amount = amount;
      idempotency_key = key;
      reference_id = reference_of op r;
    })

-- `mapMutationResult`
unfoldable pub map_mutation_result : Outcome MutationResult → Checked Account
map_mutation_result (value (ok a)) = valid a
map_mutation_result (value (idempotent_replay a)) = valid a
map_mutation_result (value not_found) = invalid account_not_found
map_mutation_result (value (insufficient_available n)) = invalid (insufficient_balance n)
map_mutation_result (value (insufficient_locked n)) = invalid (insufficient_locked_balance n)
map_mutation_result (value idempotency_payload_mismatch) = invalid payload_mismatch
map_mutation_result (throw f) = invalid (repository_failed f)

abbrev pub served : Operation → Env → Checked Params → Database → Checked Account × Database
served op env (invalid e) d = (invalid e, d)
served op env (valid p) d = let (r, d') = perform op env p d in (map_mutation_result r, d')

-- `depositSandboxFunds`, `creditDepositFunds`, `lockBalance`, `unlockBalance` and
-- `debitWithdrawalFunds`
unfoldable pub serve : Operation → Names → Env → Request → Database → Checked Account × Database
unfolding validated map_mutation_result
serve op names env r d = served op env (validated op names r) d

-- `getBalance`
abbrev pub created : Outcome Account × Database → Checked Account × Database
created (value a, d) = (valid a, d)
created (throw f, d) = (invalid (repository_failed f), d)

abbrev pub balance_of : Env → Checked (ℕ × Text) → Database → Checked Account × Database
balance_of env (invalid e) d = (invalid e, d)
balance_of env (valid (user_id, currency)) d = created (find_or_create env user_id currency d)

unfoldable pub get_balance : Names → Env → Text → Text → Database → Checked Account × Database
unfolding normalize_currency find_or_create
get_balance names env user_id currency d =
    balance_of env
      (validate_user_id names user_id >>= λ u.
        normalize_currency names currency >>= λ c. valid (u, c))
      d
