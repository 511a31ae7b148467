-- ===== src/CopyTrading/Caches.antt =====
-- The state of apps/copy-trading/src/copy-trading.service.ts, with its map of active masters and its
-- cache of balances.
use ether_trade.Prelude.{
  ℕ, ◌+◌, Bool, not, ◌&&◌, Option, none, some, List, [], ◌∷◌, ◌++◌, map, Text, text_eq, ◌==◌, ltb,
  if◌then◌else◌, select_first, select_all,
}
use ether_trade.CopyTrading.Types.{MasterTrader, Database, CachedBalance, cache_ttl}
use ether_trade.CopyTrading.Repository.{find_all_active}

pub data ServiceError : Type 0 where
  master_not_found master_inactive insufficient_deposit subscription_already_exists : ServiceError
  allocation_exceeds_balance subscription_not_found unique_violation : ServiceError
  -- a property of `undefined` was read
  type_error : ServiceError

pub data Result (A : Type 0) : Type 0 where
  ok : A → Result A
  error : ServiceError → Result A

-- `activeMastersMap`, the last entry of a user first, and Valkey's set and cache.
pub record State : Type 0 where
  pub db : Database
  pub active_masters : List (ℕ × ℕ)
  pub masters_set : List ℕ
  pub cache : List CachedBalance

-- What a call takes from outside: the time, the id of a new row, whether Valkey answers, what the
-- accounts service answers (an error is `none`, no balance is `some none`), and what other
-- transactions commit between the checks and the write.
pub record Env : Type 0 where
  pub now : ℕ
  pub new_id : ℕ
  pub valkey_answers : Bool
  pub get_balance : ℕ → Text → Option (Option ℕ)
  pub meanwhile : Database → Database

-- `getActiveMasterId`
unfoldable pub get_active_master_id : ℕ → List (ℕ × ℕ) → Option ℕ
get_active_master_id user [] = none
get_active_master_id user ((u, id) ∷ rest) =
    if u == user then some id else get_active_master_id user rest

-- `preloadActiveMasters`: the map is cleared and filled from the rows; the set only grows.
unfoldable pub load_masters : List MasterTrader → List (ℕ × ℕ) → List (ℕ × ℕ)
load_masters [] acc = acc
load_masters (m ∷ ms) acc = load_masters ms ((m.user_id, m.id) ∷ acc)

unfoldable pub preload_active_masters : Env → State → State
unfolding load_masters
preload_active_masters env s =
    let rows = find_all_active s.db in
    record s {
      active_masters = load_masters rows [];
      masters_set =
          if env.valkey_answers then s.masters_set ++ map (λ m. m.user_id) rows else s.masters_set;
    }

-- `getMasterOrFollowerBalance`
abbrev pub is_of : ℕ → Text → CachedBalance → Bool
is_of user currency c = c.user_id == user && text_eq c.currency currency

abbrev pub is_cached : ℕ → ℕ → Text → CachedBalance → Bool
is_cached now user currency c = is_of user currency c && ltb now c.expires_at

abbrev pub cached_balance : Env → ℕ → Text → List CachedBalance → Option CachedBalance
cached_balance env user currency cache =
    if env.valkey_answers then select_first (is_cached env.now user currency) cache else none

abbrev pub remember : Env → ℕ → Text → ℕ → List CachedBalance → List CachedBalance
remember env user currency balance cache =
    if env.valkey_answers
    then record {
      user_id = user;
      currency = currency;
      balance = balance;
      expires_at = env.now + cache_ttl;
    }
      ∷ select_all (λ c. not (is_of user currency c)) cache
    else cache

abbrev pub fetched :
    Env → ℕ → Text → List CachedBalance → Option (Option ℕ) → ℕ × List CachedBalance
fetched env user currency cache none = (0, cache)
fetched env user currency cache (some none) = (0, remember env user currency 0 cache)
fetched env user currency cache (some (some balance)) =
    (balance, remember env user currency balance cache)

abbrev pub balance_from :
    Env → ℕ → Text → List CachedBalance → Option CachedBalance → ℕ × List CachedBalance
balance_from env user currency cache none =
    fetched env user currency cache (env.get_balance user currency)
balance_from env user currency cache (some c) = (c.balance, cache)

unfoldable pub get_master_or_follower_balance :
    Env → ℕ → Text → List CachedBalance → ℕ × List CachedBalance
get_master_or_follower_balance env user currency cache =
    balance_from env user currency cache (cached_balance env user currency cache)
