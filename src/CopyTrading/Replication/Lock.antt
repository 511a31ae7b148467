-- ===== src/CopyTrading/Replication/Lock.antt =====
-- apps/copy-trading/src/lock/distributed-lock.service.ts. The followers' ids are the keys of the locks.
use ether_trade.Prelude.{
  ℕ, Bool, true, false, not, ◌&&◌, ◌||◌, Option, none, some, List, ◌∷◌, ◌==◌, if◌then◌else◌,
  select_first, select_all,
}
use ether_trade.CopyTrading.Types.{HeldLock}
use ether_trade.CopyTrading.Repository.{is_some}

-- `acquireLock`: `SET key token NX`, nothing if the key is there or if Valkey does not answer.
unfoldable pub acquire_lock : Bool → ℕ → ℕ → List HeldLock → Option ℕ × List HeldLock
acquire_lock answers follower token locks =
    if not answers || is_some (select_first (λ l. l.follower == follower) locks)
    then (none, locks)
    else (some token, record { follower = follower; token = token } ∷ locks)

-- `releaseLock`: the key is deleted if it has the token, in one script.
abbrev pub is_owned : ℕ → ℕ → HeldLock → Bool
is_owned follower token l = l.follower == follower && l.token == token

unfoldable pub release_lock : Bool → ℕ → ℕ → List HeldLock → Bool × List HeldLock
release_lock answers follower token locks =
    if answers && is_some (select_first (is_owned follower token) locks)
    then (true, select_all (λ l. not (is_owned follower token l)) locks)
    else (false, locks)
