-- ===== src/CopyTrading/Service/FastPath.antt =====
-- The map of active masters of apps/copy-trading/src/copy-trading.service.ts against the rows.
use ether_trade.Prelude.{
  ℕ, ◌≡◌, ◌≢◌, subst, refl, sym, ap, ◌∙◌, Bool, true, ◌&&◌, Option, none, some, List, [], ◌∷◌, ◌++◌,
  ◌==◌, if◌then◌else◌, All, ==_iff, arith, Bool-cases, inl, inr, select_first, select_all,
  update_where,
}
use ether_trade.Prelude.Keys.{DistinctBy}
use ether_trade.CopyTrading.Types.{MasterTrader}
use ether_trade.CopyTrading.Repository.{find_all_active, master_is, changed_copiers}
use ether_trade.CopyTrading.Caches.{
  State, Env, get_active_master_id, load_masters, preload_active_masters,
}

abbrev active_of : ℕ → MasterTrader → Bool
active_of user m = m.is_active && m.user_id == user

-- The id of the active row of a user.
unfoldable pub active_row : ℕ → List MasterTrader → Option ℕ
active_row user [] = none
active_row user (m ∷ ms) = if active_of user m then some m.id else active_row user ms

abbrev pub or_else : Option ℕ → Option ℕ → Option ℕ
or_else (some a) other = some a
or_else none other = other

active_row-apart :
    (user : ℕ) (ms : List MasterTrader)
    → All (λ (m : MasterTrader). m.user_id ≢ user) ms
    → active_row user ms ≡ none
unfolding active_row
active_row-apart user [] h = refl
active_row-apart user (m ∷ ms) h = ground (arith, active_row-apart user ms h.1)

load_masters-lookup :
    (user : ℕ) (ms : List MasterTrader) (acc : List (ℕ × ℕ))
    → DistinctBy (λ (m : MasterTrader). m.user_id) ms
    → get_active_master_id user (load_masters (select_all (λ m. m.is_active) ms) acc)
      ≡ or_else (active_row user ms) (get_active_master_id user acc)
unfolding load_masters get_active_master_id active_row select_all
load_masters-lookup user [] acc d = refl
load_masters-lookup user (m ∷ ms) acc d = elim (Bool-cases m.is_active) [
  | inr off ↦ rw off (load_masters-lookup user ms acc d.1)
  | inl on ↦ rw on (elim (Bool-cases (m.user_id == user)) [
    | inr other ↦
        rw other (load_masters-lookup user ms ((m.user_id, m.id) ∷ acc) d.1 ∙ rw other refl)
    | inl here ↦
        let none_left = active_row-apart user ms (
          subst (λ (k : ℕ). All (λ (x : MasterTrader). x.user_id ≢ k) ms)
            ((==_iff m.user_id user).0 here) d.0) in
        rw here
          (load_masters-lookup user ms ((m.user_id, m.id) ∷ acc) d.1 ∙ rw (none_left, here) refl)
  ])
]

or_else-none : (o : Option ℕ) → or_else o none ≡ o
or_else-none none = refl
or_else-none (some a) = refl

-- A row that is appended for a user who had none is the user's.
active_row-append :
    (user : ℕ) (ms : List MasterTrader) (x : MasterTrader)
    → active_row user (ms ++ x ∷ [])
      ≡ or_else (active_row user ms) (if active_of user x then some x.id else none)
unfolding active_row
active_row-append user [] x = refl
active_row-append user (m ∷ ms) x = elim (Bool-cases (active_of user m)) [
  | inl hit ↦ rw hit refl
  | inr miss ↦ rw miss (active_row-append user ms x)
]

active_row-none :
    (user : ℕ) (ms : List MasterTrader)
    → select_first (λ (m : MasterTrader). m.user_id == user) ms ≡ none
    → active_row user ms ≡ none
unfolding active_row select_first
active_row-none user [] h = refl
active_row-none user (m ∷ ms) h = ground (arith, active_row-none user ms)

-- The map gives each user's active row, and nothing for the others.
abbrev pub Agrees : List (ℕ × ℕ) → List MasterTrader → Type 0
Agrees entries ms = (user : ℕ) → get_active_master_id user entries ≡ active_row user ms

pub preload-Agrees :
    (env : Env) (s : State)
    → DistinctBy (λ (m : MasterTrader). m.user_id) s.db.masters
    → Agrees (preload_active_masters env s).active_masters s.db.masters
unfolding preload_active_masters find_all_active get_active_master_id
preload-Agrees env s d user =
    load_masters-lookup user s.db.masters [] d ∙ or_else-none (active_row user s.db.masters)

pub Agrees-append :
    (entries : List (ℕ × ℕ)) (ms : List MasterTrader) (x : MasterTrader)
    → x.is_active ≡ true
    → select_first (λ (m : MasterTrader). m.user_id == x.user_id) ms ≡ none
    → Agrees entries ms
    → Agrees ((x.user_id, x.id) ∷ entries) (ms ++ x ∷ [])
unfolding get_active_master_id
Agrees-append entries ms x on free agrees user = elim (Bool-cases (x.user_id == user)) [
  | inl mine ↦
      let empty = active_row-none user ms (
        subst (λ (k : ℕ). select_first (λ (m : MasterTrader). m.user_id == k) ms ≡ none)
          ((==_iff x.user_id user).0 mine) free) in
      rw (mine, active_row-append user ms x, empty, on, mine) refl
  | inr other ↦
      rw (other, active_row-append user ms x, on, other)
        (agrees user ∙ sym (or_else-none (active_row user ms)))
]

-- Counting copiers changes nothing that the map is about.
pub active_row-changed :
    (now user id : ℕ) (f : ℕ → ℕ) (ms : List MasterTrader)
    → active_row user (update_where (master_is id) (changed_copiers f now) ms) ≡ active_row user ms
unfolding active_row update_where
active_row-changed now user id f [] = refl
active_row-changed now user id f (m ∷ ms) = elim (Bool-cases (m.id == id)) [
  | inl hit ↦
      rw hit
        (ap (λ o. if active_of user m then some m.id else o) (active_row-changed now user id f ms))
  | inr miss ↦
      rw miss
        (ap (λ o. if active_of user m then some m.id else o) (active_row-changed now user id f ms))
]
