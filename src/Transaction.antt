-- ===== src/Transaction.antt =====
-- A PostgreSQL transaction as the services use it through drizzle (`db.transaction`): statements
-- run one after another on a working copy of the database; after a statement has failed, every
-- later statement of the same transaction fails too, and what was written is rolled back.
use ether_trade.Prelude.{◌≡◌, refl, ap, Bool, true, false, if◌then◌else◌}

-- What a statement or the body of a transaction throws.
pub data Fault : Type 0 where
  unique_violation in_failed_transaction account_create_failed locks_not_acquired : Fault
  publish_failed connection_lost : Fault
  -- a property of `undefined` was read
  type_error : Fault

pub data Outcome (A : Type 0) : Type 0 where
  value : A → Outcome A
  throw : Fault → Outcome A

-- `base` is what a rollback leaves, `db` the working copy.
pub record Session (D : Type 0) : Type 0 where
  pub base : D
  pub db : D
  pub failed : Bool

abbrev pub Tx : Type 0 → Type 0 → Type 0
Tx D A = Session D → Outcome A × Session D

module _ {D : Type 0} where
  abbrev pub pure : {A : Type 0} → A → Tx D A
  pure a s = (value a, s)

  abbrev pub raise : {A : Type 0} → Fault → Tx D A
  raise e s = (throw e, s)

  infixl 5 ◌>>=◌ ◌>>◌
  abbrev pub ◌>>=◌ : {A B : Type 0} → Tx D A → (A → Tx D B) → Tx D B
  ◌>>=◌ m f s = let (r, s') = m s in elim r [ value a ↦ f a s' | throw e ↦ (throw e, s') ]

  abbrev pub ◌>>◌ : {A B : Type 0} → Tx D A → Tx D B → Tx D B
  m >> k = m >>= λ _. k

  -- `try { m } catch { h }`
  abbrev pub catch : {A : Type 0} → Tx D A → (Fault → Tx D A) → Tx D A
  catch m h s = let (r, s') = m s in elim r [ value a ↦ (value a, s') | throw e ↦ h e s' ]

  abbrev pub statement : {A : Type 0} → Tx D A → Tx D A
  statement m s = if s.failed then (throw in_failed_transaction, s) else m s

  abbrev pub select : {A : Type 0} → (D → A) → Tx D A
  select f = statement (λ s. (value (f s.db), s))

  -- `select … for update` can wait for a row lock: `others` is what other transactions committed
  -- meanwhile. It stands where nothing has been written yet.
  abbrev pub await_others : (D → D) → Tx D (Unit {0})
  await_others others =
      statement (λ s. (value tt, record s { base = others s.base; db = others s.db }))

  abbrev pub update : (D → D) → Tx D (Unit {0})
  update f = statement (λ s. (value tt, record s { db = f s.db }))

  -- An insert that a unique index can refuse.
  abbrev pub insert : (D → Bool) → (D → D) → Tx D (Unit {0})
  insert conflict f = statement λ s.
      if conflict s.db
      then (throw unique_violation, record s { failed = true })
      else (value tt, record s { db = f s.db })

  -- `db.transaction(body)`: committed unless the body threw or a statement failed.
  abbrev pub finish : {A : Type 0} → Outcome A → Session D → Outcome A × D
  finish (value a) s = (value a, if s.failed then s.base else s.db)
  finish (throw e) s = (throw e, s.base)

  abbrev pub transaction : {A : Type 0} → Tx D A → D → Outcome A × D
  transaction m d = let (r, s) = m (record { base = d; db = d; failed = false }) in finish r s

  abbrev pub then_on : {A B : Type 0} → (A → Tx D B) → Outcome A × Session D → Outcome B × Session D
  then_on f (r, s) = elim r [ value a ↦ f a s | throw e ↦ (throw e, s) ]

  abbrev pub closed : {A : Type 0} → Outcome A × Session D → Outcome A × D
  closed (r, s) = finish r s

  -- A transaction whose next statement is known goes on from its result.
  pub bind_step :
      {A B : Type 0} (m : Tx D A) (f : A → Tx D B) (s : Session D) (z : Outcome A × Session D)
      → m s ≡ z
      → closed ((m >>= f) s) ≡ closed (then_on f z)
  bind_step m f s z e = ap (λ w. closed (then_on f w)) e

  pub closed-if :
      {A : Type 0} (b : Bool) (x y : Outcome A × Session D)
      → closed (if b then x else y) ≡ (if b then closed x else closed y)
  closed-if true x y = refl
  closed-if false x y = refl
