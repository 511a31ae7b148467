-- ===== src/Prelude/Keys.antt =====
-- Tables whose rows have distinct keys: what a query by key finds, and what an update by key changes.
use Prim.Native.Nat.{ℕ, ◌+◌}
use mathlib.Core.Path.{◌≡◌, refl, sym, ap, ◌∙◌, subst}
use mathlib.Core.Logic.{◌≢◌, inl, inr}
use mathlib.Core.Bool.{Bool, true}
use mathlib.Core.Option.{none, some}
use mathlib.Core.List.{List, [], ◌∷◌, ◌++◌}
use native.Mathlib.Omega.{arith}
use ether_trade.Prelude.Tests.{◌==◌, if◌then◌else◌, Bool-cases, ==_iff}
use ether_trade.Prelude.Lists.{All, sum_of, All-append}
use ether_trade.Prelude.Tables.{
  select_first, select_all, update_where, All-update_where, select_first-All,
}

module _ {ℓ} {A : Type ℓ} (key : A → ℕ) where
  abbrev pub DistinctBy : List A → Type 0
  DistinctBy [] = Unit
  DistinctBy (x ∷ xs) = All (λ y. key y ≢ key x) xs × DistinctBy xs

  -- No row of the others has the key of the first.
  pub select_first-apart :
      (k : ℕ) (xs : List A) → All (λ y. key y ≢ k) xs → select_first (λ y. key y == k) xs ≡ none
  unfolding select_first
  select_first-apart k [] h = refl
  select_first-apart k (x ∷ xs) h = elim (Bool-cases (key x == k)) [
    | inl same ↦ absurd (h.0 (ground arith))
    | inr other ↦ rw other (select_first-apart k xs h.1)
  ]

  pub update_where-apart :
      (k : ℕ) (g : A → A) (xs : List A)
      → All (λ y. key y ≢ k) xs
      → update_where (λ y. key y == k) g xs ≡ xs
  unfolding update_where
  update_where-apart k g [] h = refl
  update_where-apart k g (x ∷ xs) h = elim (Bool-cases (key x == k)) [
    | inl same ↦ absurd (h.0 (ground arith))
    | inr other ↦ rw (other, update_where-apart k g xs h.1)
  ]

  -- A row that a query finds is found by its key.
  pub select_first-by_key :
      (p : A → Bool) (xs : List A) (a : A)
      → DistinctBy xs
      → select_first p xs ≡ some a
      → select_first (λ y. key y == key a) xs ≡ some a
  unfolding select_first
  select_first-by_key p [] a d h = cc
  select_first-by_key p (x ∷ xs) a d h = elim (Bool-cases (p x)) [
    | inl hit ↦
        let same : x ≡ a = ground arith in
        subst
          (λ z. (if key x == key z then some x else select_first (λ y. key y == key z) xs) ≡ some z)
          same (rw ((==_iff (key x) (key x)).1 refl))
    | inr miss ↦
        let rest : select_first p xs ≡ some a = rw miss at h in
        let apart : key a ≢ key x = select_first-All (λ y. key y ≢ key x) p xs a d.0 rest in
        elim (Bool-cases (key x == key a)) [
          | inl same ↦ absurd (apart (ground arith))
          | inr other ↦ rw other (select_first-by_key p xs a d.1 rest)
        ]
  ]

  pub DistinctBy-append :
      (xs : List A) (y : A)
      → DistinctBy xs
      → select_first (λ z. key z == key y) xs ≡ none
      → DistinctBy (xs ++ y ∷ [])
  unfolding select_first
  DistinctBy-append [] y d h = (tt, tt)
  DistinctBy-append (x ∷ xs) y d h = elim (Bool-cases (key x == key y)) [
    | inl same ↦ cc (rw same at h)
    | inr other ↦ (
      All-append (λ z. key z ≢ key x) xs (y ∷ []) d.0
          ((λ (e : key y ≡ key x). ground (arith, e)), tt),
      DistinctBy-append xs y d.1 (rw other at h),
    )
  ]

module _ {ℓ} {A : Type ℓ} (key : A → ℕ) (g : A → A) (keeps : (x : A) → key (g x) ≡ key x) where
  pub DistinctBy-update_where :
      (p : A → Bool) (xs : List A) → DistinctBy key xs → DistinctBy key (update_where p g xs)
  unfolding update_where
  DistinctBy-update_where p [] d = tt
  DistinctBy-update_where p (x ∷ xs) d =
      let apart =
        All-update_where (λ y. key y ≢ key x) p g xs (λ y hit ne e. ne (sym (keeps y) ∙ e)) d.0 in
      elim (Bool-cases (p x)) [
        | inl hit ↦ rw hit (
          subst (λ k. All (λ y. key y ≢ k) (update_where p g xs)) (sym (keeps x)) apart,
          DistinctBy-update_where p xs d.1,
        )
        | inr miss ↦ rw miss (apart, DistinctBy-update_where p xs d.1)
      ]

  -- The row that was updated is found as it is now.
  pub select_first-updated :
      (k : ℕ) (xs : List A) (a : A)
      → select_first (λ y. key y == k) xs ≡ some a
      → select_first (λ y. key y == k) (update_where (λ y. key y == k) g xs) ≡ some (g a)
  unfolding select_first update_where
  select_first-updated k [] a h = cc
  select_first-updated k (x ∷ xs) a h = elim (Bool-cases (key x == k)) [
    | inl hit ↦
        let same : x ≡ a = ground arith in
        let now : (key (g x) == k) ≡ true = rw (keeps x) hit in
        rw (hit, now) (ap (λ z. some (g z)) same)
    | inr miss ↦ rw (miss, miss) (select_first-updated k xs a (rw miss at h))
  ]

-- An update of the one row with a key changes a sum by what it changes of that row.
pub sum_of-update_where {ℓ} :
    {A : Type ℓ} (key : A → ℕ) (g : A → A) (w : A → ℕ) (k : ℕ) (xs : List A) (a : A)
    → DistinctBy key xs
    → select_first (λ y. key y == k) xs ≡ some a
    → sum_of w (update_where (λ y. key y == k) g xs) + w a ≡ sum_of w xs + w (g a)
unfolding select_first update_where
sum_of-update_where key g w k [] a d h = cc
sum_of-update_where key g w k (x ∷ xs) a d h = elim (Bool-cases (key x == k)) [
  | inl hit ↦
      let here : key x ≡ k = ground arith in
      let same : x ≡ a = ground arith in
      let rest = update_where-apart key k g xs (subst (λ n. All (λ y. key y ≢ n) xs) here d.0) in
      rw (hit, rest)
        (subst (λ z. w (g x) + sum_of w xs + w z ≡ w x + sum_of w xs + w (g z)) same (omega arith))
  | inr miss ↦ rw miss (omega (arith, sum_of-update_where key g w k xs a d.1 (rw miss at h)))
]

-- The sum over the rows that a query selects.
pub sum_of-select_all {ℓ} :
    {A : Type ℓ} (w : A → ℕ) (p : A → Bool) (xs : List A)
    → sum_of w (select_all p xs) ≡ sum_of (λ x. if p x then w x else 0) xs
unfolding select_all
sum_of-select_all w p [] = refl
sum_of-select_all w p (x ∷ xs) = elim (Bool-cases (p x)) [
  | inl hit ↦ rw hit (ap (λ n. w x + n) (sum_of-select_all w p xs))
  | inr miss ↦ rw miss (omega (arith, sum_of-select_all w p xs))
]

-- What is not found with a row appended was not found before.
pub select_first-before {ℓ} :
    {A : Type ℓ} (q : A → Bool) (xs : List A) (y : A)
    → select_first q (xs ++ y ∷ []) ≡ none
    → select_first q xs ≡ none
unfolding select_first
select_first-before q [] y h = refl
select_first-before q (x ∷ xs) y h = elim (Bool-cases (q x)) [
  | inl hit ↦ cc (rw hit at h)
  | inr miss ↦ rw miss (select_first-before q xs y (rw miss at h))
]

module _ {A : Type 0} (p : A → Bool) (g : A → A) where
  -- An update that a sum does not see.
  pub sum_of-unseen :
      (w : A → ℕ) (xs : List A)
      → ((x : A) → w (g x) ≡ w x)
      → sum_of w (update_where p g xs) ≡ sum_of w xs
  unfolding update_where
  sum_of-unseen w [] same = refl
  sum_of-unseen w (x ∷ xs) same = elim (Bool-cases (p x)) [
    | inl hit ↦ rw (hit, same x) (ap (λ n. w x + n) (sum_of-unseen w xs same))
    | inr miss ↦ rw miss (ap (λ n. w x + n) (sum_of-unseen w xs same))
  ]

  -- An update that a query does not see.
  pub select_first-unseen :
      (q : A → Bool) (xs : List A)
      → ((x : A) → q (g x) ≡ q x)
      → select_first q (update_where p g xs) ≡ none
      → select_first q xs ≡ none
  unfolding select_first update_where
  select_first-unseen q [] same h = refl
  select_first-unseen q (x ∷ xs) same h = elim (Bool-cases (p x)) [
    | inl hit ↦ unseen_head q x (g x) xs (same x) (select_first-unseen q xs same) (rw hit at h)
    | inr miss ↦ unseen_head q x x xs refl (select_first-unseen q xs same) (rw miss at h)
  ]
    where
      unseen_head :
          (q : A → Bool) (x y : A) (xs : List A)
          → q y ≡ q x
          → (select_first q (update_where p g xs) ≡ none → select_first q xs ≡ none)
          → (if q y then some y else select_first q (update_where p g xs)) ≡ none
          → (if q x then some x else select_first q xs) ≡ none
      unseen_head q x y xs same ih h = ground (arith, ih, same, h)

-- What holds of all rows, and of one row as it is updated, holds after an update by that row's key.
pub All-update_one {κ} :
    {A : Type 0} (P : A → Type κ) (key : A → ℕ) (g : A → A) (k : ℕ) (xs : List A) (a : A)
    → DistinctBy key xs
    → select_first (λ y. key y == k) xs ≡ some a
    → P (g a)
    → All P xs
    → All P (update_where (λ y. key y == k) g xs)
unfolding select_first update_where
All-update_one P key g k [] a d h now all = tt
All-update_one P key g k (x ∷ xs) a d h now all = elim (Bool-cases (key x == k)) [
  | inl hit ↦
      let here : key x ≡ k = ground arith in
      let same : x ≡ a = ground arith in
      let rest = update_where-apart key k g xs (subst (λ n. All (λ y. key y ≢ n) xs) here d.0) in
      rw (hit, rest) (subst (λ z. P (g z)) (sym same) now, all.1)
  | inr miss ↦ rw miss (all.0, All-update_one P key g k xs a d.1 (rw miss at h) now all.1)
]
