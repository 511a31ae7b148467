-- ===== src/Prelude/Tables.antt =====
-- Database tables as lists of rows: what the queries of the repositories do with them.
use mathlib.Core.Path.{◌≡◌, refl}
use mathlib.Core.Bool.{Bool, true, false}
use mathlib.Core.Option.{Option, none, some}
use mathlib.Core.List.{List, [], ◌∷◌, ◌++◌}
use native.Mathlib.Omega.{arith}
use mathlib.Core.Path.{subst}
use mathlib.Core.Logic.{inl, inr}
use ether_trade.Prelude.Tests.{if◌then◌else◌, Bool-cases}
use ether_trade.Prelude.Lists.{All}

module _ {ℓ} {A : Type ℓ} where
  -- `select … where p limit 1`
  unfoldable pub select_first : (A → Bool) → List A → Option A
  select_first p [] = none
  select_first p (x ∷ xs) = if p x then some x else select_first p xs

  -- `select … where p`
  unfoldable pub select_all : (A → Bool) → List A → List A
  select_all p [] = []
  select_all p (x ∷ xs) = let rest = select_all p xs in if p x then x ∷ rest else rest

  -- `update … set f where p`
  unfoldable pub update_where : (A → Bool) → (A → A) → List A → List A
  update_where p f [] = []
  update_where p f (x ∷ xs) = (if p x then f x else x) ∷ update_where p f xs

  pub select_first-holds :
      (p : A → Bool) (xs : List A) (a : A) → select_first p xs ≡ some a → p a ≡ true
  unfolding select_first
  select_first-holds p [] a h = cc
  select_first-holds p (x ∷ xs) a h = ground (arith, select_first-holds p xs a)

  -- A row that is appended is found if no row before it fits.
  pub select_first-append :
      (p : A → Bool) (xs : List A) (y : A)
      → select_first p xs ≡ none
      → select_first p (xs ++ y ∷ []) ≡ (if p y then some y else none)
  unfolding select_first
  select_first-append p [] y h = refl
  select_first-append p (x ∷ xs) y h = ground (arith, select_first-append p xs y)

  pub select_first-append_found :
      (p : A → Bool) (xs ys : List A) (a : A)
      → select_first p xs ≡ some a
      → select_first p (xs ++ ys) ≡ some a
  unfolding select_first
  select_first-append_found p [] ys a h = cc
  select_first-append_found p (x ∷ xs) ys a h = ground (arith, select_first-append_found p xs ys a)

  -- An update that no row fits changes nothing.
  pub update_where-none :
      (p : A → Bool) (f : A → A) (xs : List A) → select_first p xs ≡ none → update_where p f xs ≡ xs
  unfolding select_first update_where
  update_where-none p f [] h = refl
  update_where-none p f (x ∷ xs) h = ground (arith, update_where-none p f xs)

  pub select_first-miss :
      (p : A → Bool) (x : A) (xs : List A)
      → p x ≡ false
      → select_first p (x ∷ xs) ≡ select_first p xs
  unfolding select_first
  select_first-miss p x xs h = rw h

  -- What holds of every row holds of the row that a query finds.
  pub select_first-All {κ} :
      (P : A → Type κ) (p : A → Bool) (xs : List A) (a : A)
      → All P xs
      → select_first p xs ≡ some a
      → P a
  unfolding select_first
  select_first-All P p [] a h e = cc
  select_first-All P p (x ∷ xs) a h e = elim (Bool-cases (p x)) [
    | inl hit ↦ let same : x ≡ a = ground arith in subst P same h.0
    | inr miss ↦ select_first-All P p xs a h.1 (rw miss at e)
  ]

  pub All-update_where {κ} :
      (P : A → Type κ) (p : A → Bool) (f : A → A) (xs : List A)
      → ((x : A) → p x ≡ true → P x → P (f x))
      → All P xs
      → All P (update_where p f xs)
  unfolding update_where
  All-update_where P p f [] keep h = tt
  All-update_where P p f (x ∷ xs) keep h = elim (Bool-cases (p x)) [
    | inl hit ↦ rw hit (keep x hit h.0, All-update_where P p f xs keep h.1)
    | inr miss ↦ rw miss (h.0, All-update_where P p f xs keep h.1)
  ]
