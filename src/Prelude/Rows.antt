-- ===== src/Prelude/Rows.antt =====
-- The rows of a list: what a query finds of them, and what an update leaves.
use Prim.Native.Nat.{ℕ}
use mathlib.Core.Path.{◌≡◌, refl, sym, ap, subst}
use mathlib.Core.Logic.{◌≢◌, ◌⊎◌, inl, inr}
use mathlib.Core.Bool.{Bool, true, false}
use mathlib.Core.Option.{some}
use mathlib.Core.List.{List, [], ◌∷◌}
use native.Mathlib.Omega.{arith}
use ether_trade.Prelude.Tests.{◌==◌, if◌then◌else◌, Bool-cases, ==_iff}
use ether_trade.Prelude.Lists.{All}
use ether_trade.Prelude.Tables.{select_first, select_all, update_where}
use ether_trade.Prelude.Keys.{DistinctBy}

-- A row of a list, and what a query finds of it.
abbrev pub In : {A : Type 0} → A → List A → Type 0
In x [] = ⊥
In x (y ∷ ys) = (x ≡ y) ⊎ In x ys

module _ {A : Type 0} where
  pub In-select_all :
      (p : A → Bool) (xs : List A) (a : A) → In a (select_all p xs) → (p a ≡ true) × In a xs
  unfolding select_all
  In-select_all p [] a h = absurd h
  In-select_all p (x ∷ xs) a h = elim (Bool-cases (p x)) [
    | inr miss ↦ let rest = In-select_all p xs a (rw miss at h) in (rest.0, inr rest.1)
    | inl hit ↦ hit_case p x xs a hit (In-select_all p xs a) (rw hit at h)
  ]
    where
      hit_case :
          (p : A → Bool) (x : A) (xs : List A) (a : A)
          → p x ≡ true
          → (In a (select_all p xs) → (p a ≡ true) × In a xs)
          → (a ≡ x) ⊎ In a (select_all p xs)
          → (p a ≡ true) × ((a ≡ x) ⊎ In a xs)
      hit_case p x xs a hit ih (inl e) = (subst (λ z. p z ≡ true) (sym e) hit, inl e)
      hit_case p x xs a hit ih (inr m) = ((ih m).0, inr (ih m).1)

  pub All-In {κ} : (P : A → Type κ) (xs : List A) (a : A) → All P xs → In a xs → P a
  All-In P [] a h m = absurd m
  All-In P (x ∷ xs) a h (inl e) = subst P (sym e) h.0
  All-In P (x ∷ xs) a h (inr m) = All-In P xs a h.1 m

  pub All-select_all {κ} :
      (P : A → Type κ) (p : A → Bool) (xs : List A) → All P xs → All P (select_all p xs)
  unfolding select_all
  All-select_all P p [] h = tt
  All-select_all P p (x ∷ xs) h = elim (Bool-cases (p x)) [
    | inl hit ↦ rw hit (h.0, All-select_all P p xs h.1)
    | inr miss ↦ rw miss (All-select_all P p xs h.1)
  ]

module _ {A : Type 0} (key : A → ℕ) where
  pub In-found :
      (xs : List A) (a : A)
      → DistinctBy key xs
      → In a xs
      → select_first (λ y. key y == key a) xs ≡ some a
  unfolding select_first
  In-found [] a d m = absurd m
  In-found (x ∷ xs) a d (inl e) =
      rw ((==_iff (key x) (key a)).1 (ap key (sym e))) (ap (λ z. some z) (sym e))
  In-found (x ∷ xs) a d (inr m) =
      let apart : key a ≢ key x = All-In (λ y. key y ≢ key x) xs a d.0 m in
      elim (Bool-cases (key x == key a)) [
        | inl same ↦ absurd (apart (ground arith))
        | inr other ↦ rw other (In-found xs a d.1 m)
      ]

  pub DistinctBy-select_all :
      (p : A → Bool) (xs : List A) → DistinctBy key xs → DistinctBy key (select_all p xs)
  unfolding select_all
  DistinctBy-select_all p [] d = tt
  DistinctBy-select_all p (x ∷ xs) d = elim (Bool-cases (p x)) [
    | inl hit ↦
        rw hit (All-select_all (λ y. key y ≢ key x) p xs d.0, DistinctBy-select_all p xs d.1)
    | inr miss ↦ rw miss (DistinctBy-select_all p xs d.1)
  ]

  -- An update of another row leaves what a query by key finds.
  pub select_first-other :
      (g : A → A) (k j : ℕ) (xs : List A)
      → ((x : A) → key (g x) ≡ key x)
      → k ≢ j
      → select_first (λ y. key y == j) (update_where (λ y. key y == k) g xs)
        ≡ select_first (λ y. key y == j) xs
  unfolding select_first update_where
  select_first-other g k j [] keeps apart = refl
  select_first-other g k j (x ∷ xs) keeps apart = elim (Bool-cases (key x == k)) [
    | inr miss ↦
        rw miss
          (ap (λ o. if key x == j then some x else o) (select_first-other g k j xs keeps apart))
    | inl hit ↦
        let other : (key x == j) ≡ false = ground (arith, apart) in
        let still : (key (g x) == j) ≡ false = rw (keeps x) other in
        rw (hit, other, still) (select_first-other g k j xs keeps apart)
  ]
