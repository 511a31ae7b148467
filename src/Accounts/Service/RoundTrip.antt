-- ===== src/Accounts/Service/RoundTrip.antt =====
-- An amount that is written with eight decimals is read back: `toFixed(8)` against the reading of
-- `validateAmount` in apps/accounts/src/balances/balances.service.ts.
use ether_trade.Prelude.{
  ℕ, zero, suc, ◌+◌, ◌-◌, ◌*◌, ◌/◌, ◌%◌, ◌<◌, true, false, some, [], ◌∷◌, ◌++◌, Text, ◌==◌, ltb,
  ◌≡◌, refl, sym, ap, ◌∙◌, arith, ltb→lt, Bool-cases, inl, inr, append_assoc,
}
use ether_trade.Accounts.Service.Amounts.{
  is_digit, scan, whole, scaled, fraction, after_scan, after_whole, read_amount, digits_of,
  places_of, to_fixed_8,
}

-- One digit more.
scan-digit :
    (acc d : ℕ) (rest : Text) → d < 10 → scan acc ((48 + d) ∷ rest) ≡ scan (acc * 10 + d) rest
unfolding scan
scan-digit acc d rest small =
    let digit : is_digit (48 + d) ≡ true = ground arith in
    let value : acc * 10 + (48 + d - 48) ≡ acc * 10 + d = omega arith in
    rw digit (ap (λ n. scan n rest) value)

scan-digits_of :
    (fuel n : ℕ) (rest : Text) → n < fuel → scan 0 (digits_of fuel n ++ rest) ≡ scan n rest
unfolding digits_of
scan-digits_of zero n rest enough = ground arith
scan-digits_of (suc fuel) n rest enough = elim (Bool-cases (ltb n 10)) [
  | inl small ↦
      let is_small = ltb→lt n 10 small in
      let value : 0 * 10 + n ≡ n = omega arith in
      rw small (scan-digit 0 n rest is_small ∙ ap (λ k. scan k rest) value)
  | inr large ↦
      let value : n / 10 * 10 + n % 10 ≡ n = omega arith in
      let fewer : n / 10 < fuel = ground arith in
      rw large (
        ap (scan 0) (append_assoc (digits_of fuel (n / 10)) ((48 + n % 10) ∷ []) rest)
        ∙ scan-digits_of fuel (n / 10) ((48 + n % 10) ∷ rest) fewer
        ∙ scan-digit (n / 10) (n % 10) rest (omega arith)
        ∙ ap (λ k. scan k rest) value)
]

whole-digit :
    (d : ℕ) (rest : Text)
    → 0 < d
    → d < 10
    → whole ((48 + d) ∷ rest) ≡ some (scan 0 ((48 + d) ∷ rest))
unfolding whole
whole-digit d rest positive small =
    let not_zero : (48 + d == 48) ≡ false = ground arith in
    let digit : is_digit (48 + d) ≡ true = ground arith in rw (not_zero, digit) refl

whole-digits_of :
    (fuel n : ℕ) (rest : Text)
    → n < fuel
    → 0 < n
    → whole (digits_of fuel n ++ rest) ≡ some (scan 0 (digits_of fuel n ++ rest))
unfolding digits_of
whole-digits_of zero n rest enough some_left = ground arith
whole-digits_of (suc fuel) n rest enough some_left = elim (Bool-cases (ltb n 10)) [
  | inl small ↦ rw small (whole-digit n rest some_left (ltb→lt n 10 small))
  | inr large ↦
      let fewer : n / 10 < fuel = ground arith in
      let not_zero : 0 < n / 10 = ground arith in
      let assoc = append_assoc (digits_of fuel (n / 10)) ((48 + n % 10) ∷ []) rest in
      rw large (
        ap whole assoc
        ∙ whole-digits_of fuel (n / 10) ((48 + n % 10) ∷ rest) fewer not_zero
        ∙ ap (λ t. some (scan 0 t)) (sym assoc))
]

scaled_step : (k n : ℕ) → scaled (suc k) n ≡ scaled k n * 10
unfolding scaled
scaled_step zero n = refl
scaled_step (suc k) n = scaled_step k (n * 10)

fraction-digit :
    (j acc d : ℕ) (rest : Text)
    → d < 10
    → fraction (suc j) acc ((48 + d) ∷ rest) ≡ fraction j (acc * 10 + d) rest
unfolding fraction
fraction-digit j acc d rest small =
    let digit : is_digit (48 + d) ≡ true = ground arith in
    let value : acc * 10 + (48 + d - 48) ≡ acc * 10 + d = omega arith in
    rw digit (ap (λ n. fraction j n rest) value)

fraction-places_of :
    (k j acc m : ℕ) (rest : Text)
    → m < scaled k 1
    → fraction (k + j) acc (places_of k m ++ rest) ≡ fraction j (scaled k acc + m) rest
unfolding places_of scaled
fraction-places_of zero j acc m rest small =
    let index : 0 + j ≡ j = omega arith in
    let value : acc ≡ acc + m = omega arith in
    ap (λ i. fraction i acc rest) index ∙ ap (λ n. fraction j n rest) value
fraction-places_of (suc k) j acc m rest small =
    let index : suc k + j ≡ k + suc j = omega arith in
    let d = m % 10 in
    let one = scaled_step k 1 in
    let step = scaled_step k acc in
    let fewer : m / 10 < scaled k 1 = omega arith in
    let value : (scaled k acc + m / 10) * 10 + d ≡ scaled (suc k) acc + m = omega arith in
    ap (fraction (suc k + j) acc) (append_assoc (places_of k (m / 10)) ((48 + d) ∷ []) rest)
    ∙ ap (λ i. fraction i acc (places_of k (m / 10) ++ (48 + d) ∷ rest)) index
    ∙ fraction-places_of k (suc j) acc (m / 10) ((48 + d) ∷ rest) fewer
    ∙ fraction-digit j (scaled k acc + m / 10) d rest (omega arith)
    ∙ ap (λ n. fraction j n rest) value

-- The digits before the point are read up to the point.
whole-number :
    (fuel n : ℕ) (t : Text) → n < fuel → whole (digits_of fuel n ++ 46 ∷ t) ≡ some (n, 46 ∷ t)
unfolding digits_of whole scan
whole-number zero n t enough = ground arith
whole-number (suc fuel) zero t enough = refl
whole-number (suc fuel) (suc n) t enough =
    whole-digits_of (suc fuel) (suc n) (46 ∷ t) enough (omega arith)
    ∙ ap some (scan-digits_of (suc fuel) (suc n) (46 ∷ t) enough)

fraction-eight :
    (whole_part m : ℕ)
    → m < 100000000
    → fraction 8 whole_part (places_of 8 m) ≡ some (whole_part * 100000000 + m)
unfolding fraction scaled places_of
fraction-eight whole_part m small =
    let value : scaled 8 whole_part + m ≡ whole_part * 100000000 + m = omega arith in
    fraction-places_of 8 0 whole_part m [] small ∙ ap some value

after_whole-places_of :
    (n m : ℕ) → m < 100000000 → after_whole n (46 ∷ places_of 8 m) ≡ some (n * 100000000 + m)
unfolding places_of
after_whole-places_of n m small = fraction-eight n m small

-- A number of units of 10^-8 that is written with eight decimals is accepted by the service's
-- pattern for amounts and read back as the same number.
pub read_amount-to_fixed_8 : (n : ℕ) → read_amount (to_fixed_8 n) ≡ some n
unfolding read_amount to_fixed_8
read_amount-to_fixed_8 n =
    let fewer : n / 100000000 < n + 1 = omega arith in
    let value : n / 100000000 * 100000000 + n % 100000000 ≡ n = omega arith in
    ap after_scan (whole-number (n + 1) (n / 100000000) (places_of 8 (n % 100000000)) fewer)
    ∙ after_whole-places_of (n / 100000000) (n % 100000000) (omega arith)
    ∙ ap some value
