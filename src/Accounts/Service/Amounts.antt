-- ===== src/Accounts/Service/Amounts.antt =====
-- The decimal amounts of apps/accounts/src/balances: `AMOUNT_REGEX` of balances.constants.ts and what
-- `validateAmount` reads with it, and the eight decimals of `calculateTotalBalance`.
use ether_trade.Prelude.{
  ℕ, zero, suc, ◌+◌, ◌-◌, ◌*◌, ◌/◌, ◌%◌, Bool, ◌&&◌, Option, none, some, [], ◌∷◌, ◌++◌, Text, ◌==◌,
  leb, ltb, if◌then◌else◌,
}

abbrev pub is_digit : ℕ → Bool
is_digit c = leb 48 c && leb c 57

-- `\d*`: the number that the digits add to one that is read, and what follows them.
unfoldable pub scan : ℕ → Text → ℕ × Text
scan acc [] = (acc, [])
scan acc (c ∷ s) =
    let rest = scan (acc * 10 + (c - 48)) s in if is_digit c then rest else (acc, c ∷ s)

-- `(0|[1-9]\d*)`
unfoldable pub whole : Text → Option (ℕ × Text)
unfolding scan
whole [] = none
whole (c ∷ s) = if c == 48 then some (0, s) else if is_digit c then some (scan 0 (c ∷ s)) else none

-- The places that are not written.
unfoldable pub scaled : ℕ → ℕ → ℕ
scaled zero n = n
scaled (suc k) n = scaled k (n * 10)

-- `\d{1,8}$` after its first digit: at most `left` digits more.
unfoldable pub fraction : ℕ → ℕ → Text → Option ℕ
unfolding scaled
fraction left acc [] = some (scaled left acc)
fraction zero acc (c ∷ s) = none
fraction (suc left) acc (c ∷ s) =
    let rest = fraction left (acc * 10 + (c - 48)) s in if is_digit c then rest else none

-- `(\.\d{1,8})?$`
abbrev pub after_whole : ℕ → Text → Option ℕ
after_whole n [] = some (scaled 8 n)
after_whole n (point ∷ []) = none
after_whole n (point ∷ c ∷ s) = if point == 46 then fraction 8 n (c ∷ s) else none

abbrev pub after_scan : Option (ℕ × Text) → Option ℕ
after_scan none = none
after_scan (some (n, rest)) = after_whole n rest

-- `AMOUNT_REGEX`, with the units of 10^-8 of the number that it accepts.
unfoldable pub read_amount : Text → Option ℕ
unfolding whole fraction
read_amount s = after_scan (whole s)

-- `toFixed(8)`: the digits before the point on fuel, and exactly eight after it.
unfoldable pub digits_of : ℕ → ℕ → Text
digits_of zero n = []
digits_of (suc fuel) n =
    let before = digits_of fuel (n / 10) in
    if ltb n 10 then (48 + n) ∷ [] else before ++ (48 + n % 10) ∷ []

unfoldable pub places_of : ℕ → ℕ → Text
places_of zero m = []
places_of (suc k) m = places_of k (m / 10) ++ (48 + m % 10) ∷ []

unfoldable pub to_fixed_8 : ℕ → Text
unfolding digits_of places_of
to_fixed_8 n = digits_of (n + 1) (n / 100000000) ++ 46 ∷ places_of 8 (n % 100000000)

-- `calculateTotalBalance`
unfoldable pub calculate_total_balance : ℕ → ℕ → Text
unfolding to_fixed_8
calculate_total_balance available locked = to_fixed_8 (available + locked)
