-- ===== src/Transfers/Uuids/RoundTrip.antt =====
-- A user's id on the chain and back: apps/transfers/src/common/utils/uuid-converter.ts.
use ether_trade.Prelude.{
  ℕ, zero, suc, ◌+◌, ◌-◌, ◌≤◌, ◌≡◌, refl, sym, ap, ◌∙◌, subst, true, false, some, List, [], ◌∷◌,
  ◌++◌, map, Text, text, ◌==◌, ==_iff, length, take, drop, All, arith, Bool-cases, inl, inr,
}
use ether_trade.Transfers.Uuids.{
  lower, without_dashes, of_length_32, prefixed, uuid_to_bytes16, without_prefix, grouped,
  grouped_if, bytes16_to_uuid,
}

module _ {A : Type 0} where
  take-drop : (n : ℕ) (xs : List A) → take n xs ++ drop n xs ≡ xs
  take-drop zero xs = refl
  take-drop (suc n) [] = refl
  take-drop (suc n) (x ∷ xs) = ap (λ ys. x ∷ ys) (take-drop n xs)

  drop-nil : (n : ℕ) → drop {A = A} n [] ≡ []
  drop-nil zero = refl
  drop-nil (suc n) = refl

  drop-drop : (m n : ℕ) (xs : List A) → drop n (drop m xs) ≡ drop (m + n) xs
  drop-drop zero n xs = ap (λ k. drop k xs) (omega arith)
  drop-drop (suc m) n [] = drop-nil n ∙ sym (drop-nil (suc m + n))
  drop-drop (suc m) n (x ∷ xs) =
      let shift : suc (m + n) ≡ suc m + n = omega arith in
      drop-drop m n xs ∙ ap (λ k. drop k (x ∷ xs)) shift

  -- A group and what follows it.
  join : (m n : ℕ) (xs : List A) → take n (drop m xs) ++ drop (m + n) xs ≡ drop m xs
  join m n xs =
      ap (λ ys. take n (drop m xs) ++ ys) (sym (drop-drop m n xs)) ∙ take-drop n (drop m xs)

  length-drop : (n : ℕ) (xs : List A) → length (drop n xs) ≡ length xs - n
  length-drop zero xs = omega arith
  length-drop (suc n) [] = omega arith
  length-drop (suc n) (x ∷ xs) = omega (arith, length-drop n xs)

  take-all : (n : ℕ) (xs : List A) → length xs ≤ n → take n xs ≡ xs
  take-all zero [] h = refl
  take-all zero (x ∷ xs) h = absurd (omega (arith, h))
  take-all (suc n) [] h = refl
  take-all (suc n) (x ∷ xs) h = ap (λ ys. x ∷ ys) (take-all n xs (omega (arith, h)))

-- The five groups are the whole.
groups-join :
    (h : Text)
    → length h ≡ 32
    → take 8 h
        ++ (take 4 (drop 8 h)
            ++ (take 4 (drop 12 h) ++ (take 4 (drop 16 h) ++ take 12 (drop 20 h))))
      ≡ h
groups-join h len =
    let last : take 12 (drop 20 h) ≡ drop 20 h =
      take-all 12 (drop 20 h) (omega (arith, length-drop 20 h, len)) in
    let fourth = ap (λ (t : Text). take 4 (drop 16 h) ++ t) last ∙ join 16 4 h in
    let third = ap (λ (t : Text). take 4 (drop 12 h) ++ t) fourth ∙ join 12 4 h in
    let second = ap (λ (t : Text). take 4 (drop 8 h) ++ t) third ∙ join 8 4 h in
    ap (λ (t : Text). take 8 h ++ t) second ∙ take-drop 8 h

abbrev NoDash : Text → Type 0
NoDash s = All (λ c. (c == b'-') ≡ false) s

without_dashes-NoDash : (s : Text) → NoDash (without_dashes s)
unfolding without_dashes
without_dashes-NoDash [] = tt
without_dashes-NoDash (c ∷ s) = elim (Bool-cases (c == b'-')) [
  | inl dash ↦ rw dash (without_dashes-NoDash s)
  | inr other ↦ rw other (other, without_dashes-NoDash s)
]

without_dashes-same : (s : Text) → NoDash s → without_dashes s ≡ s
unfolding without_dashes
without_dashes-same [] h = refl
without_dashes-same (c ∷ s) h = rw h.0 (ap (λ t. c ∷ t) (without_dashes-same s h.1))

drop-NoDash : (n : ℕ) (s : Text) → NoDash s → NoDash (drop n s)
drop-NoDash zero s h = h
drop-NoDash (suc n) [] h = tt
drop-NoDash (suc n) (c ∷ s) h = drop-NoDash n s h.1

-- The dash after a group goes.
group_step :
    (n : ℕ) (s t : Text)
    → NoDash s
    → without_dashes (take n s ++ b'-' ∷ t) ≡ take n s ++ without_dashes t
unfolding without_dashes
group_step zero s t h = refl
group_step (suc n) [] t h = refl
group_step (suc n) (c ∷ s) t h = rw h.0 (ap (λ u. c ∷ u) (group_step n s t h.1))

without_dashes-take : (n : ℕ) (s : Text) → NoDash s → without_dashes (take n s) ≡ take n s
unfolding without_dashes
without_dashes-take zero s h = refl
without_dashes-take (suc n) [] h = refl
without_dashes-take (suc n) (c ∷ s) h = rw h.0 (ap (λ u. c ∷ u) (without_dashes-take n s h.1))

without_dashes-grouped : (h : Text) → length h ≡ 32 → NoDash h → without_dashes (grouped h) ≡ h
without_dashes-grouped h len plain =
    let fifth = without_dashes-take 12 (drop 20 h) (drop-NoDash 20 h plain) in
    let fourth =
      group_step 4 (drop 16 h) (take 12 (drop 20 h)) (drop-NoDash 16 h plain)
      ∙ ap (λ (t : Text). take 4 (drop 16 h) ++ t) fifth in
    let third =
      group_step 4 (drop 12 h) _ (drop-NoDash 12 h plain)
      ∙ ap (λ (t : Text). take 4 (drop 12 h) ++ t) fourth in
    let second =
      group_step 4 (drop 8 h) _ (drop-NoDash 8 h plain)
      ∙ ap (λ (t : Text). take 4 (drop 8 h) ++ t) third in
    group_step 8 h _ plain ∙ ap (λ (t : Text). take 8 h ++ t) second ∙ groups-join h len

lower_twice : (c : ℕ) → lower (lower c) ≡ lower c
lower_twice c = ground arith

lower_other : (c : ℕ) → (c == b'-') ≡ false → (lower c == b'-') ≡ false
lower_other c h = ground (arith, h)

map_lower_twice : (s : Text) → map lower (map lower s) ≡ map lower s
map_lower_twice [] = refl
map_lower_twice (c ∷ s) =
    ap (λ d. d ∷ map lower (map lower s)) (lower_twice c)
    ∙ ap (λ t. lower c ∷ t) (map_lower_twice s)

map_lower-NoDash : (s : Text) → NoDash s → NoDash (map lower s)
map_lower-NoDash [] h = tt
map_lower-NoDash (c ∷ s) h = (lower_other c h.0, map_lower-NoDash s h.1)

read_back :
    (h : Text)
    → (length h == 32) ≡ true
    → map lower h ≡ h
    → bytes16_to_uuid (text "0x" ++ h) ≡ some (grouped h)
unfolding bytes16_to_uuid without_prefix
read_back h full low = ap (λ (t : Text). grouped_if (of_length_32 t)) low ∙ rw full refl

written_again :
    (h : Text)
    → (length h == 32) ≡ true
    → map lower h ≡ h
    → NoDash h
    → uuid_to_bytes16 (grouped h) ≡ some (text "0x" ++ h)
unfolding uuid_to_bytes16
written_again h full low plain =
    let same = without_dashes-grouped h ((==_iff (length h) 32).0 full) plain in
    ap (λ (t : Text). prefixed (of_length_32 (map lower t))) same
    ∙ ap (λ (t : Text). prefixed (of_length_32 t)) low
    ∙ rw full refl

-- The lower-case form in groups of a UUID.
abbrev pub canonical : Text → Text
canonical uuid = grouped (map lower (without_dashes uuid))

-- A text that is taken for a UUID is read back from its bytes in its canonical form, which has the same
-- bytes.
pub uuid_round_trip :
    (uuid bytes16 : Text)
    → uuid_to_bytes16 uuid ≡ some bytes16
    → (bytes16_to_uuid bytes16 ≡ some (canonical uuid))
      × (uuid_to_bytes16 (canonical uuid) ≡ some bytes16)
unfolding uuid_to_bytes16
uuid_round_trip uuid bytes16 h =
    elim (Bool-cases (length (map lower (without_dashes uuid)) == 32)) [
      | inr other ↦ cc (rw other at h)
      | inl full ↦
          let hex = map lower (without_dashes uuid) in
          let is : text "0x" ++ hex ≡ bytes16 = ground (arith, rw full at h) in
          let low = map_lower_twice (without_dashes uuid) in
          let plain = map_lower-NoDash (without_dashes uuid) (without_dashes-NoDash uuid) in
          subst
            (λ (b : Text).
              (bytes16_to_uuid b ≡ some (canonical uuid))
              × (uuid_to_bytes16 (canonical uuid) ≡ some b))
            is (read_back hex full low, written_again hex full low plain)
    ]
