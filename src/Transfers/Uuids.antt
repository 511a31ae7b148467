-- ===== src/Transfers/Uuids.antt =====
-- apps/transfers/src/common/utils/uuid-converter.ts. Letters are those of hexadecimal digits, for which
-- `toLowerCase` is ASCII's.
pub mod RoundTrip
use ether_trade.Prelude.{
  ℕ, ◌+◌, ◌&&◌, Option, none, some, [], ◌∷◌, ◌++◌, map, Text, text, ◌==◌, leb, if◌then◌else◌,
  length, take, drop,
}

abbrev pub lower : ℕ → ℕ
lower c = if leb b'A' c && leb c b'Z' then c + 32 else c

-- `.replace(/-/g, '')`
unfoldable pub without_dashes : Text → Text
without_dashes [] = []
without_dashes (c ∷ s) = let rest = without_dashes s in if c == b'-' then rest else c ∷ rest

abbrev pub of_length_32 : Text → Option Text
of_length_32 hex = if length hex == 32 then some hex else none

-- `uuidToBytes16`, with nothing for its error.
abbrev pub prefixed : Option Text → Option Text
prefixed none = none
prefixed (some hex) = some (text "0x" ++ hex)

unfoldable pub uuid_to_bytes16 : Text → Option Text
unfolding without_dashes
uuid_to_bytes16 uuid = prefixed (of_length_32 (map lower (without_dashes uuid)))

-- `bytes16.startsWith('0x') ? bytes16.slice(2) : bytes16`
unfoldable pub without_prefix : Text → Text
without_prefix (a ∷ b ∷ s) = if (a == b'0') && (b == b'x') then s else a ∷ b ∷ s
without_prefix s = s

-- The groups of 8, 4, 4, 4 and 12 digits.
abbrev pub grouped : Text → Text
grouped h =
    take 8 h
    ++ (b'-'
        ∷ (take 4 (drop 8 h)
            ++ (b'-'
                ∷ (take 4 (drop 12 h)
                    ++ (b'-' ∷ (take 4 (drop 16 h) ++ (b'-' ∷ take 12 (drop 20 h))))))))

abbrev pub grouped_if : Option Text → Option Text
grouped_if none = none
grouped_if (some h) = some (grouped h)

-- `bytes16ToUuid`
unfoldable pub bytes16_to_uuid : Text → Option Text
unfolding without_prefix
bytes16_to_uuid bytes16 = grouped_if (of_length_32 (map lower (without_prefix bytes16)))
