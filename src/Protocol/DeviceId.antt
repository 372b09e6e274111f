-- ===== src/Protocol/DeviceId.antt =====
-- lib/protocol/luhn.go and the check digits of lib/protocol/deviceid.go. A string is the list of its
-- bytes; the lengths are those of an identifier, four groups of 13 letters.
use syncthing_mem.Base.{
  ℕ, zero, suc, ◌+◌, ◌-◌, ◌*◌, ◌/◌, ◌%◌, ◌&&◌, Option, none, some, List, [], ◌∷◌, ◌++◌, length,
  take, drop, get_or, leb, ◌==◌, if◌then◌else◌, Text, ◌>>=◌,
}
pub mod CheckDigits

-- No value stands for -1.
unfoldable pub codepoint32 : ℕ → Option ℕ
codepoint32 b =
    if leb 65 b && leb b 90
    then some (b - 65)
    else if leb 50 b && leb b 55
    then some (b + 26 - 50)
    else none

-- `luhnBase32[i]`, for an index below 32.
unfoldable pub luhn_base32 : ℕ → ℕ
luhn_base32 i = if leb i 25 then i + 65 else i - 26 + 50

-- The loop of `luhn32`, with the factor that alternates between 1 and 2 and the sum so far.
unfoldable pub luhn_sum : ℕ → ℕ → Text → Option ℕ
luhn_sum factor sum [] = some sum
luhn_sum factor sum (b ∷ s) = do
  codepoint ← codepoint32 b
  luhn_sum (if factor == 2 then 1 else 2)
      (sum + (factor * codepoint / 32 + factor * codepoint % 32)) s

-- The check digit, or none for a byte that is not in the alphabet.
unfoldable pub luhn32 : Text → Option ℕ
luhn32 s = do sum ← luhn_sum 1 0 s; some (luhn_base32 ((32 - sum % 32) % 32))

-- What the two calls return, or that they panic.
pub data Outcome : Type 0 where
  valid : Text → Outcome
  invalid : Outcome
  panicked : Outcome

abbrev pub outcome : Option Text → Outcome
outcome none = invalid
outcome (some s) = valid s

-- The loop of `luhnify`, over `n` groups.
unfoldable pub luhnify_groups : ℕ → Text → Option Text
luhnify_groups zero s = some []
luhnify_groups (suc n) s = do
  l ← luhn32 (take 13 s)
  rest ← luhnify_groups n (drop 13 s)
  some (take 13 s ++ l ∷ rest)

unfoldable pub luhnify : Text → Outcome
luhnify s = if length s == 52 then outcome (luhnify_groups 4 s) else panicked

-- The loop of `unluhnify`: a byte that is not valid and a wrong check digit are both errors.
unfoldable pub unluhnify_groups : ℕ → Text → Option Text
unluhnify_groups zero s = some []
unluhnify_groups (suc n) s = do
  l ← luhn32 (take 13 s)
  rest ← unluhnify_groups n (drop 14 s)
  if get_or s 13 0 == l then some (take 13 s ++ rest) else none

unfoldable pub unluhnify : Text → Outcome
unluhnify s = if length s == 56 then outcome (unluhnify_groups 4 s) else invalid
