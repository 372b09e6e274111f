-- ===== src/Tests/Devices.antt =====
-- lib/protocol/deviceid.go at a concrete identifier.
use syncthing_mem.Base.{◌≡◌, refl, [], ◌∷◌, ◌++◌, replicate, Text}
use syncthing_mem.Protocol.DeviceId.{
  codepoint32, luhn_base32, luhn_sum, luhn32, valid, invalid, luhnify_groups, luhnify,
  unluhnify_groups, unluhnify,
}
use syncthing_mem.Protocol.DeviceId.CheckDigits.{unluhnify-luhnify}

-- The letter B 52 times; each group has the check digit N.
abbrev letters : Text
letters = replicate 52 66

abbrev group_b : Text
group_b = replicate 13 66 ++ 78 ∷ []

abbrev checked : Text
checked = group_b ++ group_b ++ group_b ++ group_b

luhnify_run : luhnify letters ≡ valid checked
unfolding codepoint32 luhn_base32 luhn_sum luhn32 luhnify_groups luhnify
luhnify_run = refl

wrong_digit : unluhnify (replicate 56 66) ≡ invalid
unfolding codepoint32 luhn_base32 luhn_sum luhn32 unluhnify_groups unluhnify
wrong_digit = refl

unluhnify-luhnify_example : unluhnify checked ≡ valid letters
unluhnify-luhnify_example = unluhnify-luhnify letters checked luhnify_run
