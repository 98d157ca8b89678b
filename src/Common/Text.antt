-- ===== src/Common/Text.antt =====
-- `core::str::from_utf8`, as far as the code uses it: whether some bytes are UTF-8 (RFC 3629).
use tailfeather.Common.{
  ℕ, zero, suc, Bool, true, false, ltb, leb, ◌==◌, ◌&&◌, if◌then◌else◌, List, [], ◌∷◌,
}

-- `need` continuation bytes are still to come, the next of them between `low` and `high`.
unfoldable pub utf8_from : ℕ → ℕ → ℕ → List ℕ → Bool
utf8_from zero low high [] = true
utf8_from (suc need) low high [] = false
utf8_from (suc need) low high (b ∷ bs) = leb low b && leb b high && utf8_from need 0x80 0xbf bs
utf8_from zero low high (b ∷ bs) =
    let range = λ (need first last : ℕ). utf8_from need first last bs in
    if ltb b 0x80
    then range 0 0 0
    else if ltb b 0xc2
    then false
    else if ltb b 0xe0
    then range 1 0x80 0xbf
    else if ltb b 0xf0
    then range 2 (if b == 0xe0 then 0xa0 else 0x80) (if b == 0xed then 0x9f else 0xbf)
    else if ltb b 0xf5
    then range 3 (if b == 0xf0 then 0x90 else 0x80) (if b == 0xf4 then 0x8f else 0xbf)
    else false

unfoldable pub is_utf8 : List ℕ → Bool
unfolding utf8_from
is_utf8 bytes = utf8_from 0 0 0 bytes
