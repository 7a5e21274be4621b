-- ===== src/Base/Hex.antt =====
-- Hexadecimal digits: the tables and tests that json.cpp, gamestream_xml.cpp and http_client.cpp
-- of the program repeat.
use Prim.Native.Nat.{ℕ, ◌+◌, ◌-◌, ◌<◌}
use mathlib.Core.Path.{◌≡◌}
use mathlib.Core.Bool.{◌&&◌}
use mathlib.Core.Option.{Option, none, some}
use native.Mathlib.Omega.{arith}
use arcade_launcher_stream_e.Base.Tests.{ltb, leb, if◌then◌else◌}

-- "0123456789abcdef"[d]
unfoldable pub hex_digit : ℕ → ℕ
hex_digit d = if ltb d 10 then b'0' + d else b'a' + (d - 10)

-- the value of one hexadecimal digit, of either case; `none` is -1
unfoldable pub hex_value : ℕ → Option ℕ
hex_value c =
    if leb b'0' c && leb c b'9'
    then some (c - b'0')
    else if leb b'a' c && leb c b'f'
    then some (c - b'a' + 10)
    else if leb b'A' c && leb c b'F'
    then some (c - b'A' + 10)
    else none

pub hex_value-hex_digit : (d : ℕ) → d < 16 → hex_value (hex_digit d) ≡ some d
unfolding hex_value hex_digit
hex_value-hex_digit d h = ground arith

pub hex_value-lt : (c d : ℕ) → hex_value c ≡ some d → d < 16
unfolding hex_value
hex_value-lt c d h = ground arith
