-- ===== src/Source/Tests.antt =====
-- A capture of three bytes.
use gplug_mini.Base.{◌≡◌, refl, false, [], ◌∷◌, Bytes, codes}
use gplug_mini.Source.{nibble, parse_hex, no_parity}
use gplug_mini.Source.Uart.{uart_calls, Listening, uart_calls-Listening}

abbrev capture : Bytes
capture = 0x7E ∷ 0xA0 ∷ 0x0F ∷ []

parse_hex_test : parse_hex 0 0 (codes "7e A0\n0f") ≡ capture
unfolding parse_hex nibble
parse_hex_test = refl

uart_calls-Listening_example :
    Listening 2 (record { parity = no_parity; invert = false }) (uart_calls 2)
uart_calls-Listening_example =
    uart_calls-Listening 2 (record { parity = no_parity; invert = false })
