-- ===== src/Softap.antt =====
-- main/provisioning.h, the identity of the access point, and of main/provisioning.cpp the answer to a
-- DNS query. An address is a list of six octets; a buffer is given as in `snprintf`.
pub mod Identity
pub mod Dns
pub mod Serve
mod Tests
use gplug_mini.Base.{
  ℕ, zero, suc, ◌+◌, ◌-◌, ◌*◌, ◌/◌, ◌%◌, Bool, true, false, not, ◌&&◌, ◌||◌, List, [], ◌∷◌, ◌++◌,
  Option, none, some, Bytes, codes, snprintf, ltb, leb, if◌then◌else◌, length, get_or,
}

abbrev pub ap_ssid_max : ℕ
ap_ssid_max = 32

abbrev pub ap_passphrase_max : ℕ
ap_passphrase_max = 63

abbrev pub wpa2_min_passphrase : ℕ
wpa2_min_passphrase = 8

unfoldable pub lower_digit : ℕ → ℕ
lower_digit n = if ltb n 10 then b'0' + n else b'a' + (n - 10)

-- `%02x` of an octet.
abbrev pub hex2 : ℕ → Bytes
hex2 b = lower_digit (b / 16 % 16) ∷ lower_digit (b % 16) ∷ []

-- The three last octets.
abbrev pub tail_hex : Bytes → Bytes
tail_hex mac = hex2 (get_or mac 3 0) ++ (hex2 (get_or mac 4 0) ++ hex2 (get_or mac 5 0))

unfoldable pub ap_ssid : Bytes → ℕ → Bytes × ℕ
ap_ssid mac size =
    let (text, n) = snprintf size (codes "gplug-" ++ tail_hex mac) in
    (text, if ltb 0 n && ltb n size then n else 0)

unfoldable pub ap_passphrase : Bytes → ℕ → Bytes × ℕ
ap_passphrase mac size =
    let (text, n) = snprintf size (codes "gplug" ++ tail_hex mac) in
    if not (ltb 0 n) || leb size n
    then (text, 0)
    else if ltb n wpa2_min_passphrase
    then (text, 0)
    else (text, n)

abbrev pub dns_size : ℕ
dns_size = 512

-- `buf[i] = v`
unfoldable pub set_at : ℕ → ℕ → Bytes → Bytes
set_at i v [] = []
set_at zero v (b ∷ s) = v ∷ s
set_at (suc i) v (b ∷ s) = b ∷ set_at i v s

-- The header's writes: a reply, authoritative, with one answer.
unfoldable pub reply_header : Bytes → Bytes
reply_header q =
    set_at 11 0 (
      set_at 10 0
        (set_at 9 0 (set_at 8 0 (set_at 7 1 (set_at 6 0 (set_at 3 0 (set_at 2 0x84 q)))))))

abbrev pub answer : Bytes
answer = 0xC0 ∷ 0x0C ∷ 0 ∷ 1 ∷ 0 ∷ 1 ∷ 0 ∷ 0 ∷ 0 ∷ 0x3C ∷ 0 ∷ 4 ∷ []

-- One turn of `dns_hijack` on a datagram: what is sent back. `self` is the address's four octets.
unfoldable pub dns_reply : Bytes → Bytes → Option Bytes
dns_reply self q =
    if ltb (length q) 12
    then none
    else if ltb dns_size (length q + 16)
    then none
    else some (reply_header q ++ (answer ++ self))
