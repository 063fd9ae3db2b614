-- ===== src/Endpoint/Examples.antt =====
-- Addresses that are printed and parsed, with a library that knows one address.
use p_base.Base.{
  ℕ, ◌+◌, ◌≤◌, ◌≡◌, ◌≢◌, refl, arith, Option, none, some, ◌==◌, if◌then◌else◌, List, [], ◌∷◌,
  length,
}
use p_base.Endpoint.{
  AddressLibrary, inaddr_none, inaddr_any, parse, endpoint_str, no_endpoint, is_digit, is_space,
  digits_from, port_before,
}
use p_base.Endpoint.RoundTrip.{IsPrinted, parse-endpoint_str}

-- "127.0.0.1" in the order of the network.
abbrev loopback : ℕ
loopback = 0x0100007f

abbrev loopback_text : List ℕ
loopback_text = b'1' ∷ b'2' ∷ b'7' ∷ b'.' ∷ b'0' ∷ b'.' ∷ b'0' ∷ b'.' ∷ b'1' ∷ []

abbrev starts_with_1 : List ℕ → Option ℕ
starts_with_1 [] = none
starts_with_1 (c ∷ cs) = if c == b'1' then some loopback else none

abbrev library : AddressLibrary
library = record {
  inet_ntop = λ ip. if ip == loopback then some loopback_text else none;
  inet_pton = starts_with_1;
  gethostbyname = starts_with_1;
}

loopback-IsPrinted :
    IsPrinted library loopback b'1' (b'2' ∷ b'7' ∷ b'.' ∷ b'0' ∷ b'.' ∷ b'0' ∷ b'.' ∷ b'1' ∷ [])
unfolding is_digit
loopback-IsPrinted = record {
  printed = refl;
  found = refl;
  dotted = (refl, (refl, (refl, (refl, (refl, (refl, (refl, (refl, (refl, tt)))))))));
  short = omega arith;
}

loopback-is_valid : loopback ≢ inaddr_none
loopback-is_valid e = absurd (omega (arith, e))

parse-endpoint_str_example :
    (text : List ℕ) × (endpoint_str library (record { ip = loopback; port = 8_080 }) ≡ some text)
    × ((parse library text).endpoint ≡ record { ip = loopback; port = 8_080 })
    × ((parse library text).reach ≤ 16)
    × (length text + 1 ≤ 22)
parse-endpoint_str_example =
    parse-endpoint_str library loopback 8_080 b'1'
      (b'2' ∷ b'7' ∷ b'.' ∷ b'0' ∷ b'.' ∷ b'0' ∷ b'.' ∷ b'1' ∷ []) loopback-IsPrinted
      loopback-is_valid (omega arith)

-- Any one character behind the port is passed over, so "1:80x" is port 80.
port_80x :
    (parse library (b'1' ∷ b':' ∷ b'8' ∷ b'0' ∷ b'x' ∷ [])).endpoint
    ≡ record { ip = loopback; port = 80 }
unfolding parse is_digit is_space port_before digits_from
port_80x = refl

-- No host is any address; no port, or one above 65535, is an error.
any_host : (parse library (b' ' ∷ b':' ∷ b'8' ∷ [])).endpoint ≡ record { ip = inaddr_any; port = 8 }
unfolding parse is_digit is_space port_before digits_from
any_host = refl

big_port :
    (parse library (b'1' ∷ b':' ∷ b'6' ∷ b'5' ∷ b'5' ∷ b'3' ∷ b'6' ∷ [])).endpoint ≡ no_endpoint
unfolding parse is_digit is_space port_before digits_from
big_port = refl
