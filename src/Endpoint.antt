-- ===== src/Endpoint.antt =====
-- Addresses: include/p/base/endpoint.h and src/endpoint.cpp. A text is the list of its codes, without
-- the `\0` behind it. The functions of the system that print and look up addresses are parameters.
pub mod RoundTrip
mod Examples
use p_base.Base.{
  ℕ, zero, suc, ◌+◌, ◌-◌, ◌*◌, ◌/◌, ◌%◌, ◌^◌, Bool, true, false, not, ◌&&◌, ◌||◌, Option, none,
  some, ltb, leb, ◌==◌, if◌then◌else◌, List, [], ◌∷◌, ◌++◌, length, min,
}
use p_base.Convert.{Value, pos, neg}

-- `inet_ntop`, `inet_pton` and `gethostbyname`, which gives the first address; `none` is failure.
pub record AddressLibrary : Type 0 where
  pub inet_ntop : ℕ → Option (List ℕ)
  pub inet_pton : List ℕ → Option ℕ
  pub gethostbyname : List ℕ → Option ℕ

-- `INADDR_NONE` and `INADDR_ANY`
abbrev pub inaddr_none : ℕ
inaddr_none = 2 ^ 32 - 1

abbrev pub inaddr_any : ℕ
inaddr_any = 0

pub record EndPoint : Type 0 where
  pub ip : ℕ
  pub port : ℕ

abbrev pub no_endpoint : EndPoint
no_endpoint = record { ip = inaddr_none; port = 0 }

-- `operator bool`
unfoldable pub is_valid : EndPoint → Bool
is_valid e = not (e.ip == inaddr_none)

unfoldable pub set_port : ℕ → EndPoint → EndPoint
set_port port e = record e { port = port }

-- `isspace`, and the loops that skip spaces.
unfoldable pub is_space : ℕ → Bool
is_space c = c == b' ' || (leb 9 c && leb c 13)

unfoldable pub skip_spaces : List ℕ → List ℕ
unfolding is_space
skip_spaces [] = []
skip_spaces (c ∷ cs) = let rest = skip_spaces cs in if is_space c then rest else c ∷ cs

abbrev pub or_none : Option ℕ → ℕ
or_none none = inaddr_none
or_none (some ip) = ip

unfoldable pub hostname2ip : AddressLibrary → List ℕ → ℕ
unfolding skip_spaces
hostname2ip lib hostname = or_none (lib.gethostbyname (skip_spaces hostname))

unfoldable pub str2ip : AddressLibrary → List ℕ → ℕ
unfolding skip_spaces
str2ip lib text = or_none (lib.inet_pton (skip_spaces text))

-- `strtol` in base ten: the number and the text behind it, `none` where there is no digit.
unfoldable pub is_digit : ℕ → Bool
is_digit c = leb b'0' c && leb c b'9'

unfoldable pub digits_from : ℕ → List ℕ → ℕ × List ℕ
unfolding is_digit
digits_from n [] = (n, [])
digits_from n (c ∷ cs) =
    let rest = digits_from (n * 10 + (c - b'0')) cs in if is_digit c then rest else (n, c ∷ cs)

unfoldable pub strtol_digits : (ℕ → Value) → List ℕ → Option (Value × List ℕ)
strtol_digits value [] = none
strtol_digits value (c ∷ cs) =
    let (n, rest) = digits_from 0 (c ∷ cs) in if is_digit c then some (value n, rest) else none

unfoldable pub strtol_sign : List ℕ → Option (Value × List ℕ)
unfolding strtol_digits
strtol_sign [] = none
strtol_sign (c ∷ cs) =
    if c == b'-'
    then strtol_digits (λ n. neg (min n (2 ^ 63))) cs
    else strtol_digits (λ n. pos (min n (2 ^ 63 - 1))) (if c == b'+' then cs else c ∷ cs)

unfoldable pub strtol : List ℕ → Option (Value × List ℕ)
unfolding skip_spaces strtol_sign
strtol text = strtol_sign (skip_spaces text)

-- What may stand behind the number: nothing, or one character and spaces.
abbrev pub is_empty : List ℕ → Bool
is_empty [] = true
is_empty (c ∷ cs) = false

unfoldable pub is_end : List ℕ → Bool
unfolding skip_spaces
is_end [] = true
is_end (c ∷ cs) = is_empty (skip_spaces cs)

abbrev pub port_of : Value → Option ℕ
port_of (pos n) = if leb n 65_535 then some n else none
port_of (neg n) = if n == 0 then some 0 else none

unfoldable pub port_before : Value × List ℕ → Option ℕ
unfolding is_end
port_before (v, rest) = if is_end rest then port_of v else none

abbrev pub port_after : Option (Value × List ℕ) → Option ℕ
port_after none = none
port_after (some r) = port_before r

unfoldable pub parse_port : List ℕ → Option ℕ
unfolding strtol
parse_port text = port_after (strtol text)

-- The endpoint, and how many places of `buf[512]` were written.
pub record Parsed : Type 0 where
  pub endpoint : EndPoint
  pub reach : ℕ

abbrev pub with_port : ℕ → Option ℕ → EndPoint
with_port ip none = no_endpoint
with_port ip (some port) = record { ip = ip; port = port }

-- `snprintf` with "%u" of a number below 10 ^ (fuel + 1).
unfoldable pub decimal : ℕ → ℕ → List ℕ
decimal zero n = (b'0' + n % 10) ∷ []
decimal (suc fuel) n =
    let higher = decimal fuel (n / 10) in
    if ltb n 10 then (b'0' + n % 10) ∷ [] else higher ++ (b'0' + n % 10) ∷ []

abbrev pub printed_or : Option (List ℕ) → Option (List ℕ) → Option (List ℕ)
printed_or none other = other
printed_or (some text) other = some text

abbrev pub port_behind : Option (List ℕ) → ℕ → Option (List ℕ)
port_behind none port = none
port_behind (some text) port = some (text ++ b':' ∷ decimal 4 port)

module _ (lib : AddressLibrary) where
  unfoldable pub host_ip : List ℕ → ℕ
  unfolding hostname2ip
  host_ip [] = inaddr_any
  host_ip (c ∷ cs) = hostname2ip lib (c ∷ cs)

  -- Behind the colon.
  unfoldable pub parse_host : List ℕ → List ℕ → EndPoint
  unfolding host_ip parse_port
  parse_host host text =
      if host_ip host == inaddr_none
      then no_endpoint
      else with_port (host_ip host) (parse_port text)

  unfoldable pub parse_loop : List ℕ → List ℕ → Parsed
  unfolding parse_host
  parse_loop host [] = record { endpoint = no_endpoint; reach = length host }
  parse_loop host (c ∷ cs) =
      let rest = parse_loop (host ++ c ∷ []) cs in
      if c == b':' then record { endpoint = parse_host host cs; reach = length host + 1 } else rest

  -- `EndPoint(const char *)`
  unfoldable pub parse : List ℕ → Parsed
  unfolding skip_spaces parse_loop
  parse text = parse_loop [] (skip_spaces text)

  -- `ip_str`; `none` where the buffer is left as it is.
  unfoldable pub ip_str : EndPoint → Option (List ℕ)
  ip_str e = printed_or (lib.inet_ntop e.ip) (lib.inet_ntop inaddr_none)

-- The text of `endpoint_str`, whose length it returns. A port has five digits at most.
unfoldable pub endpoint_str : AddressLibrary → EndPoint → Option (List ℕ)
unfolding ip_str decimal
endpoint_str lib e = port_behind (ip_str lib e) e.port

-- The other constructors: of an address as text, `none` for the one of this host, and of a
-- `sockaddr_in`, whose port is in the order of the network.
unfoldable pub endpoint_of : AddressLibrary → ℕ → Option (List ℕ) → ℕ → EndPoint
unfolding hostname2ip
endpoint_of lib local_ip none port = record { ip = local_ip; port = port % 2 ^ 16 }
endpoint_of lib local_ip (some text) port = record {
  ip = hostname2ip lib text;
  port = port % 2 ^ 16;
}

unfoldable pub endpoint_of_sockaddr : ℕ → ℕ → EndPoint
endpoint_of_sockaddr s_addr sin_port = record {
  ip = s_addr;
  port = sin_port % 256 * 256 + sin_port / 256 % 256;
}
