-- ===== src/Endpoint/RoundTrip.antt =====
-- An address that is printed and parsed again.
use native.Mathlib.Nat.{pow-suc}
use p_base.Base.{
  ℕ, zero, suc, ◌+◌, ◌-◌, ◌*◌, ◌/◌, ◌%◌, ◌^◌, ◌≤◌, ◌<◌, ◌≡◌, ◌≢◌, refl, sym, ap, ◌∙◌, arith, true,
  false, ◌||◌, some, ltb, leb, ◌==◌, List, [], ◌∷◌, ◌++◌, append_assoc, append-nil, length,
  length-append, min, Bool-cases, inl, inr,
}
use p_base.Endpoint.{
  AddressLibrary, inaddr_none, is_space, skip_spaces, hostname2ip, is_digit, digits_from,
  strtol_digits, strtol_sign, strtol, is_end, port_before, parse_port, host_ip, parse_host,
  parse_loop, port_after, parse, ip_str, decimal, endpoint_str,
}

-- Only digits and dots.
abbrev pub AreDotted : List ℕ → Type 0
AreDotted [] = Unit
AreDotted (c ∷ cs) = (is_digit c || c == b'.' ≡ true) × AreDotted cs

-- The address is printed as a text of digits and dots of `INET_ADDRSTRLEN` places at most, and that
-- text is looked up as the address.
pub record IsPrinted (lib : AddressLibrary) (ip : ℕ) (c : ℕ) (cs : List ℕ) : Type 0 where
  pub printed : lib.inet_ntop ip ≡ some (c ∷ cs)
  pub found : lib.gethostbyname (c ∷ cs) ≡ some ip
  pub dotted : AreDotted (c ∷ cs)
  pub short : length (c ∷ cs) ≤ 15

digit_step :
    (k n : ℕ) (rest : List ℕ)
    → digits_from k ((b'0' + n % 10) ∷ rest) ≡ digits_from (k * 10 + n % 10) rest
unfolding digits_from
digit_step k n rest =
    let d : is_digit (b'0' + n % 10) ≡ true = unfold is_digit in (ground arith) in
    let e : b'0' + n % 10 - b'0' ≡ n % 10 = omega arith in rw (d, e) refl

-- The digits of a number are read as the number.
digits_from-decimal :
    (fuel n : ℕ) (rest : List ℕ)
    → n < 10 ^ suc fuel
    → digits_from 0 (decimal fuel n ++ rest) ≡ digits_from n rest
unfolding decimal
digits_from-decimal zero n rest h = digit_step 0 n rest ∙ ap (λ k. digits_from k rest) (omega arith)
digits_from-decimal (suc fuel) n rest h = elim (Bool-cases (ltb n 10)) [
  | inl e ↦ rw e (digit_step 0 n rest ∙ ap (λ k. digits_from k rest) (ground arith))
  | inr e ↦ rw e (
      ap (digits_from 0) (append_assoc (decimal fuel (n / 10)) ((b'0' + n % 10) ∷ []) rest)
      ∙ digits_from-decimal fuel (n / 10) ((b'0' + n % 10) ∷ rest)
          (omega (arith, pow-suc 10 (suc fuel)))
      ∙ digit_step (n / 10) n rest
      ∙ ap (λ k. digits_from k rest) (omega arith))
]

-- A text of `decimal` starts with a digit, and has a place for each round and one.
decimal-form :
    (fuel n : ℕ)
    → (c : ℕ) × (cs : List ℕ) × (decimal fuel n ≡ c ∷ cs)
      × (is_digit c ≡ true)
      × (length (c ∷ cs) ≤ suc fuel)
unfolding decimal is_digit
decimal-form zero n = (b'0' + n % 10, [], refl, ground arith, omega arith)
decimal-form (suc fuel) n = elim (Bool-cases (ltb n 10)) [
  | inl e ↦ (b'0' + n % 10, [], rw e refl, ground arith, omega arith)
  | inr e ↦
      let (c, cs, form, digit, short) = decimal-form fuel (n / 10) in
      (
        c,
        cs ++ (b'0' + n % 10) ∷ [],
        rw (e, form) refl,
        digit,
        omega (arith, length-append cs ((b'0' + n % 10) ∷ [])),
      )
]

skip_spaces-digit :
    (c : ℕ) (cs : List ℕ) → is_digit c || c == b'.' ≡ true → skip_spaces (c ∷ cs) ≡ c ∷ cs
unfolding skip_spaces is_digit
skip_spaces-digit c cs h =
    let e : is_space c ≡ false = unfold is_space in (ground (arith, h)) in rw e refl

parse_port-digits :
    (n c : ℕ) (cs : List ℕ)
    → is_digit c ≡ true
    → digits_from 0 (c ∷ cs) ≡ (n, [])
    → n < 2 ^ 16
    → parse_port (c ∷ cs) ≡ some n
unfolding parse_port strtol strtol_sign strtol_digits port_before is_end
parse_port-digits n c cs d e h =
    let skip = skip_spaces-digit c cs (rw d refl) in
    let minus : c == b'-' ≡ false = unfold is_digit in (ground (arith, d)) in
    let plus : c == b'+' ≡ false = unfold is_digit in (ground (arith, d)) in
    let small : leb (min n (2 ^ 63 - 1)) 65_535 ≡ true = ground arith in
    let same : min n (2 ^ 63 - 1) ≡ n = omega arith in
    ap (λ t. port_after (strtol_sign t)) skip ∙ rw (minus, plus, d, e, small, same) refl

-- A port that is printed is read again.
parse_port-decimal : (port : ℕ) → port < 2 ^ 16 → parse_port (decimal 4 port) ≡ some port
unfolding digits_from
parse_port-decimal port h =
    let (c, cs, form, digit, short) = decimal-form 4 port in
    let read = digits_from-decimal 4 port [] (omega arith) in
    rw form (
      parse_port-digits port c cs digit
        (ap (digits_from 0) (sym form ∙ sym (append-nil (decimal 4 port))) ∙ read) h)

-- A host of digits and dots is taken up to the colon.
parse_loop-dotted :
    (lib : AddressLibrary) (host more rest : List ℕ)
    → AreDotted more
    → parse_loop lib host (more ++ b':' ∷ rest)
      ≡ record { endpoint = parse_host lib (host ++ more) rest; reach = length (host ++ more) + 1 }
unfolding parse_loop
parse_loop-dotted lib host [] rest h = rw (append-nil host) refl
parse_loop-dotted lib host (c ∷ cs) rest h =
    let e : c == b':' ≡ false = unfold is_digit in (ground (arith, h.0)) in
    rw e (
      parse_loop-dotted lib (host ++ c ∷ []) cs rest h.1
      ∙ ap (λ l. record { endpoint = parse_host lib l rest; reach = length l + 1 })
          (append_assoc host (c ∷ []) cs))

-- `INADDR_NONE` apart, an address that is printed is parsed as the same address and port, where the
-- functions of the system print the address and look its text up again. The text fits 22 places
-- with the terminator, and parsing it writes 16 places of its buffer at most.
pub parse-endpoint_str :
    (lib : AddressLibrary) (ip port c : ℕ) (cs : List ℕ)
    → IsPrinted lib ip c cs
    → ip ≢ inaddr_none
    → port < 2 ^ 16
    → (text : List ℕ) × (endpoint_str lib (record { ip = ip; port = port }) ≡ some text)
      × ((parse lib text).endpoint ≡ record { ip = ip; port = port })
      × ((parse lib text).reach ≤ 16)
      × (length text + 1 ≤ 22)
unfolding endpoint_str ip_str parse parse_host host_ip hostname2ip
parse-endpoint_str lib ip port c cs v ne h =
    let skip : skip_spaces (c ∷ cs) ≡ c ∷ cs = skip_spaces-digit c cs v.dotted.0 in
    let skip_all = skip_spaces-digit c (cs ++ b':' ∷ decimal 4 port) v.dotted.0 in
    let parsed = parse_loop-dotted lib [] (c ∷ cs) (decimal 4 port) v.dotted in
    let valid : ip == inaddr_none ≡ false = ground (arith, ne) in
    let (d, ds, form, digit, short) = decimal-form 4 port in
    (
      (c ∷ cs) ++ b':' ∷ decimal 4 port,
      rw (v.printed) refl,
      rw (skip_all, parsed, skip, v.found, valid, parse_port-decimal port h) refl,
      rw (skip_all, parsed) (omega (arith, v.short)),
      rw form (omega (arith, v.short, length-append cs (b':' ∷ d ∷ ds))),
    )
