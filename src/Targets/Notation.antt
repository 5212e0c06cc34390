-- ===== src/Targets/Notation.antt =====
-- internal/checker/ssrf.go: parseNonStandardIP, with strconv.ParseUint for base 0. A text is the list of its code points.
use yip_yap_foss.Prelude.{
  ℕ, ◌+◌, ◌-◌, ◌*◌, ◌/◌, ◌%◌, ltb, leb, ◌==◌, Bool, true, false, not, ◌&&◌, ◌||◌, Option, none,
  some, List, [], ◌∷◌, any, length, ◌>>=◌, if◌then◌else◌,
}
use yip_yap_foss.Targets.Address.{Ip, ipv4}

-- A letter of either case, `lower` being its small form.
abbrev pub is_letter : ℕ → ℕ → Bool
is_letter lower c = (c == lower) || (c + 32 == lower)

abbrev pub is_digit : ℕ → Bool
is_digit c = leb 48 c && leb c 57

-- The value of a digit or a letter.
abbrev pub digit : ℕ → Option ℕ
digit c =
    if is_digit c
    then some (c - 48)
    else if leb 97 c && leb c 122
    then some (c - 87)
    else if leb 65 c && leb c 90
    then some (c - 55)
    else none

-- The loop over the digits, whose value must be at most `max`; an underscore is passed over.
unfoldable pub read_digits : ℕ → ℕ → ℕ → List ℕ → Option ℕ
read_digits base max n [] = some n
read_digits base max n (c ∷ cs) = elim (c == 95) [
  | true ↦ read_digits base max n cs
  | false ↦ elim (digit c) [
    | none ↦ none
    | some d ↦ elim (ltb d base && leb (n * base + d) max) [
      | true ↦ read_digits base max (n * base + d) cs
      | false ↦ none
    ]
  ]
]

-- The base that a letter after a leading 0 stands for.
abbrev pub prefix_base : ℕ → Option ℕ
prefix_base x =
    if is_letter 98 x
    then some 2
    else if is_letter 111 x
    then some 8
    else if is_letter 120 x
    then some 16
    else none

-- The base, and the digits after its prefix, of what follows a leading 0.
abbrev pub after_zero : List ℕ → ℕ × List ℕ
after_zero (x ∷ y ∷ rest) = elim (prefix_base x) [
  | some base ↦ (base, y ∷ rest)
  | none ↦ (8, x ∷ y ∷ rest)
]
after_zero rest = (8, rest)

abbrev pub base_of : List ℕ → ℕ × List ℕ
base_of [] = (10, [])
base_of (c ∷ rest) = if c == 48 then after_zero rest else (10, c ∷ rest)

-- What `underscoreOK` saw last.
pub data Saw : Type 0 where
  start digit_seen underscore other : Saw

unfoldable pub underscores_from : Bool → Saw → List ℕ → Bool
underscores_from hex underscore [] = false
underscores_from hex _ [] = true
underscores_from hex saw (c ∷ cs) =
    let is_digit_here =
      is_digit c || (hex && ((leb 97 c && leb c 102) || (leb 65 c && leb c 70))) in
    elim is_digit_here [
      | true ↦ underscores_from hex digit_seen cs
      | false ↦ elim (c == 95) [
        | true ↦ elim saw [ digit_seen ↦ underscores_from hex underscore cs | _ ↦ false ]
        | false ↦ elim saw [ underscore ↦ false | _ ↦ underscores_from hex other cs ]
      ]
    ]

-- `underscoreOK`.
unfoldable pub underscore_ok : List ℕ → Bool
unfolding underscores_from
underscore_ok (c ∷ x ∷ rest) = elim (if c == 48 then prefix_base x else none) [
  | some _ ↦ underscores_from (is_letter 120 x) digit_seen rest
  | none ↦ underscores_from false start (c ∷ x ∷ rest)
]
underscore_ok cs = underscores_from false start cs

-- `strconv.ParseUint(s, 0, bits)`, with the largest number of these bits.
unfoldable pub parse_uint : ℕ → List ℕ → Option ℕ
unfolding read_digits underscore_ok
parse_uint max [] = none
parse_uint max (c ∷ cs) =
    let (base, digits) = base_of (c ∷ cs) in
    elim (read_digits base max 0 digits) [
      | none ↦ none
      | some n ↦ if underscore_ok (c ∷ cs) then some n else none
    ]

-- `strings.Split(host, ".")`.
abbrev pub split_at_dots : List ℕ → List (List ℕ)
split_at_dots [] = [] ∷ []
split_at_dots (c ∷ cs) = elim (split_at_dots cs) [
  | [] ↦ []
  | part ∷ parts ↦ if c == 46 then [] ∷ part ∷ parts else (c ∷ part) ∷ parts
]

-- Hexadecimal, or a leading 0 with no 8 or 9.
abbrev pub is_other_notation : List ℕ → Bool
is_other_notation (c ∷ x ∷ rest) =
    (c == 48) && (is_letter 120 x || not (any (λ d. (d == 56) || (d == 57)) (c ∷ x ∷ rest)))
is_other_notation _ = false

-- The loop over the parts.
abbrev pub octets : List (List ℕ) → Option (List ℕ)
octets [] = some []
octets (part ∷ parts) =
    let rest = octets parts in parse_uint 255 part >>= λ n. rest >>= λ ns. some (n ∷ ns)

-- The address of two to four parts, the last of which is the last octet.
abbrev pub spread : Bool → List ℕ → Option Ip
spread odd (a ∷ d ∷ []) = some (ipv4 a 0 0 d)
spread odd (a ∷ b ∷ d ∷ []) = some (ipv4 a b 0 d)
spread odd (a ∷ b ∷ c ∷ d ∷ []) = if odd then some (ipv4 a b c d) else none
spread odd _ = none

-- `strings.TrimSuffix(host, "]")`.
abbrev pub trim_bracket : List ℕ → List ℕ
trim_bracket [] = []
trim_bracket (c ∷ []) = if c == 93 then [] else c ∷ []
trim_bracket (c ∷ cs) = c ∷ trim_bracket cs

abbrev pub trim_brackets : List ℕ → List ℕ
trim_brackets host = elim (trim_bracket host) [ [] ↦ [] | c ∷ cs ↦ if c == 91 then cs else c ∷ cs ]

-- `parseNonStandardIP`.
unfoldable pub parse_non_standard_ip : List ℕ → Option Ip
unfolding parse_uint
parse_non_standard_ip text =
    let host = trim_brackets text in
    elim (parse_uint 4294967295 host) [
      | some n ↦ some (ipv4 (n / 16777216 % 256) (n / 65536 % 256) (n / 256 % 256) (n % 256))
      | none ↦
          let parts = split_at_dots host in
          if ltb (length parts) 2 || ltb 4 (length parts)
          then none
          else octets parts >>= spread (any is_other_notation parts)
    ]
