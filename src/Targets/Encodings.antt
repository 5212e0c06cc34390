-- ===== src/Targets/Encodings.antt =====
-- internal/checker/ssrf.go: hosts that are an IPv4 address in another notation.
use yip_yap_foss.Prelude.{
  ℕ, ◌+◌, ◌*◌, ◌/◌, ◌%◌, ◌≤◌, ◌<◌, ltb, leb, ◌==◌, Option, true, false, ◌&&◌, ◌||◌, ◌≡◌, refl,
  subst, ◌∙◌, ◌>>=◌, ap, arith, inl, inr, String, codes, none, some, List, [], ◌∷◌, any, length,
  some_injective, passed, Bool-cases, Option-cases, if◌then◌else◌,
}
use yip_yap_foss.Targets.Address.{ipv4, is_private_ip}
use yip_yap_foss.Targets.Notation.{
  digit, read_digits, underscore_ok, base_of, parse_uint, is_other_notation, octets, spread,
  trim_brackets, split_at_dots, parse_non_standard_ip,
}
use yip_yap_foss.Targets.Ranges.{number, blocked, is_private_ip-ranges}
use yip_yap_foss.Targets.Validation.{Env, private_target, contains_any, forbidden, validate_host}

none_is {ℓ} : {A : Type ℓ} (a : A) → none ≡ some a → ⊥
none_is a e = ground (arith, e)

read_digits-le :
    (base max n : ℕ) (cs : List ℕ) (m : ℕ) → n ≤ max → read_digits base max n cs ≡ some m → m ≤ max
unfolding read_digits
read_digits-le base max n [] m h e = ground (arith, some_injective n m e)
read_digits-le base max n (c ∷ cs) m h e = elim (Bool-cases (c == 95)) [
  | inl score ↦ read_digits-le base max n cs m h (rw (score, read_digits) at e)
  | inr other ↦ elim (Option-cases (digit c)) [
    | inl bad ↦ absurd (none_is m (rw (other, read_digits, bad) at e))
    | inr (d, is) ↦ elim (Bool-cases (ltb d base && leb (n * base + d) max)) [
      | inl fits ↦
          read_digits-le base max (n * base + d) cs m (ground (arith, fits))
            (rw (other, read_digits, is, fits) at e)
      | inr too_big ↦ absurd (none_is m (rw (other, read_digits, is, too_big) at e))
    ]
  ]
]

parse_uint-le : (max : ℕ) (cs : List ℕ) (n : ℕ) → parse_uint max cs ≡ some n → n ≤ max
unfolding parse_uint
parse_uint-le max [] n e = ground (arith, e)
parse_uint-le max (c ∷ cs) n e =
    elim (Option-cases (read_digits (base_of (c ∷ cs)).0 max 0 (base_of (c ∷ cs)).1)) [
      | inl bad ↦ absurd (none_is n (rw (parse_uint, bad) at e))
      | inr (m, is) ↦
          let (_, same) = passed (underscore_ok (c ∷ cs)) (some m) n (rw (parse_uint, is) at e) in
          subst (λ k. k ≤ max) (some_injective m n same)
            (read_digits-le (base_of (c ∷ cs)).0 max 0 (base_of (c ∷ cs)).1 m (omega arith) is)
    ]

-- Bytes.
abbrev IsByte : ℕ → Type 0
IsByte n = n < 256

-- The parts of the host, without its brackets, between its dots.
abbrev parts_of : List ℕ → List (List ℕ)
parts_of text = split_at_dots (trim_brackets text)

abbrev is_whole : List ℕ → Option ℕ
is_whole text = parse_uint 4294967295 (trim_brackets text)

abbrev IsOctet : List ℕ → ℕ → Type 0
IsOctet part n = parse_uint 255 part ≡ some n

-- The 32-bit number that a text in another notation stands for: one number; the first and the last octet; the first
-- two and the last; or four octets, one of them hexadecimal or with a leading 0.
pub data Denotes (text : List ℕ) (n : ℕ) : Type 0 where
  whole : is_whole text ≡ some n → Denotes text n
  two :
      (p q : List ℕ) (a d : ℕ)
      → is_whole text ≡ none
      → parts_of text ≡ p ∷ q ∷ []
      → IsOctet p a
      → IsOctet q d
      → n ≡ a * 16777216 + d
      → Denotes text n
  three :
      (p q r : List ℕ) (a b d : ℕ)
      → is_whole text ≡ none
      → parts_of text ≡ p ∷ q ∷ r ∷ []
      → IsOctet p a
      → IsOctet q b
      → IsOctet r d
      → n ≡ a * 16777216 + b * 65536 + d
      → Denotes text n
  four :
      (p q r s : List ℕ) (a b c d : ℕ)
      → is_whole text ≡ none
      → parts_of text ≡ p ∷ q ∷ r ∷ s ∷ []
      → any is_other_notation (p ∷ q ∷ r ∷ s ∷ []) ≡ true
      → IsOctet p a
      → IsOctet q b
      → IsOctet r c
      → IsOctet s d
      → n ≡ a * 16777216 + b * 65536 + c * 256 + d
      → Denotes text n

-- The address of four bytes is read, and the number of the bytes is `n`.
abbrev ReadsAs : List ℕ → ℕ → Type 0
ReadsAs text n =
    (a : ℕ) × (b : ℕ) × (c : ℕ) × (d : ℕ) × IsByte a
    × IsByte b
    × IsByte c
    × IsByte d
    × (parse_non_standard_ip text ≡ some (ipv4 a b c d))
    × (number a b c d ≡ n)

octet-IsByte : (part : List ℕ) (n : ℕ) → IsOctet part n → IsByte n
octet-IsByte part n e = omega (arith, parse_uint-le 255 part n e)

parse_parts :
    (text : List ℕ) (parts : List (List ℕ))
    → is_whole text ≡ none
    → parts_of text ≡ parts
    → parse_non_standard_ip text ≡ (
        if ltb (length parts) 2 || ltb 4 (length parts)
        then none
        else octets parts >>= spread (any is_other_notation parts))
unfolding parse_non_standard_ip
parse_parts text parts not_one are = rw (not_one, are, parse_non_standard_ip) refl

Denotes-ReadsAs : (text : List ℕ) (n : ℕ) → Denotes text n → ReadsAs text n
Denotes-ReadsAs text n (whole is) =
    let low = parse_uint-le 4294967295 (trim_brackets text) n is in
    (
      n / 16777216 % 256,
      n / 65536 % 256,
      n / 256 % 256,
      n % 256,
      omega arith,
      omega arith,
      omega arith,
      omega arith,
      unfold parse_non_standard_ip in rw (parse_non_standard_ip, is) refl,
      omega (arith, low),
    )
Denotes-ReadsAs text n (two p q a d not_one are pa qd is) = (
  a,
  0,
  0,
  d,
  octet-IsByte p a pa,
  omega arith,
  omega arith,
  octet-IsByte q d qd,
  parse_parts text (p ∷ q ∷ []) not_one are ∙ rw (pa, qd) refl,
  omega (arith, is),
)
Denotes-ReadsAs text n (three p q r a b d not_one are pa qb rd is) = (
  a,
  b,
  0,
  d,
  octet-IsByte p a pa,
  octet-IsByte q b qb,
  omega arith,
  octet-IsByte r d rd,
  parse_parts text (p ∷ q ∷ r ∷ []) not_one are ∙ rw (pa, qb, rd) refl,
  omega (arith, is),
)
Denotes-ReadsAs text n (four p q r s a b c d not_one are odd pa qb rc sd is) = (
  a,
  b,
  c,
  d,
  octet-IsByte p a pa,
  octet-IsByte q b qb,
  octet-IsByte r c rc,
  octet-IsByte s d sd,
  parse_parts text (p ∷ q ∷ r ∷ s ∷ []) not_one are ∙ rw (pa, qb, rc, sd, odd) refl,
  omega (arith, is),
)

-- A host with no forbidden character that `net.ParseIP` does not take and that stands for a 32-bit number, as one
-- number in decimal, hexadecimal, octal or binary, as its first and last octets, as its first two and last, or as four
-- octets of which one is hexadecimal or has a leading 0, is refused just if that number is in a blocked range.
pub validate_host-encoded :
    (env : Env) (host : String) (n : ℕ)
    → contains_any host forbidden ≡ false
    → env.parse_ip host ≡ none
    → Denotes (codes host) n
    → validate_host env host ≡ (if blocked n then some private_target else none)
unfolding validate_host
validate_host-encoded env host n clean unusual means =
    let (a, b, c, d, ha, hb, hc, hd, is, same) = Denotes-ReadsAs (codes host) n means in
    let (_, mapped, _) = is_private_ip-ranges a b c d ha hb hc hd in
    let judged : is_private_ip (ipv4 a b c d) ≡ blocked n = mapped ∙ ap blocked same in
    rw (validate_host, clean, unusual, is, judged) refl
