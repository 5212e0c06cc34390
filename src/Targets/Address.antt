-- ===== src/Targets/Address.antt =====
-- internal/checker/ssrf.go: isPrivateIP and ipv4CompatToV4, with the properties of addresses that Go's package net has.
use yip_yap_foss.Prelude.{
  ℕ, ◌/◌, ◌%◌, ◌==◌, Bool, false, not, ◌&&◌, ◌||◌, Option, none, some, List, [], ◌∷◌, all,
  if◌then◌else◌,
}

-- A `net.IP` of four bytes; or of sixteen, the first ten of them a list.
pub data Ip : Type 0 where
  four : ℕ → ℕ → ℕ → ℕ → Ip
  sixteen : List ℕ → ℕ → ℕ → ℕ → ℕ → ℕ → ℕ → Ip

abbrev pub zeros : List ℕ
zeros = 0 ∷ 0 ∷ 0 ∷ 0 ∷ 0 ∷ 0 ∷ 0 ∷ 0 ∷ 0 ∷ 0 ∷ []

abbrev pub is_zero : ℕ → Bool
is_zero b = b == 0

-- `net.IPv4`: sixteen bytes, mapped.
abbrev pub ipv4 : ℕ → ℕ → ℕ → ℕ → Ip
ipv4 a b c d = sixteen zeros 255 255 a b c d

abbrev pub Quad : Type 0
Quad = ℕ × ℕ × ℕ × ℕ

-- `To4`.
unfoldable pub to4 : Ip → Option Quad
to4 (four a b c d) = some (a, b, c, d)
to4 (sixteen p x y a b c d) =
    if all is_zero p && (x == 255) && (y == 255) then some (a, b, c, d) else none

-- The first two bytes of an IPv6 address.
abbrev head2 : List ℕ → ℕ × ℕ
head2 [] = (0, 0)
head2 (x ∷ []) = (x, 0)
head2 (x ∷ y ∷ _) = (x, y)

abbrev pub first_bytes : Ip → ℕ × ℕ
first_bytes (four a b _ _) = (a, b)
first_bytes (sixteen p _ _ _ _ _ _) = head2 p

-- Every byte but the last is 0.
abbrev pub is_small : Ip → ℕ → Bool
is_small (four _ _ _ _) n = false
is_small (sixteen p x y a b c d) n =
    all is_zero p && is_zero x && is_zero y && is_zero a && is_zero b && is_zero c && (d == n)

unfoldable pub is_loopback : Ip → Bool
unfolding to4
is_loopback ip = elim (to4 ip) [ some (a, _, _, _) ↦ a == 127 | none ↦ is_small ip 1 ]

unfoldable pub is_private : Ip → Bool
unfolding to4
is_private ip = elim (to4 ip) [
  | some (a, b, _, _) ↦ (a == 10) || ((a == 172) && (b / 16 == 1)) || ((a == 192) && (b == 168))
  | none ↦ (first_bytes ip).0 / 2 == 126
]

unfoldable pub is_link_local_unicast : Ip → Bool
unfolding to4
is_link_local_unicast ip = elim (to4 ip) [
  | some (a, b, _, _) ↦ (a == 169) && (b == 254)
  | none ↦ ((first_bytes ip).0 == 254) && ((first_bytes ip).1 / 64 == 2)
]

unfoldable pub is_link_local_multicast : Ip → Bool
unfolding to4
is_link_local_multicast ip = elim (to4 ip) [
  | some (a, b, c, _) ↦ (a == 224) && (b == 0) && (c == 0)
  | none ↦ ((first_bytes ip).0 == 255) && ((first_bytes ip).1 % 16 == 2)
]

unfoldable pub is_unspecified : Ip → Bool
unfolding to4
is_unspecified ip = elim (to4 ip) [
  | some (a, b, c, d) ↦ (a == 0) && (b == 0) && (c == 0) && (d == 0)
  | none ↦ is_small ip 0
]

-- `ipv4CompatToV4`.
unfoldable pub ipv4_compat_to_v4 : Ip → Option Ip
ipv4_compat_to_v4 (four _ _ _ _) = none
ipv4_compat_to_v4 (sixteen p x y a b c d) =
    if not (all is_zero p)
    then none
    else if (x == 255) && (y == 255)
    then none
    else if not (x == 0) || not (y == 0)
    then none
    else if (a == 0) && (b == 0) && (c == 0) && ((d == 0) || (d == 1))
    then none
    else some (ipv4 a b c d)

abbrev unwrapped : Ip → Option Ip → Ip
unwrapped ip none = ip
unwrapped ip (some v4) = v4

-- `isPrivateIP`.
unfoldable pub is_private_ip : Ip → Bool
unfolding ipv4_compat_to_v4 is_loopback is_private is_link_local_unicast is_link_local_multicast
    is_unspecified
is_private_ip original =
    let ip = unwrapped original (ipv4_compat_to_v4 original) in
    is_loopback ip
    || is_private ip
    || is_link_local_unicast ip
    || is_link_local_multicast ip
    || is_unspecified ip
