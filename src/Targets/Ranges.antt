-- ===== src/Targets/Ranges.antt =====
-- internal/checker/ssrf.go: the addresses that isPrivateIP blocks, as ranges of 32-bit numbers.
use yip_yap_foss.Prelude.{
  ℕ, ◌+◌, ◌*◌, ◌/◌, ◌<◌, leb, ◌==◌, Bool, true, false, ◌&&◌, ◌||◌, ◌≡◌, refl, ◌∙◌, arith, inl, inr,
  Bool-cases,
}
use yip_yap_foss.Targets.Address.{
  four, sixteen, zeros, ipv4, to4, is_loopback, is_private, is_link_local_unicast,
  is_link_local_multicast, is_unspecified, ipv4_compat_to_v4, is_private_ip,
}

-- The number of a dotted quad.
abbrev pub number : ℕ → ℕ → ℕ → ℕ → ℕ
number a b c d = a * 16777216 + b * 65536 + c * 256 + d

abbrev between : ℕ → ℕ → ℕ → Bool
between low high n = leb low n && leb n high

-- 127.0.0.0/8; 10.0.0.0/8, 172.16.0.0/12 and 192.168.0.0/16; 169.254.0.0/16; 224.0.0.0/24; and 0.0.0.0.
abbrev pub blocked : ℕ → Bool
blocked n =
    between 2130706432 2147483647 n
    || (between 167772160 184549375 n
        || between 2886729728 2887778303 n
        || between 3232235520 3232301055 n)
    || between 2851995648 2852061183 n
    || between 3758096384 3758096639 n
    || (n == 0)

or_false : (x : Bool) → x ≡ x || false
or_false true = refl
or_false false = refl

module _ (a b c d : ℕ) (ha : a < 256) (hb : b < 256) (hc : c < 256) (hd : d < 256) where
  loopback_range : (a == 127) ≡ between 2130706432 2147483647 (number a b c d)
  loopback_range = ground arith

  ten_range : (a == 10) ≡ between 167772160 184549375 (number a b c d)
  ten_range = ground arith

  twelve_range : ((a == 172) && (b / 16 == 1)) ≡ between 2886729728 2887778303 (number a b c d)
  twelve_range = ground arith

  sixteen_range : ((a == 192) && (b == 168)) ≡ between 3232235520 3232301055 (number a b c d)
  sixteen_range = ground arith

  link_range : ((a == 169) && (b == 254)) ≡ between 2851995648 2852061183 (number a b c d)
  link_range = ground arith

  multicast_range :
      ((a == 224) && (b == 0) && (c == 0)) ≡ between 3758096384 3758096639 (number a b c d)
  multicast_range = ground arith

  unspecified_range : ((a == 0) && (b == 0) && (c == 0) && (d == 0)) ≡ (number a b c d == 0)
  unspecified_range = ground arith

  four_blocked : is_private_ip (four a b c d) ≡ blocked (number a b c d)
  unfolding is_private_ip ipv4_compat_to_v4 to4 is_loopback is_private is_link_local_unicast
      is_link_local_multicast is_unspecified
  four_blocked =
      rw
        (
          loopback_range, ten_range, twelve_range, sixteen_range, link_range, multicast_range,
          unspecified_range,
        )
        refl

  mapped_blocked : is_private_ip (ipv4 a b c d) ≡ blocked (number a b c d)
  unfolding is_private_ip ipv4_compat_to_v4 to4 is_loopback is_private is_link_local_unicast
      is_link_local_multicast is_unspecified
  mapped_blocked =
      rw
        (
          loopback_range, ten_range, twelve_range, sixteen_range, link_range, multicast_range,
          unspecified_range,
        )
        refl

  small_range :
      ((a == 0) && (b == 0) && (c == 0) && ((d == 0) || (d == 1))) ≡ leb (number a b c d) 1
  small_range = ground arith

  compat_blocked :
      is_private_ip (sixteen zeros 0 0 a b c d) ≡ blocked (number a b c d) || (number a b c d == 1)
  unfolding is_private_ip ipv4_compat_to_v4 to4 is_loopback is_private is_link_local_unicast
      is_link_local_multicast is_unspecified
  compat_blocked = elim (Bool-cases (leb (number a b c d) 1)) [
    | inl small ↦
        let a0 : a ≡ 0 = ground (arith, small) in
        let b0 : b ≡ 0 = ground (arith, small) in
        let c0 : c ≡ 0 = ground (arith, small) in
        elim (Bool-cases (d == 0)) [
          | inl zero ↦ let d0 : d ≡ 0 = ground (arith, zero) in rw (a0, b0, c0, d0) refl
          | inr one ↦ let d1 : d ≡ 1 = ground (arith, small, one) in rw (a0, b0, c0, d1) refl
        ]
    | inr large ↦
        let away : (number a b c d == 1) ≡ false = ground (arith, large) in
        rw (small_range, large, away) (mapped_blocked ∙ or_false (blocked (number a b c d)))
  ]

-- An IPv4 address, in four bytes or mapped into IPv6 (::ffff:a.b.c.d), is private just if its number is in 127.0.0.0/8,
-- 10.0.0.0/8, 172.16.0.0/12, 192.168.0.0/16, 169.254.0.0/16 or 224.0.0.0/24 or is 0; and in the form ::a.b.c.d just if
-- it is in one of these or is 1, which is then the IPv6 loopback.
pub is_private_ip-ranges :
    (a b c d : ℕ)
    → a < 256
    → b < 256
    → c < 256
    → d < 256
    → (is_private_ip (four a b c d) ≡ blocked (number a b c d))
      × (is_private_ip (ipv4 a b c d) ≡ blocked (number a b c d))
      × (is_private_ip (sixteen zeros 0 0 a b c d)
          ≡ blocked (number a b c d) || (number a b c d == 1))
is_private_ip-ranges a b c d ha hb hc hd = (
  four_blocked a b c d ha hb hc hd,
  mapped_blocked a b c d ha hb hc hd,
  compat_blocked a b c d ha hb hc hd,
)
