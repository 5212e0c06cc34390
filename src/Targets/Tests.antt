-- ===== src/Targets/Tests.antt =====
-- internal/checker/ssrf.go on concrete hosts.
use yip_yap_foss.Prelude.{
  ◌||◌, ◌==◌, true, false, ◌≡◌, refl, arith, codes, none, some, if◌then◌else◌,
}
use yip_yap_foss.Targets.Address.{four, sixteen, zeros, ipv4, is_private_ip}
use yip_yap_foss.Targets.Notation.{
  parse_uint, read_digits, underscores_from, underscore_ok, parse_non_standard_ip,
}
use yip_yap_foss.Targets.Ranges.{number, blocked, is_private_ip-ranges}
use yip_yap_foss.Targets.Validation.{Env, private_target, validate_host}
use yip_yap_foss.Targets.Encodings.{two, validate_host-encoded}

is_private_ip-ranges_example :
    (is_private_ip (four 169 254 169 254) ≡ blocked (number 169 254 169 254))
    × (is_private_ip (ipv4 169 254 169 254) ≡ blocked (number 169 254 169 254))
    × (is_private_ip (sixteen zeros 0 0 169 254 169 254)
        ≡ blocked (number 169 254 169 254) || (number 169 254 169 254 == 1))
is_private_ip-ranges_example =
    is_private_ip-ranges 169 254 169 254 (ground arith) (ground arith) (ground arith) (ground arith)

metadata_blocked : blocked (number 169 254 169 254) ≡ true
metadata_blocked = refl

decimal : parse_non_standard_ip (codes "2130706433") ≡ some (ipv4 127 0 0 1)
unfolding parse_non_standard_ip parse_uint read_digits underscore_ok underscores_from
decimal = refl

hexadecimal : parse_non_standard_ip (codes "0x7f.0.0.0x1") ≡ some (ipv4 127 0 0 1)
unfolding parse_non_standard_ip parse_uint read_digits underscore_ok underscores_from
hexadecimal = refl

short : parse_non_standard_ip (codes "10.1") ≡ some (ipv4 10 0 0 1)
unfolding parse_non_standard_ip parse_uint read_digits underscore_ok underscores_from
short = refl

octal : parse_non_standard_ip (codes "0177.0.0.1") ≡ some (ipv4 127 0 0 1)
unfolding parse_non_standard_ip parse_uint read_digits underscore_ok underscores_from
octal = refl

named : parse_non_standard_ip (codes "example.com") ≡ none
unfolding parse_non_standard_ip parse_uint read_digits underscore_ok underscores_from
named = refl

abbrev env : Env
env = record {
  parse_ip = λ _. none;
  lookup_ip = λ _. none;
  parse_url = λ _. none;
  split_host_port = λ _. none;
  allow_private_targets = false;
  allow_private_control_plane_targets = false;
}

validate_host-encoded_example :
    validate_host env "0177.1" ≡ (if blocked 2130706433 then some private_target else none)
unfolding parse_uint read_digits underscore_ok underscores_from
validate_host-encoded_example =
    validate_host-encoded env "0177.1" 2130706433 refl refl
      (two (codes "0177") (codes "1") 127 1 refl refl refl refl refl)
