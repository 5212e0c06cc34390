-- ===== src/Targets/Validation.antt =====
-- internal/checker: the validation of targets in ssrf.go, and the dial of ssrf_dialer.go.
use yip_yap_foss.Prelude.{
  ◌==◌, Bool, true, false, not, ◌||◌, String, str_eq, is_blank, codes, Option, none, some, List,
  any, if◌then◌else◌,
}
use yip_yap_foss.Targets.Address.{Ip, is_private_ip}
use yip_yap_foss.Targets.Notation.{parse_non_standard_ip}

pub record Url : Type 0 where
  pub scheme : String
  pub hostname : String

-- `net.ParseIP`, the resolver, `url.Parse` and `net.SplitHostPort`, and the two settings.
pub record Env : Type 0 where
  pub parse_ip : String → Option Ip
  pub lookup_ip : String → Option (List Ip)
  pub parse_url : String → Option Url
  pub split_host_port : String → Option String
  pub allow_private_targets : Bool
  pub allow_private_control_plane_targets : Bool

pub data Refusal : Type 0 where
  invalid_characters invalid_url unsupported_scheme missing_host private_target : Refusal
  control_plane_private_target : Refusal

-- The characters that `ContainsAny` looks for.
abbrev pub forbidden : String
forbidden = ";|&$`\\\"'(){}[]<>!\n\r\t "

abbrev pub contains_any : String → String → Bool
contains_any s chars = any (λ c. any (λ d. c == d) (codes chars)) (codes s)

abbrev refuse_if : Bool → Option Refusal
refuse_if private = if private then some private_target else none

-- `validateHost`; a name that does not resolve passes.
unfoldable pub validate_host : Env → String → Option Refusal
unfolding is_private_ip parse_non_standard_ip
validate_host env host =
    if contains_any host forbidden then some invalid_characters else elim (env.parse_ip host) [
      | some ip ↦ refuse_if (is_private_ip ip)
      | none ↦ elim (parse_non_standard_ip (codes host)) [
        | some ip ↦ refuse_if (is_private_ip ip)
        | none ↦ elim (env.lookup_ip host) [
          | none ↦ none
          | some ips ↦ refuse_if (any is_private_ip ips)
        ]
      ]
    ]

-- `validateHTTPTargetStrict`.
unfoldable pub validate_http_target_strict : Env → String → Option Refusal
unfolding validate_host
validate_http_target_strict env raw = elim (env.parse_url raw) [
  | none ↦ some invalid_url
  | some u ↦
      if not (str_eq u.scheme "http" || str_eq u.scheme "https")
      then some unsupported_scheme
      else if is_blank u.hostname
      then some missing_host
      else validate_host env u.hostname
]

-- `ValidateHTTPTarget`.
unfoldable pub validate_http_target : Env → String → Option Refusal
unfolding validate_http_target_strict
validate_http_target env raw =
    if env.allow_private_targets then none else validate_http_target_strict env raw

-- The text of an error for the control plane.
abbrev for_control_plane : Refusal → Refusal
for_control_plane private_target = control_plane_private_target
for_control_plane r = r

-- `ValidateControlPlaneHTTPTarget`.
unfoldable pub validate_control_plane_http_target : Env → String → Option Refusal
unfolding validate_http_target_strict
validate_control_plane_http_target env raw =
    if env.allow_private_control_plane_targets
    then none
    else elim (validate_http_target_strict env raw) [
      | none ↦ none
      | some r ↦ some (for_control_plane r)
    ]

-- `ValidateTarget`.
unfoldable pub validate_target : Env → String → Option Refusal
unfolding validate_host
validate_target env host =
    if env.allow_private_targets
    then none
    else if is_blank host
    then some missing_host
    else validate_host env host

-- `SSRFGuardedDialContext`: whether the base dialer is called.
unfoldable pub passes_guard : Env → String → Bool
unfolding validate_host
passes_guard env addr =
    if env.allow_private_control_plane_targets then true else elim (env.split_host_port addr) [
      | none ↦ true
      | some host ↦ elim (validate_host env host) [ none ↦ true | some _ ↦ false ]
    ]
