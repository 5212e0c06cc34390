-- ===== src/Reply/Clamps.antt =====
-- The caps of internal/cloudevents/reply/dispatcher.go on what a reply may ask for.
use yip_yap_foss.Prelude.{ℤ, pos, ◌≤ℤ◌, ◌<ℤ◌, arith}
use yip_yap_foss.Reply.Dispatcher.{
  DispatcherConfig, clamp_suppress_seconds, clamp_remediation_seconds, clamp_route_duration,
}

-- The cap that is in force: the channel's, if it is positive, or else the default.
abbrev pub Capped : ℤ → ℤ → ℤ → ℤ → Type 0
Capped max default requested granted =
    (pos 0 <ℤ granted)
    × (pos 0 <ℤ max → granted ≤ℤ max)
    × (max ≤ℤ pos 0 → granted ≤ℤ default)
    × (pos 0 <ℤ requested → granted ≤ℤ requested)

-- Whatever a reply requests and a channel sets, the three clamps grant a positive time that is within the
-- channel's cap if that is positive and within the default (an hour, ten minutes, a day) if it is
-- not, and that is never longer than a positive request.
pub clamps-Capped :
    (cfg : DispatcherConfig) (requested : ℤ)
    → Capped cfg.max_suppress_seconds (pos 3600) requested (clamp_suppress_seconds cfg requested)
      × Capped cfg.max_remediation_seconds
          (pos 600)
          requested
          (clamp_remediation_seconds cfg requested)
      × Capped cfg.max_route_duration (pos 86400) requested (clamp_route_duration cfg requested)
unfolding clamp_suppress_seconds clamp_remediation_seconds clamp_route_duration
clamps-Capped cfg requested = (
  (ground arith, λ h. ground arith, λ h. ground arith, λ h. ground arith),
  (ground arith, λ h. ground arith, λ h. ground arith, λ h. ground arith),
  (ground arith, λ h. ground arith, λ h. ground arith, λ h. ground arith),
)
