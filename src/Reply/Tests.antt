-- ===== src/Reply/Tests.antt =====
-- internal/cloudevents/reply on concrete calls.
use yip_yap_foss.Prelude.{
  ◌⊎◌, ◌+◌, ◌≤◌, pos, ◌≤ℤ◌, ◌<ℤ◌, true, false, ◌≡◌, refl, arith, none, some, List, [], ◌∷◌, All,
  length,
}
use text.Mathlib.TextEquality.{eq_iff}
use yip_yap_foss.Reply.RateLimiter.{Bucket, find_bucket, allow_key, sweep_once, aligned_window}
use yip_yap_foss.Reply.LimiterCalls.{used}
use yip_yap_foss.Reply.LimiterCap.{Call, admitted, admitted-used}
use yip_yap_foss.Reply.LimiterState.{IsSound}
use yip_yap_foss.Reply.LimiterSweep.{sweep_once-unseen}
use yip_yap_foss.Reply.Registry.{
  Event, Entry, RegistryConfig, is_expired, entry_of, record_event, lookup, evict, trim_back,
  take_front, remove_entry,
}
use yip_yap_foss.Reply.RegistryLaws.{IsLive}
use yip_yap_foss.Reply.Correlation.{
  HasLapsed, IsWithin, IsOf, IsCurrent, lookup-record_event, record_event-IsLive,
}
use yip_yap_foss.Reply.Dispatcher.{
  clamp_suppress_seconds, clamp_remediation_seconds, clamp_route_duration, DispatcherConfig, World,
  Env, dispatch_core,
}
use yip_yap_foss.Reply.Clamps.{Capped, clamps-Capped}
use yip_yap_foss.Reply.Authority.{IsAnswered, dispatch_core-IsAnswered}
use yip_yap_foss.Reply.Audits.{IsAudited, dispatch_core-IsAudited}

abbrev own_call : Call
own_call = record { key = "o|t"; limit = pos 1; at = 5 }

abbrev other_call : Call
other_call = record { key = "p|t"; limit = pos 0; at = 7 }

admitted-used_example :
    (admitted "o|t" (own_call ∷ other_call ∷ own_call ∷ []) []).0 + used 0 (find_bucket "o|t" [])
    ≤ 1
unfolding find_bucket aligned_window
admitted-used_example =
    admitted-used "o|t" 0 1 (ground arith) (ground arith) (own_call ∷ other_call ∷ own_call ∷ []) []
      (
        (refl, λ _. refl),
        (
          (refl, λ e. let h : false ≡ true = (eq_iff "p|t" "o|t").1 e in ground arith),
          ((refl, λ _. refl), tt),
        ),
      )
      (ground arith) tt (ground arith)

abbrev bucket : Bucket
bucket = record { key = "o|t"; window_start = 0; count = 1; prev_count = 0 }

abbrev no_buckets : List Bucket
no_buckets = []

bucket-IsSound : IsSound (bucket ∷ [])
unfolding find_bucket aligned_window
bucket-IsSound = record { unique = (refl, tt); aligned = (refl, tt); capped = ground arith }

sweep_once-unseen_example :
    ((allow_key "o|t" (pos 1) 130000000000 (sweep_once 120000000000 (bucket ∷ []))).0
      ≡ (allow_key "o|t" (pos 1) 130000000000 (bucket ∷ [])).0)
    × IsSound (sweep_once 120000000000 (bucket ∷ []))
sweep_once-unseen_example =
    sweep_once-unseen "o|t" (pos 1) 120000000000 130000000000 (bucket ∷ []) bucket-IsSound
      (ground arith)

abbrev registry : RegistryConfig
registry = record { max_entries = pos 2; ttl = pos 100 }

abbrev fired : Event
fired = record {
  id = "e";
  type = "fired";
  source = "yipyap";
  extensions = [];
  data_ids = ("a", "m");
}

abbrev entry : Entry
entry = entry_of 5 fired "o" "c"

lookup-record_event_example :
    (HasLapsed registry 5 50 × ((lookup registry 50 "e" (entry ∷ [])).0 ≡ none))
    ⊎ (IsWithin registry 5 50
        × ((e : Entry) × ((lookup registry 50 "e" (entry ∷ [])).0 ≡ some e)
            × IsOf 5 fired "o" "c" e))
unfolding record_event evict remove_entry trim_back take_front is_expired
lookup-record_event_example = lookup-record_event registry 5 50 fired "o" "c" [] (entry ∷ []) refl

record_event-IsLive_example :
    All (IsLive registry 5) (entry ∷ [])
    × (pos 0 <ℤ pos 2 → pos (length (entry ∷ [])) ≤ℤ pos 2)
    × IsCurrent 5 (entry ∷ [])
unfolding record_event evict remove_entry trim_back take_front is_expired
record_event-IsLive_example =
    record_event-IsLive registry 5 fired "o" "c" [] (entry ∷ [])
      (record { ordered = tt; emitted = tt }) refl

abbrev reply_env : Env
reply_env = record {
  now = 50;
  registry = registry;
  alertref_ttl = pos 80;
  handle = λ _ _. true;
  match = λ _ _. true;
  has_audit = true;
}

abbrev trusting : DispatcherConfig
trusting = record {
  accepted_reply_types = "*" ∷ [];
  rate_limit = pos 0;
  trust_elevated = true;
  allow_deregister = false;
  max_suppress_seconds = pos 0;
  max_remediation_seconds = pos 0;
  max_route_duration = pos 0;
}

abbrev deregister_reply : Event
deregister_reply = record {
  id = "r";
  type = "run.yipyap.reply.monitor.deregister.v1";
  source = "sink";
  extensions = ("alertref", some "e") ∷ [];
  data_ids = ("", "");
}

abbrev ready : World
ready = record {
  entries = entry ∷ [];
  buckets = [];
  audits = [];
  handled = [];
  handlers = "run.yipyap.reply.monitor.deregister.v1" ∷ [];
}

dispatch_core-IsAnswered_example :
    IsAnswered reply_env deregister_reply trusting "" "o" "c" ready
      (dispatch_core reply_env deregister_reply trusting "" "o" "c" ready)
dispatch_core-IsAnswered_example =
    dispatch_core-IsAnswered reply_env deregister_reply trusting "" "o" "c" ready

dispatch_core-IsAudited_example :
    IsAudited reply_env deregister_reply trusting "" "o" "c" refl refl []
      (dispatch_core reply_env deregister_reply trusting "" "o" "c" ready).1
      (dispatch_core reply_env deregister_reply trusting "" "o" "c" ready).2
dispatch_core-IsAudited_example =
    dispatch_core-IsAudited reply_env deregister_reply trusting "" "o" "c" refl refl ready

abbrev short_remediation : DispatcherConfig
short_remediation = record trusting { max_remediation_seconds = pos 60 }

clamps-Capped_example :
    Capped (pos 0) (pos 3600) (pos 9000) (clamp_suppress_seconds short_remediation (pos 9000))
    × Capped (pos 60) (pos 600) (pos 9000) (clamp_remediation_seconds short_remediation (pos 9000))
    × Capped (pos 0) (pos 86400) (pos 9000) (clamp_route_duration short_remediation (pos 9000))
clamps-Capped_example = clamps-Capped short_remediation (pos 9000)
