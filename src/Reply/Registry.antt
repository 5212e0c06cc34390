-- ===== src/Reply/Registry.antt =====
-- internal/cloudevents/reply/registry.go, `MemoryRegistry`. The map and the linked list hold the same
-- entries; here they are one list, front first. Instants are nanoseconds.
use yip_yap_foss.Prelude.{
  ℕ, zero, suc, ℤ, pos, negsuc, ltb_ℤ, leb_ℤ, since, String, Bool, true, false, Option, none, some,
  List, [], ◌∷◌, first, str_eq, is_blank, if◌then◌else◌,
}

-- An inbound or outbound CloudEvent, as far as this package reads it. An extension that is nil is
-- `none`, any other is the text that it prints as.
pub record Event : Type 0 where
  pub id : String
  pub type : String
  pub source : String
  pub extensions : List (String × Option String)
  -- `alert_id` and `monitor_id` of the JSON payload, empty where it has none.
  pub data_ids : String × String

pub record Entry : Type 0 where
  pub event_id : String
  pub org_id : String
  pub alert_id : String
  pub monitor_id : String
  pub channel_id : String
  pub emitted_at : ℕ

pub record RegistryConfig : Type 0 where
  pub max_entries : ℤ
  pub ttl : ℤ

abbrev pub is_entry : String → Entry → Bool
is_entry i e = str_eq e.event_id i

-- `expiredLocked`.
unfoldable pub is_expired : RegistryConfig → ℕ → Entry → Bool
is_expired cfg now e =
    if leb_ℤ cfg.ttl (pos 0) then false else ltb_ℤ cfg.ttl (since now e.emitted_at)

-- `index[eventID]`.
unfoldable pub find_entry : String → List Entry → Option Entry
find_entry i es = first (is_entry i) es

-- `removeLocked`.
unfoldable pub remove_entry : String → List Entry → List Entry
remove_entry i [] = []
remove_entry i (e ∷ es) = if is_entry i e then es else e ∷ remove_entry i es

abbrev pub drop_back : Bool → Entry → List Entry → List Entry
drop_back true e [] = []
drop_back false e [] = e ∷ []
drop_back _ e (f ∷ es) = e ∷ f ∷ es

-- The first loop of `evictLocked`: expired entries leave from the back, up to one that is not.
unfoldable pub trim_back : RegistryConfig → ℕ → List Entry → List Entry
unfolding is_expired
trim_back cfg now [] = []
trim_back cfg now (e ∷ es) =
    let rest = trim_back cfg now es in drop_back (is_expired cfg now e) e rest

-- The second loop: entries leave from the back until `n` are left.
unfoldable pub take_front : ℕ → List Entry → List Entry
take_front n [] = []
take_front zero (e ∷ es) = []
take_front (suc n) (e ∷ es) = e ∷ take_front n es

abbrev pub cap_entries : ℤ → List Entry → List Entry
cap_entries (pos zero) es = es
cap_entries (pos (suc n)) es = take_front (suc n) es
cap_entries (negsuc n) es = es

-- `evictLocked`.
unfoldable pub evict : RegistryConfig → ℕ → List Entry → List Entry
unfolding trim_back take_front
evict cfg now es =
    cap_entries cfg.max_entries (if ltb_ℤ (pos 0) cfg.ttl then trim_back cfg now es else es)

abbrev pub entry_of : ℕ → Event → String → String → Entry
entry_of now ev org_id channel_id = record {
  event_id = ev.id;
  org_id = org_id;
  alert_id = ev.data_ids.0;
  monitor_id = ev.data_ids.1;
  channel_id = channel_id;
  emitted_at = now;
}

-- `Record`; an event with no id is refused.
unfoldable pub record_event :
    RegistryConfig → ℕ → Event → String → String → List Entry → Option (List Entry)
unfolding evict remove_entry
record_event cfg now ev org_id channel_id es =
    if is_blank ev.id
    then none
    else some (evict cfg now (entry_of now ev org_id channel_id ∷ remove_entry ev.id es))

-- `Lookup`: an entry that has expired is removed.
unfoldable pub lookup : RegistryConfig → ℕ → String → List Entry → Option Entry × List Entry
unfolding is_expired find_entry remove_entry
lookup cfg now i es = if is_blank i then (none, es) else elim (find_entry i es) [
  | none ↦ (none, es)
  | some e ↦ if is_expired cfg now e then (none, remove_entry i es) else (some e, es)
]
