-- ===== src/Reply/Correlation.antt =====
-- internal/cloudevents/reply/registry.go: `Record` and `Lookup` together.
use yip_yap_foss.Prelude.{
  ℕ, zero, suc, ℤ, pos, ltb_ℤ, leb_ℤ, since, ◌⊎◌, ◌≤ℤ◌, ◌<ℤ◌, String, true, false, ◌≡◌, refl, sym,
  ◌∙◌, arith, none, some, List, ◌∷◌, length, str_eq_refl, is_blank, if◌then◌else◌, if_rule,
  if_known, Bool-cases, inl, inr, All, passed_not, some_injective, subst, first_holds, eq_of_str_eq,
  Option-cases,
}
use yip_yap_foss.Reply.Registry.{
  Event, Entry, RegistryConfig, is_entry, is_expired, find_entry, remove_entry, trim_back,
  cap_entries, evict, entry_of, record_event, lookup,
}
use yip_yap_foss.Reply.RegistryLaws.{
  IsLive, EmittedBy, IsOrdered, is_expired_self, remove_entry-All, trim_back-All, cap_entries-All,
  remove_entry-IsOrdered, trim_back-IsOrdered, take_front-IsOrdered, trim_back-IsLive,
  no_ttl-IsLive, length-cap_entries, Heads, drop_back-Heads, cap_entries-Heads,
}

evict-Heads :
    (cfg : RegistryConfig) (now : ℕ) (e : Entry) (es : List Entry)
    → e.emitted_at ≡ now
    → Heads e (evict cfg now (e ∷ es))
unfolding evict trim_back
evict-Heads cfg now e es h = cap_entries-Heads cfg.max_entries e _ (
    if_rule (Heads e) (ltb_ℤ (pos 0) cfg.ttl)
      (drop_back-Heads (is_expired cfg now e) e (trim_back cfg now es)
        (is_expired_self cfg now e h))
      (es, refl))

find_entry-Heads : (e : Entry) (es : List Entry) → Heads e es → find_entry e.event_id es ≡ some e
unfolding find_entry
find_entry-Heads e es (rest, is) = rw is (ground (arith, str_eq_refl e.event_id))

find_entry-key :
    (i : String) (es : List Entry) (e : Entry) → find_entry i es ≡ some e → e.event_id ≡ i
unfolding find_entry
find_entry-key i es e found = eq_of_str_eq e.event_id i (first_holds (is_entry i) es e found)

lookup-found :
    (cfg : RegistryConfig) (now : ℕ) (i : String) (es : List Entry) (e : Entry)
    → is_blank i ≡ false
    → find_entry i es ≡ some e
    → (lookup cfg now i es).0 ≡ (if is_expired cfg now e then none else some e)
unfolding lookup
lookup-found cfg now i es e named found = elim (Bool-cases (is_expired cfg now e)) [
  | inl old ↦ rw (named, found, old, lookup) refl
  | inr live ↦ rw (named, found, live, lookup) refl
]

record_event-eq :
    (cfg : RegistryConfig) (now : ℕ) (ev : Event) (org_id channel_id : String) (es es' : List Entry)
    → record_event cfg now ev org_id channel_id es ≡ some es'
    → (is_blank ev.id ≡ false)
      × (evict cfg now (entry_of now ev org_id channel_id ∷ remove_entry ev.id es) ≡ es')
unfolding record_event
record_event-eq cfg now ev org_id channel_id es es' e =
    let (named, h) = passed_not (is_blank ev.id) _ es' e in (named, some_injective _ es' h)

-- The age passes the time to live, which is positive.
abbrev pub HasLapsed : RegistryConfig → ℕ → ℕ → Type 0
HasLapsed cfg now later = (pos 0 <ℤ cfg.ttl) × (cfg.ttl <ℤ since later now)

abbrev pub IsWithin : RegistryConfig → ℕ → ℕ → Type 0
IsWithin cfg now later = (cfg.ttl ≤ℤ pos 0) ⊎ (since later now ≤ℤ cfg.ttl)

-- The entry of an event that was recorded at `now`.
abbrev pub IsOf : ℕ → Event → String → String → Entry → Type 0
IsOf now ev org_id channel_id e =
    (e.event_id ≡ ev.id)
    × (e.org_id ≡ org_id)
    × (e.channel_id ≡ channel_id)
    × (e.alert_id ≡ ev.data_ids.0)
    × (e.monitor_id ≡ ev.data_ids.1)
    × (e.emitted_at ≡ now)

-- Whether an entry has expired, by its age.
is_expired-age :
    (cfg : RegistryConfig) (later : ℕ) (e : Entry)
    → ((is_expired cfg later e ≡ true) × HasLapsed cfg e.emitted_at later)
      ⊎ ((is_expired cfg later e ≡ false) × IsWithin cfg e.emitted_at later)
unfolding is_expired
is_expired-age cfg later e = elim (Bool-cases (leb_ℤ cfg.ttl (pos 0))) [
  | inl off ↦ inr (rw off refl, inl (ground (arith, off)))
  | inr on ↦ elim (Bool-cases (ltb_ℤ cfg.ttl (since later e.emitted_at))) [
    | inl old ↦ inl (rw (on, old) refl, (ground (arith, on), ground (arith, old)))
    | inr young ↦ inr (rw (on, young) refl, inr (ground (arith, young)))
  ]
]

-- An event that was recorded is not found under its id if the time to live is positive and its age has passed it, and
-- otherwise is, with the org, the channel and the time that it was recorded with and the alert and the monitor of its
-- data, whatever the capacity and whatever was recorded before.
pub lookup-record_event :
    (cfg : RegistryConfig) (now later : ℕ) (ev : Event) (org_id channel_id : String)
    (es es' : List Entry)
    → record_event cfg now ev org_id channel_id es ≡ some es'
    → (HasLapsed cfg now later × ((lookup cfg later ev.id es').0 ≡ none))
      ⊎ (IsWithin cfg now later
          × ((e : Entry) × ((lookup cfg later ev.id es').0 ≡ some e)
              × IsOf now ev org_id channel_id e))
lookup-record_event cfg now later ev org_id channel_id es es' e =
    let (named, is) = record_event-eq cfg now ev org_id channel_id es es' e in
    let entry = entry_of now ev org_id channel_id in
    let head = subst (Heads entry) is (evict-Heads cfg now entry (remove_entry ev.id es) refl) in
    let found = lookup-found cfg later ev.id es' entry named (find_entry-Heads entry es' head) in
    elim (is_expired-age cfg later entry) [
      | inl (old, lapsed) ↦ inl (lapsed, ground (arith, found, old))
      | inr (young, within) ↦
          inr (within, (entry, ground (arith, found, young), (refl, refl, refl, refl, refl, refl)))
    ]

-- The newest entry in front, and none from the future.
pub record IsCurrent (now : ℕ) (es : List Entry) : Type 0 where
  pub ordered : IsOrdered es
  pub emitted : All (EmittedBy now) es

cap_entries-IsOrdered : (m : ℤ) (es : List Entry) → IsOrdered es → IsOrdered (cap_entries m es)
cap_entries-IsOrdered (pos zero) es o = o
cap_entries-IsOrdered (pos (suc n)) es o = take_front-IsOrdered (suc n) es o
cap_entries-IsOrdered (ℤ.negsuc n) es o = o

-- After a recording, in a registry that is in the order of emission and holds nothing from the future,
-- no entry is past the time to live, the entries are no more than the capacity if it is positive, and
-- the registry is still in order and without a future.
pub record_event-IsLive :
    (cfg : RegistryConfig) (now : ℕ) (ev : Event) (org_id channel_id : String) (es es' : List Entry)
    → IsCurrent now es
    → record_event cfg now ev org_id channel_id es ≡ some es'
    → All (IsLive cfg now) es'
      × (pos 0 <ℤ cfg.max_entries → pos (length es') ≤ℤ cfg.max_entries)
      × IsCurrent now es'
unfolding evict
record_event-IsLive cfg now ev org_id channel_id es es' v e =
    let (_, is) = record_event-eq cfg now ev org_id channel_id es es' e in
    let entry = entry_of now ev org_id channel_id in
    let others = remove_entry ev.id es in
    let ordered : IsOrdered (entry ∷ others) = (
      remove_entry-All (EmittedBy now) ev.id es v.emitted,
      remove_entry-IsOrdered ev.id es v.ordered,
    ) in
    let emitted : All (EmittedBy now) (entry ∷ others) =
      (omega arith, remove_entry-All (EmittedBy now) ev.id es v.emitted) in
    let trims = ltb_ℤ (pos 0) cfg.ttl in
    let trimmed = if trims then trim_back cfg now (entry ∷ others) else entry ∷ others in
    let live : All (IsLive cfg now) trimmed =
      if_known (All (IsLive cfg now)) trims (λ _. trim_back-IsLive cfg now (entry ∷ others) ordered)
        (no_ttl-IsLive cfg now (entry ∷ others)) in
    let order : IsOrdered trimmed =
      if_rule IsOrdered trims (trim_back-IsOrdered cfg now (entry ∷ others) ordered) ordered in
    let past : All (EmittedBy now) trimmed =
      if_rule (All (EmittedBy now)) trims
        (trim_back-All (EmittedBy now) cfg now (entry ∷ others) emitted) emitted in
    subst
      (λ out.
        All (IsLive cfg now) out
        × (pos 0 <ℤ cfg.max_entries → pos (length out) ≤ℤ cfg.max_entries)
        × IsCurrent now out)
      is
      (
        cap_entries-All (IsLive cfg now) cfg.max_entries trimmed live,
        length-cap_entries cfg.max_entries trimmed,
        record {
          ordered = cap_entries-IsOrdered cfg.max_entries trimmed order;
          emitted = cap_entries-All (EmittedBy now) cfg.max_entries trimmed past;
        },
      )

-- What a lookup returns has the id that was asked for and is not past the time to live.
pub lookup_sound :
    (cfg : RegistryConfig) (now : ℕ) (i : String) (es : List Entry) (e : Entry)
    → (lookup cfg now i es).0 ≡ some e
    → (e.event_id ≡ i) × IsLive cfg now e
unfolding lookup
lookup_sound cfg now i es e h = elim (Bool-cases (is_blank i)) [
  | inl blank ↦
      let off : (lookup cfg now i es).0 ≡ none = rw (blank, lookup) refl in
      let no_entry : none ≡ some e = sym off ∙ h in ground arith
  | inr named ↦ elim (Option-cases (find_entry i es)) [
    | inl missing ↦
        let off : (lookup cfg now i es).0 ≡ none = rw (named, missing, lookup) refl in
        let no_entry : none ≡ some e = sym off ∙ h in ground arith
    | inr (f, found) ↦
        let (live, h') =
          passed_not (is_expired cfg now f) (some f) e
            (sym (lookup-found cfg now i es f named found) ∙ h) in
        let is = some_injective f e h' in
        subst (λ d. (d.event_id ≡ i) × IsLive cfg now d) is (find_entry-key i es f found, live)
  ]
]
