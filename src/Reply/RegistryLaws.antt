-- ===== src/Reply/RegistryLaws.antt =====
-- internal/cloudevents/reply/registry.go: the entries of the registry.
use yip_yap_foss.Prelude.{
  ℕ, zero, suc, ◌≤◌, ℤ, pos, negsuc, ltb_ℤ, ◌≤ℤ◌, ◌<ℤ◌, String, Bool, true, false, ◌≡◌, refl, ap,
  arith, List, [], ◌∷◌, length, if_rule, All,
}
use yip_yap_foss.Reply.Registry.{
  Entry, RegistryConfig, is_entry, is_expired, remove_entry, drop_back, trim_back, take_front,
  cap_entries,
}

abbrev pub IsLive : RegistryConfig → ℕ → Entry → Type 0
IsLive cfg now e = is_expired cfg now e ≡ false

abbrev pub EmittedBy : ℕ → Entry → Type 0
EmittedBy t e = e.emitted_at ≤ t

-- The newest entry is in front.
abbrev pub IsOrdered : List Entry → Type 0
IsOrdered [] = Unit
IsOrdered (e ∷ es) = All (EmittedBy e.emitted_at) es × IsOrdered es

pub is_expired_self :
    (cfg : RegistryConfig) (now : ℕ) (e : Entry) → e.emitted_at ≡ now → IsLive cfg now e
unfolding is_expired
is_expired_self cfg now e h = ground arith

is_expired-newer :
    (cfg : RegistryConfig) (now : ℕ) (e f : Entry)
    → f.emitted_at ≤ e.emitted_at
    → IsLive cfg now f
    → IsLive cfg now e
unfolding is_expired
is_expired-newer cfg now e f h live = ground arith

module _ (P : Entry → Type 0) where
  pub remove_entry-All : (i : String) (es : List Entry) → All P es → All P (remove_entry i es)
  unfolding remove_entry
  remove_entry-All i [] h = h
  remove_entry-All i (e ∷ es) h =
      if_rule (All P) (is_entry i e) h.1 (h.0, remove_entry-All i es h.1)

  drop_back-All :
      (b : Bool) (e : Entry) (es : List Entry) → P e → All P es → All P (drop_back b e es)
  drop_back-All true e [] p h = tt
  drop_back-All false e [] p h = (p, tt)
  drop_back-All true e (f ∷ es) p h = (p, h)
  drop_back-All false e (f ∷ es) p h = (p, h)

  pub trim_back-All :
      (cfg : RegistryConfig) (now : ℕ) (es : List Entry) → All P es → All P (trim_back cfg now es)
  unfolding trim_back
  trim_back-All cfg now [] h = h
  trim_back-All cfg now (e ∷ es) h =
      drop_back-All (is_expired cfg now e) e (trim_back cfg now es) h.0
        (trim_back-All cfg now es h.1)

  take_front-All : (n : ℕ) (es : List Entry) → All P es → All P (take_front n es)
  unfolding take_front
  take_front-All n [] h = tt
  take_front-All zero (e ∷ es) h = tt
  take_front-All (suc n) (e ∷ es) h = (h.0, take_front-All n es h.1)

  pub cap_entries-All : (m : ℤ) (es : List Entry) → All P es → All P (cap_entries m es)
  cap_entries-All (pos zero) es h = h
  cap_entries-All (pos (suc n)) es h = take_front-All (suc n) es h
  cap_entries-All (negsuc n) es h = h

pub remove_entry-IsOrdered :
    (i : String) (es : List Entry) → IsOrdered es → IsOrdered (remove_entry i es)
unfolding remove_entry
remove_entry-IsOrdered i [] o = o
remove_entry-IsOrdered i (e ∷ es) o =
    if_rule IsOrdered (is_entry i e) o.1
      (remove_entry-All (EmittedBy e.emitted_at) i es o.0, remove_entry-IsOrdered i es o.1)

drop_back-IsOrdered :
    (b : Bool) (e : Entry) (es : List Entry)
    → All (EmittedBy e.emitted_at) es
    → IsOrdered es
    → IsOrdered (drop_back b e es)
drop_back-IsOrdered true e [] h o = tt
drop_back-IsOrdered false e [] h o = (tt, tt)
drop_back-IsOrdered true e (f ∷ es) h o = (h, o)
drop_back-IsOrdered false e (f ∷ es) h o = (h, o)

pub trim_back-IsOrdered :
    (cfg : RegistryConfig) (now : ℕ) (es : List Entry)
    → IsOrdered es
    → IsOrdered (trim_back cfg now es)
unfolding trim_back
trim_back-IsOrdered cfg now [] o = o
trim_back-IsOrdered cfg now (e ∷ es) o =
    drop_back-IsOrdered (is_expired cfg now e) e (trim_back cfg now es)
      (trim_back-All (EmittedBy e.emitted_at) cfg now es o.0) (trim_back-IsOrdered cfg now es o.1)

pub take_front-IsOrdered : (n : ℕ) (es : List Entry) → IsOrdered es → IsOrdered (take_front n es)
unfolding take_front
take_front-IsOrdered n [] o = tt
take_front-IsOrdered zero (e ∷ es) o = tt
take_front-IsOrdered (suc n) (e ∷ es) o =
    (take_front-All (EmittedBy e.emitted_at) n es o.0, take_front-IsOrdered n es o.1)

-- What the trimming leaves of an ordered list is live.
drop_back-IsLive :
    (cfg : RegistryConfig) (now : ℕ) (b : Bool) (e : Entry) (es : List Entry)
    → is_expired cfg now e ≡ b
    → All (EmittedBy e.emitted_at) es
    → All (IsLive cfg now) es
    → All (IsLive cfg now) (drop_back b e es)
drop_back-IsLive cfg now true e [] is h l = tt
drop_back-IsLive cfg now false e [] is h l = (is, tt)
drop_back-IsLive cfg now true e (f ∷ es) is h l = (is_expired-newer cfg now e f h.0 l.0, l)
drop_back-IsLive cfg now false e (f ∷ es) is h l = (is, l)

pub trim_back-IsLive :
    (cfg : RegistryConfig) (now : ℕ) (es : List Entry)
    → IsOrdered es
    → All (IsLive cfg now) (trim_back cfg now es)
unfolding trim_back
trim_back-IsLive cfg now [] o = tt
trim_back-IsLive cfg now (e ∷ es) o =
    drop_back-IsLive cfg now (is_expired cfg now e) e (trim_back cfg now es) refl
      (trim_back-All (EmittedBy e.emitted_at) cfg now es o.0) (trim_back-IsLive cfg now es o.1)

pub no_ttl-IsLive :
    (cfg : RegistryConfig) (now : ℕ) (es : List Entry)
    → ltb_ℤ (pos 0) cfg.ttl ≡ false
    → All (IsLive cfg now) es
unfolding is_expired
no_ttl-IsLive cfg now [] h = tt
no_ttl-IsLive cfg now (e ∷ es) h = (ground arith, no_ttl-IsLive cfg now es h)

length-take_front : (n : ℕ) (es : List Entry) → length (take_front n es) ≤ n
unfolding take_front
length-take_front n [] = omega arith
length-take_front zero (e ∷ es) = omega arith
length-take_front (suc n) (e ∷ es) = omega (arith, length-take_front n es)

pub length-cap_entries :
    (m : ℤ) (es : List Entry) → pos 0 <ℤ m → pos (length (cap_entries m es)) ≤ℤ m
length-cap_entries (pos zero) es h = ground arith
length-cap_entries (pos (suc n)) es h = let l = length-take_front (suc n) es in ground arith
length-cap_entries (negsuc n) es h = ground arith

-- The front entry stays in front, if it is live.
abbrev pub Heads : Entry → List Entry → Type 0
Heads e es = (rest : List Entry) × (es ≡ e ∷ rest)

pub drop_back-Heads :
    (b : Bool) (e : Entry) (es : List Entry) → b ≡ false → Heads e (drop_back b e es)
drop_back-Heads true e [] h = ground arith
drop_back-Heads false e [] h = ([], refl)
drop_back-Heads true e (f ∷ es) h = (f ∷ es, refl)
drop_back-Heads false e (f ∷ es) h = (f ∷ es, refl)

pub cap_entries-Heads :
    (m : ℤ) (e : Entry) (es : List Entry) → Heads e es → Heads e (cap_entries m es)
unfolding take_front
cap_entries-Heads (pos zero) e es h = h
cap_entries-Heads (pos (suc n)) e es (rest, is) = (take_front n rest, ap (take_front (suc n)) is)
cap_entries-Heads (negsuc n) e es h = h
