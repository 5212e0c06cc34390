-- ===== src/Replies/Expiry.antt =====
-- internal/cloudevents/reply/handlers/suppressed.go: how long a suppression lasts.
use yip_yap_foss.Prelude.{
  ℕ, ◌+◌, ◌*◌, ◌<◌, ◌≤◌, ℤ, pos, negsuc, ◌+ℤ◌, ◌*ℤ◌, wrap64, seconds, leb, ◌≡◌, refl, arith, String,
  Option, none, some, ◌∷◌, if◌then◌else◌, ◌<ℤ◌,
}
use yip_yap_foss.Reply.Dispatcher.{Handled, clamp_suppress_seconds}
use yip_yap_foss.Reply.Clamps.{clamps-Capped}
use yip_yap_foss.Replies.Model.{Db, Env, AlertSuppression, ReplyEventType}
use yip_yap_foss.Replies.Common.{
  accept, fail_write, write_audit, annotate, effective_alert_id, decoded,
}
use yip_yap_foss.Replies.Mutations.{
  SuppressedData, suppressed_checks, suppression, add_suppression, handle_suppressed,
}
use yip_yap_foss.Replies.Rules.{effective_alert_id-scoped}
use yip_yap_foss.Replies.Accepted.{guarded-Accepts, load_and_verify-Accepts}

seconds-eq : (n : ℕ) → n ≤ 9223372036 → seconds (pos n) ≡ pos (n * 1000000000)
unfolding seconds wrap64 ◌*ℤ◌
seconds-eq n h = ground arith

natural : (z : ℤ) → pos 0 <ℤ z → (k : ℕ) × (z ≡ pos k)
natural (pos k) h = (k, refl)
natural (negsuc k) h = ground (arith, h)

granted :
    (env : Env) (n : ℕ) (requested : ℤ)
    → env.config.max_suppress_seconds ≡ pos n
    → (k : ℕ) × (clamp_suppress_seconds env.config requested ≡ pos k)
      × (0 < k)
      × (k ≤ (if leb n 0 then 3600 else n))
granted env n requested limit =
    let ((some_time, capped, by_default, _), _, _) = clamps-Capped env.config requested in
    let (k, is) = natural (clamp_suppress_seconds env.config requested) some_time in
    (k, is, ground (arith, is, some_time), ground (arith, is, limit, capped, by_default))

annotate-suppressions :
    (env : Env) (i : String) (kind : ReplyEventType) (actor sub : Option String) (db : Db)
    → (annotate env i kind actor sub db).suppressions ≡ db.suppressions
unfolding annotate
annotate-suppressions env i kind actor sub db = ground arith

added_rows :
    (env : Env) (call : Handled) (i : String) (fields : SuppressedData) (db db' : Db)
    → add_suppression env call i fields db ≡ (none, db')
    → db'.suppressions ≡ suppression env call i fields ∷ db.suppressions
unfolding add_suppression accept fail_write write_audit annotate
added_rows env call i fields db db' e = ground (arith, e)

-- On the alert and the org of the call, and in force from `now` on for at most `n` seconds, or an hour if `n` is 0.
pub record IsBrief (call : Handled) (now n : ℕ) (r : AlertSuppression) : Type 0 where
  pub mine : (r.alert_id ≡ call.entry.alert_id) × (r.org_id ≡ call.entry.org_id)
  pub expiry : ℕ
  pub expires : r.expires_at ≡ pos expiry
  pub later : now < expiry
  pub capped : expiry ≤ now + (if leb n 0 then 3600 else n) * 1000000000

-- A suppression that is accepted adds one row, which is on the alert and the org of the entry, is in force at once, and
-- lasts no longer than the channel's cap of `n` seconds, or an hour if that is 0, whatever the reply asks for. The cap
-- must be within the range of a duration.
pub handle_suppressed-IsBrief :
    (env : Env) (call : Handled) (fields : SuppressedData) (n : ℕ) (db db' : Db)
    → env.config.max_suppress_seconds ≡ pos n
    → n ≤ 9223372036
    → handle_suppressed env call (some fields) db ≡ (none, db')
    → (r : AlertSuppression) × (db'.suppressions ≡ r ∷ db.suppressions) × IsBrief call env.now n r
unfolding handle_suppressed decoded suppression ◌+ℤ◌
handle_suppressed-IsBrief env call fields n db db' limit small e =
    let (passed, verified) = guarded-Accepts env call db db' (suppressed_checks call fields) _ e in
    let (_, _, stored) = load_and_verify-Accepts env call db db' _ _ verified in
    let here = effective_alert_id-scoped call.entry.alert_id fields.alert_id passed.1.0 in
    let (k, grants, some_time, capped) = granted env n fields.duration_seconds limit in
    (
      suppression env call (effective_alert_id call.entry.alert_id fields.alert_id) fields,
      added_rows env call _ fields db db' stored,
      record {
        mine = (here, refl);
        expiry = env.now + k * 1000000000;
        expires = ground (arith, grants, seconds-eq k (ground (arith, capped)));
        later = ground arith;
        capped = ground arith;
      },
    )
