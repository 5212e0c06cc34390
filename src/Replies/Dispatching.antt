-- ===== src/Replies/Dispatching.antt =====
-- internal/cloudevents/reply/dispatcher.go with the handlers of internal/cloudevents/reply/handlers: a reply from its
-- arrival on a channel to the tables.
use yip_yap_foss.Prelude.{
  Bool, true, false, ◌≡◌, ◌≢◌, ◌∙◌, ap, arith, inl, inr, String, is_blank, Option, none, some, List,
  [], ◌∷◌,
}
use text.Mathlib.TextEquality.{eq_iff}
use yip_yap_foss.Domain.Alert.{Alert}
use yip_yap_foss.Store.Alerts.{get_by_id}
use yip_yap_foss.Reply.Registry.{Event}
use yip_yap_foss.Reply.Dispatcher.{
  DispatcherConfig, Handled, World, Env as DispatcherEnv, Outcome, dispatch_for_channel,
}
use yip_yap_foss.Reply.Authority.{dispatch_core-IsAnswered}
use yip_yap_foss.Replies.Model.{Db, Env, Fault}
use yip_yap_foss.Replies.Handling.{Decoders, handle_reply}
use yip_yap_foss.Replies.Repairs.{HasKeys}
use yip_yap_foss.Replies.Isolation.{handle_reply-keeps}

abbrev succeeded : Option Fault → Bool
succeeded none = true
succeeded (some _) = false

-- The tables after the call of the handler, if there was one.
abbrev pub called : Env → Decoders → DispatcherConfig → List Handled → Db → Db
called env d cfg [] db = db
called env d cfg (call ∷ _) db = (handle_reply (record env { config = cfg }) d call db).1

-- `DispatchForChannel` with the registered handlers; the log of calls starts empty.
unfoldable pub dispatch_reply :
    DispatcherEnv
    → Env
    → Decoders
    → Event
    → DispatcherConfig
    → String
    → String
    → String
    → World
    → Db
    → Outcome × Db
unfolding dispatch_for_channel
dispatch_reply dispatcher env d ev cfg expected_org expected_channel sub w db =
    let with_handlers : DispatcherEnv = record dispatcher {
      handle = λ c call. succeeded (handle_reply (record env { config = c }) d call db).0;
    } in
    let o =
      dispatch_for_channel with_handlers ev cfg expected_org expected_channel sub
        (record w { handled = [] }) in
    (o, called env d cfg o.2.handled db)

not_blank : (s : String) → is_blank s ≡ false → s ≢ ""
not_blank s named e = ground (arith, eq_iff s "")

-- A reply that arrives on a channel of an org with an identifier, whatever it is, one that was handled before included,
-- leaves every alert of another org as it is, over a table of remediations with distinct keys.
pub dispatch_reply_isolates :
    (dispatcher : DispatcherEnv) (env : Env) (d : Decoders) (ev : Event) (cfg : DispatcherConfig)
    (org channel sub : String) (w : World) (db : Db) (i : String) (a : Alert)
    → is_blank org ≡ false
    → HasKeys db.remediations
    → get_by_id i db.alerts ≡ some a
    → a.org_id ≢ org
    → get_by_id i (dispatch_reply dispatcher env d ev cfg org channel sub w db).1.alerts ≡ some a
unfolding dispatch_reply
dispatch_reply_isolates dispatcher env d ev cfg org channel sub w db i a named keys found alien =
    elim (dispatch_core-IsAnswered with_handlers ev cfg sub org channel start) [
      | inl (off, _) ↦ ap (λ calls. get_by_id i (called env d cfg calls db).alerts) off ∙ found
      | inr (entry, ran, _, _, cleared) ↦
          let mine : entry.org_id ≡ org = elim cleared.org [
            | inl blank ↦ absurd (not_blank org named blank)
            | inr same ↦ same
          ] in
          ap (λ calls. get_by_id i (called env d cfg calls db).alerts) ran
          ∙ handle_reply-keeps (record env { config = cfg }) d
              (record { event = ev; entry = entry; sub = sub }) db (rw mine named) keys i a found
              (λ same. alien (same ∙ mine))
    ]
  where
    with_handlers : DispatcherEnv
    with_handlers = record dispatcher {
      handle = λ c call. succeeded (handle_reply (record env { config = c }) d call db).0;
    }

    start : World
    start = record w { handled = [] }
