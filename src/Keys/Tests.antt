-- ===== src/Keys/Tests.antt =====
-- internal/auth/jwks on concrete tables.
use yip_yap_foss.Prelude.{true, ◌≡◌, refl, arith, String, none, some, [], ◌∷◌}
use mathlib.Core.List.{Mem}
use yip_yap_foss.Store.Time.{stored_time}
use yip_yap_foss.Keys.Store.{
  active, KeyRow, Envelope, find_key, place, create_key, save, row_to_key, rows_to_keys,
  list_by_status, set_status, update_status, is_prunable, delete_expired_before,
}
use yip_yap_foss.Keys.Manager.{
  Env, is_valid, generate, latest_from, latest_active, mint_key, mint, expire, prune_after, sweep,
  sweep_after, mint_if_due, rotate,
}
use yip_yap_foss.Keys.Serving.{list_public_jwks, decode_all, key_set, serve_http}
use yip_yap_foss.Keys.Rotation.{rotations, rotations_publish}
use yip_yap_foss.Keys.Sweeps.{Swept, Moves, rotate-Moves}
use yip_yap_foss.Keys.Liveness.{IsHealthy, rotate_succeeds}
use yip_yap_foss.Keys.Freshness.{HasFresh}

abbrev clear : Envelope
clear = record {
  marshal = λ s. some s;
  encrypt = λ s. some s;
  decrypt = λ s. some s;
  parse = λ s. some s;
}

abbrev env : Env
env = record {
  now = 700000000000000;
  new_kid = "new";
  keygen = λ _. some ("secret", "{new}");
  envelope = clear;
  decode_jwk = λ s. some s;
  accepts_key = λ _. true;
  list_ok = true;
  relist_ok = true;
  save_ok = true;
  retire_ok = true;
  expire_ok = λ _. true;
  prune_ok = true;
}

abbrev old : KeyRow
old = record {
  kid = "old";
  algorithm = "EdDSA";
  encrypted_private = "secret";
  public_jwk = "{old}";
  status = active;
  created_at = 0;
  activated_at = some 0;
  retired_at = none;
}

rotate-Moves_example : Swept 700000000000000 "old" old Moves (rotate env (old ∷ [])).1
unfolding find_key
rotate-Moves_example = rotate-Moves env "old" old (old ∷ []) (refl, tt) refl

both_published : serve_http env "GET" (rotate env (old ∷ [])).1 ≡ key_set ("{old}" ∷ "{new}" ∷ [])
unfolding rotate list_by_status rows_to_keys row_to_key latest_active latest_from mint_if_due mint
    generate is_valid mint_key save create_key place stored_time update_status set_status
    sweep_after sweep expire prune_after delete_expired_before is_prunable serve_http
    list_public_jwks decode_all
both_published = refl

rotations_publish_example :
    (jwk : String) × (some "{old}" ≡ some jwk) × Mem jwk ("{old}" ∷ "{new}" ∷ [])
unfolding rotations rotate list_by_status rows_to_keys row_to_key latest_active latest_from
    mint_if_due mint generate is_valid mint_key save create_key place stored_time update_status
    set_status sweep_after sweep expire prune_after delete_expired_before is_prunable
    list_public_jwks decode_all find_key
rotations_publish_example =
    rotations_publish 600000000000000 "old" old (env ∷ []) env (old ∷ []) ("{old}" ∷ "{new}" ∷ [])
      (refl, tt) refl refl ((ground arith, ground arith), tt) refl

healthy : IsHealthy env (old ∷ [])
healthy = record {
  lists = refl;
  relists = refl;
  saves = refl;
  retires = refl;
  expires = λ _. refl;
  prunes = refl;
  readable = (("secret", "secret", refl, refl), tt);
  key = "secret";
  jwk = "{new}";
  made = refl;
  der = "secret";
  ct = "secret";
  marshalled = refl;
  encrypted = refl;
  opens = ("secret", "secret", refl, refl);
  unused = refl;
}

rotate_succeeds_example :
    ((rotate env (old ∷ [])).0 ≡ none) × HasFresh 700000000000000 (rotate env (old ∷ [])).1
rotate_succeeds_example = rotate_succeeds env (old ∷ []) (refl, tt) healthy
