-- ===== src/Gateway/Config/Tests.antt =====
-- Starting the gateway twice.
use interview_labs.Prelude.{Text, codes, Bool, true, false, [], ◌∷◌, ◌≡◌, refl}
use interview_labs.Prelude.Outcome.{ok}
use interview_labs.Gateway.Config.Secret.{
  Secret, Files, not_exist, found, resolve_secret, secret_persists,
}
use interview_labs.Gateway.Config.{
  Config, RawConfig, load_config, serve_config, IsServable, load_config-IsServable,
}

abbrev path : Text
path = codes "/data/secret"

abbrev before : Files
before = record { secret_file = not_exist; writable = true; random = ok (7 ∷ 8 ∷ []) }

abbrev after : Files
after = record before { secret_file = found (7 ∷ 8 ∷ []) }

abbrev fresh : Secret
fresh = record { secret = 7 ∷ 8 ∷ []; generated = true }

first_start : resolve_secret [] path before ≡ ok (fresh, after)
unfolding resolve_secret
first_start = refl

secret_persists_example :
    (after.secret_file ≡ found (7 ∷ 8 ∷ []))
    × (resolve_secret [] path after ≡ ok (record { secret = 7 ∷ 8 ∷ []; generated = false }, after))
secret_persists_example = secret_persists path before after fresh (λ e. cc) (λ e. cc) first_start

abbrev raw : RawConfig
raw = record {
  addr = codes ":8080";
  password = codes "pw";
  secret = codes "s";
  secret_file = [];
  ttl_minutes = 120;
  ide_upstream = codes "http://vscode:8080";
  term_upstream = codes "http://vscode:7681";
  secure_cookie = false;
  login_burst = 5;
  login_window_seconds = 30;
  trust_proxy = false;
  log_level = codes "info";
  log_format = codes "text";
  tls_cert = [];
  tls_key = [];
  landing_page = [];
  healthcheck = false;
}

abbrev any_text : Text → Bool
any_text s = true

abbrev started : Config
started = serve_config any_text any_text raw (record { secret = codes "s"; generated = false })

starts : load_config any_text any_text raw before ≡ ok (started, before)
unfolding load_config resolve_secret
starts = refl

load_config-IsServable_example : IsServable any_text any_text raw started
load_config-IsServable_example =
    load_config-IsServable any_text any_text raw before before started refl starts
