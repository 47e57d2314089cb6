-- ===== src/Gateway/Config.antt =====
-- docker/images/gateway/config.go: the settings, from the environment and the command line, and the cookie-signing key.
-- Durations are nanoseconds; a negative number of minutes, seconds or attempts is left out.
pub mod Secret
mod Tests
use interview_labs.Prelude.{
  ℕ, ◌*◌, ◌^◌, Text, codes, Bool, true, false, Option, none, some, [], ◌∷◌, ◌≡◌, arith,
  if◌then◌else◌, not, is_empty, ◌&&◌, ◌||◌,
}
use interview_labs.Prelude.Outcome.{Outcome, ok, err, ◌>>=◌}
use interview_labs.Gateway.Config.Secret.{
  Secret as Key, resolve_secret, Files, Error, tls_pair, password_required, ide_upstream_url,
  term_upstream_url, no_landing_page,
}

pub record Config : Type 0 where
  pub addr : Text
  pub password : Text
  pub secret : Text
  pub secret_generated : Bool
  pub ttl : ℕ
  pub ide_upstream : Text
  pub term_upstream : Text
  pub secure_cookie : Bool
  pub login_burst : ℕ
  pub login_window : ℕ
  pub trust_proxy : Bool
  pub log_level : Text
  pub log_format : Text
  pub tls_cert : Text
  pub tls_key : Text
  pub landing_page : Text
  pub healthcheck : Bool

abbrev pub tls_enabled : Config → Bool
tls_enabled c = not (is_empty c.tls_cert) && not (is_empty c.tls_key)

-- env(k, def): a variable that is set to nothing counts as not set.
abbrev pub env : Text → Text → Text
env value def = if is_empty value then def else value

-- The flags as flag.FlagSet parsed them over the environment's defaults.
pub record RawConfig : Type 0 where
  pub addr : Text
  pub password : Text
  pub secret : Text
  pub secret_file : Text
  pub ttl_minutes : ℕ
  pub ide_upstream : Text
  pub term_upstream : Text
  pub secure_cookie : Bool
  pub login_burst : ℕ
  pub login_window_seconds : ℕ
  pub trust_proxy : Bool
  pub log_level : Text
  pub log_format : Text
  pub tls_cert : Text
  pub tls_key : Text
  pub landing_page : Text
  pub healthcheck : Bool

abbrev pub nanos : ℕ
nanos = 10 ^ 9

abbrev check : Bool → Error → Outcome Error (Unit {0})
check true e = ok tt
check false e = err e

abbrev same : Bool → Bool → Bool
same true b = b
same false b = not b

infixl 5 ◌>>◌
abbrev ◌>>◌ : {B : Type 0} → Outcome Error (Unit {0}) → Outcome Error B → Outcome Error B
m >> k = m >>= λ _. k

-- `url.Parse` of net/url and os.Open of the landing page are answered from outside.
module _ (parses opens : Text → Bool) where
  -- The probe's settings: only the address and the certificates are filled in.
  unfoldable pub probe_config : RawConfig → Config
  probe_config r = record {
    addr = r.addr;
    password = [];
    secret = [];
    secret_generated = false;
    ttl = 0;
    ide_upstream = [];
    term_upstream = [];
    secure_cookie = false;
    login_burst = 0;
    login_window = 0;
    trust_proxy = false;
    log_level = [];
    log_format = [];
    tls_cert = r.tls_cert;
    tls_key = r.tls_key;
    landing_page = [];
    healthcheck = true;
  }

  unfoldable pub serve_config : RawConfig → Key → Config
  serve_config r key = record {
    addr = r.addr;
    password = r.password;
    secret = key.secret;
    secret_generated = key.generated;
    ttl = r.ttl_minutes * (60 * nanos);
    ide_upstream = r.ide_upstream;
    term_upstream = r.term_upstream;
    secure_cookie = r.secure_cookie;
    login_burst = r.login_burst;
    login_window = r.login_window_seconds * nanos;
    trust_proxy = r.trust_proxy;
    log_level = r.log_level;
    log_format = r.log_format;
    tls_cert = r.tls_cert;
    tls_key = r.tls_key;
    landing_page = r.landing_page;
    healthcheck = false;
  }

  -- loadConfig, from the parsed flags on.
  unfoldable pub load_config : RawConfig → Files → Outcome Error (Config × Files)
  unfolding probe_config serve_config
  load_config r f = do
    check (same (is_empty r.tls_cert) (is_empty r.tls_key)) tls_pair
    if r.healthcheck then ok (probe_config r, f) else do
      check (not (is_empty r.password)) password_required
      check (parses r.ide_upstream) ide_upstream_url
      check (parses r.term_upstream) term_upstream_url
      check (is_empty r.landing_page || opens r.landing_page) no_landing_page
      (key, g) ← resolve_secret r.secret r.secret_file f
      ok (serve_config r key, g)

-- What the gateway can count on when it starts to serve.
pub record IsServable (parses opens : Text → Bool) (r : RawConfig) (c : Config) : Type 0 where
  pub password : c.password ≡ r.password
  pub has_password : is_empty c.password ≡ false
  pub tls : is_empty c.tls_cert ≡ is_empty c.tls_key
  pub ide : parses c.ide_upstream ≡ true
  pub term : parses c.term_upstream ≡ true
  pub landing : (is_empty c.landing_page || opens c.landing_page) ≡ true
  pub no_probe : c.healthcheck ≡ false

-- A gateway that starts to serve has a password, both halves of a certificate or none, two
-- upstream addresses that parse, and a landing page that opens if one is configured.
pub load_config-IsServable :
    (parses opens : Text → Bool) (r : RawConfig) (f g : Files) (c : Config)
    → r.healthcheck ≡ false
    → load_config parses opens r f ≡ ok (c, g)
    → IsServable parses opens r c
unfolding load_config
load_config-IsServable parses opens r f g c h e = ground arith
