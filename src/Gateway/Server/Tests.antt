-- ===== src/Gateway/Server/Tests.antt =====
-- The gateway's routes at concrete requests.
use interview_labs.Prelude.{
  ◌+◌, ◌-◌, ◌*◌, ◌^◌, ◌≤◌, Text, codes, true, false, Option, none, some, List, [], ◌∷◌, ◌≡◌, refl,
  arith, text_eq, has_prefix, ltb, if◌then◌else◌,
}
use interview_labs.Prelude.Int.{ltb_ℤ, ◌+ℤ◌}
use interview_labs.Prelude.Assoc.{lookup, insert}
use interview_labs.Gateway.Limiter.{Limiter, new_limiter, allow, refill}
use interview_labs.Gateway.Config.{Config}
use interview_labs.Gateway.Token.Tests.{toy_mac}
use interview_labs.Gateway.Server.{
  Library, Request, Cookie, is_authorised, login_cookie, handle, client_ip, unix,
}
use interview_labs.Gateway.Server.Access.{
  IsInside, handle_inside, handle_ide, IsLogin, handle-IsLogin, cookie_of, login_grants,
}
use interview_labs.Gateway.Server.Guessing.{Moment, request, tick, guesses, guesses_bound}

abbrev keep_ascii : Text → Text
keep_ascii [] = []
keep_ascii (c ∷ s) = let rest = keep_ascii s in if ltb c 128 then c ∷ rest else rest

abbrev library : Library
library = record {
  mac = toy_mac;
  query_escape = keep_ascii;
  split_host_port = λ s. some (s, []);
  read_file = λ s. none;
  landing_default = [];
  location_of = λ p. p;
  slash_status = 301;
}

abbrev config : Config
config = record {
  addr = codes ":8080";
  password = codes "pw";
  secret = codes "s";
  secret_generated = false;
  ttl = 7200 * 10 ^ 9;
  ide_upstream = codes "http://vscode:8080";
  term_upstream = codes "http://vscode:7681";
  secure_cookie = false;
  login_burst = 5;
  login_window = 30 * 10 ^ 9;
  trust_proxy = true;
  log_level = codes "info";
  log_format = codes "text";
  tls_cert = [];
  tls_key = [];
  landing_page = [];
  healthcheck = false;
}

abbrev get : Text → Option Text → Request
get path cookie = record {
  method = codes "GET";
  path = path;
  cookie = cookie;
  query_next = [];
  form_next = [];
  form_password = [];
  forwarded_for = [];
  remote_addr = codes "10.0.0.9";
}

abbrev login : Request
login = record (get (codes "/login") none) {
  method = codes "POST";
  form_password = codes "pw";
  form_next = codes "//evil.example";
  forwarded_for = codes " 10.0.0.1 , 10.9.9.9";
}

abbrev limits : Limiter
limits = new_limiter 5 30

abbrev pass : Cookie
pass = login_cookie library config 0

leftmost_entry : client_ip library true login ≡ codes "10.0.0.1"
unfolding client_ip
leftmost_entry = refl

logs_in : cookie_of (handle library config limits login 0).1 ≡ some pass
unfolding handle text_eq has_prefix new_limiter allow lookup insert refill ◌+ℤ◌
logs_in = refl

handle-IsLogin_example : IsLogin library config limits login 0 pass
handle-IsLogin_example = handle-IsLogin library config limits login 0 pass logs_in

login_grants_example :
    is_authorised library config (get (codes "/ide/") (some pass.value)) 5
    ≡ ltb_ℤ (unix 5) (unix (0 + 7200 * 10 ^ 9))
login_grants_example =
    login_grants library config limits login 0 pass (get (codes "/ide/") (some pass.value)) 5
      (omega arith) logs_in refl

abbrev visit : Request
visit = get (codes "/ide/x") (some pass.value)

goes_through : IsInside (handle library config limits visit 5).1
goes_through =
    rw
      (
        handle_ide library config limits visit 5 (codes "x") refl,
        login_grants library config limits login 0 pass visit 5 (omega arith) logs_in refl,
      )
      tt

handle_inside_example : is_authorised library config visit 5 ≡ true
handle_inside_example = handle_inside library config limits visit 5 goes_through

abbrev moments : List Moment
moments = request login 1 ∷ request visit 2 ∷ tick 3 ∷ request login 4 ∷ []

guesses_bound_example :
    guesses library config (codes "10.0.0.1") (new_limiter 5 30) moments * 30 ≤ 5 * 30 + (9 - 1) * 5
guesses_bound_example =
    guesses_bound library config 5 30 (codes "10.0.0.1") 1 9 moments (omega arith)
