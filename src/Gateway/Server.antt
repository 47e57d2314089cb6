-- ===== src/Gateway/Server.antt =====
-- docker/images/gateway/server.go and proxy.go: the routes, the login, and the cookie that guards the two upstreams.
-- A reply is a value: either what the handler writes, or that the request goes on to an upstream.
-- The pages' HTML, the log and the copying of a proxied request are not modelled. What http.Redirect
-- makes of the URL that a handler gives it, whose path it cleans, is a parameter; the URL of the mux's
-- own redirect from /ide to /ide/ is given without the query. A login reads the clock once for the limiter and once for the cookie: here both are the same moment.
pub mod Redirects
pub mod Access
pub mod Guessing
mod Tests
use interview_labs.Prelude.{
  ℕ, ◌+◌, ◌/◌, Text, codes, Bool, true, false, Option, none, some, List, [], ◌∷◌, ◌++◌, text_eq,
  has_prefix, ◌==◌, ◌||◌, ◌&&◌, if◌then◌else◌, is_empty, not,
}
use interview_labs.Prelude.Int.{ℤ, pos}
use interview_labs.Gateway.Limiter.{Limiter, allow}
use interview_labs.Gateway.Token.{Mac, sign_token, valid_token}
use interview_labs.Decimal.{format_int}
use interview_labs.Gateway.Config.{Config, nanos}

-- What the handlers call and this repository does not hold.
pub record Library : Type 0 where
  pub mac : Mac
  -- url.QueryEscape, net.SplitHostPort, and the files that a landing page may be read from.
  pub query_escape : Text → Text
  pub split_host_port : Text → Option (Text × Text)
  pub read_file : Text → Option Text
  pub landing_default : Text
  -- The header Location that http.Redirect writes for a URL.
  pub location_of : Text → Text
  -- The status of net/http's own redirect from /ide to /ide/.
  pub slash_status : ℕ

pub record Request : Type 0 where
  pub method : Text
  -- URL.Path as ServeMux routes it: already cleaned.
  pub path : Text
  pub cookie : Option Text
  pub query_next : Text
  pub form_next : Text
  pub form_password : Text
  pub forwarded_for : Text
  pub remote_addr : Text

pub data Upstream : Type 0 where
  ide term : Upstream

pub data Body : Type 0 where
  none_body healthy styles too_many : Body
  login_page : Text → Text → Body
  landing : Text → Body

pub record Cookie : Type 0 where
  pub value : Text
  pub secure : Bool
  pub max_age : ℕ

pub record Response : Type 0 where
  pub status : ℕ
  pub location : Option Text
  pub set_cookie : Option Cookie
  pub retry_after : Option Text
  pub body : Body

pub data Reply : Type 0 where
  respond : Response → Reply
  forward : Upstream → Text → Reply

-- w.Write with no header set.
abbrev pub page : ℕ → Body → Response
page status body = record {
  status = status;
  location = none;
  set_cookie = none;
  retry_after = none;
  body = body;
}

-- http.Redirect
abbrev pub redirect : Library → ℕ → Text → Response
redirect x status to = record (page status none_body) { location = some (x.location_of to) }

-- time.Time.Unix
abbrev pub unix : ℕ → ℤ
unix t = pos (t / nanos)

-- Only a path on this host is followed after a login.
unfoldable pub safe_next : Text → Text
safe_next next =
    if is_empty next || not (has_prefix next (codes "/"))
    then codes "/"
    else if has_prefix next (codes "//") || has_prefix next (codes "/\\")
    then codes "/"
    else next

abbrev is_space : ℕ → Bool
is_space c = c == 32 || (c == 9 || (c == 10 || (c == 11 || (c == 12 || c == 13))))

-- strings.TrimSpace, on ASCII.
unfoldable pub trim_left : Text → Text
trim_left [] = []
trim_left (c ∷ s) = let rest = trim_left s in if is_space c then rest else c ∷ s

unfoldable pub trim_right : Text → Text
trim_right [] = []
trim_right (c ∷ s) = let rest = trim_right s in if is_space c && is_empty rest then [] else c ∷ rest

-- strings.Split(s, ",")[0]
unfoldable pub first_entry : Text → Text
first_entry [] = []
first_entry (c ∷ s) = let rest = first_entry s in if c == b',' then [] else c ∷ rest

abbrev host_or : Text → Option (Text × Text) → Text
host_or addr none = addr
host_or addr (some (host, port)) = host

module _ (x : Library) where
  unfoldable pub client_ip : Bool → Request → Text
  unfolding trim_left trim_right first_entry
  client_ip trust_proxy r =
      if trust_proxy && not (is_empty r.forwarded_for)
      then trim_left (trim_right (first_entry r.forwarded_for))
      else host_or r.remote_addr (x.split_host_port r.remote_addr)

  -- The cookie that a login at `now` sets.
  unfoldable pub login_cookie : Config → ℕ → Cookie
  login_cookie c now = record {
    value = sign_token x.mac c.secret (unix (now + c.ttl));
    secure = c.secure_cookie;
    max_age = c.ttl / nanos;
  }

  -- The part of loginSubmit behind the limiter.
  unfoldable pub check_password : Config → Request → ℕ → Response
  unfolding login_cookie
  check_password c r now =
      let next = safe_next r.form_next in
      if text_eq r.form_password c.password
      then record (redirect x 302 next) { set_cookie = some (login_cookie c now) }
      else page 401 (login_page (codes "Incorrect password.") next)

  unfoldable pub rate_limited : Config → Response
  rate_limited c = record (page 429 too_many) {
    retry_after = some (format_int (pos (c.login_window / nanos)));
  }

  unfoldable pub login_submit : Config → Limiter → Request → ℕ → Limiter × Response
  unfolding check_password rate_limited client_ip
  login_submit c l r now =
      let (l', allowed) = allow l (client_ip c.trust_proxy r) now in
      (l', if allowed then check_password c r now else rate_limited c)

  unfoldable pub is_authorised : Config → Request → ℕ → Bool
  is_authorised c r now = elim r.cookie [
    | none ↦ false
    | some value ↦ valid_token x.mac c.secret value (unix now)
  ]

  unfoldable pub to_login : Request → Response
  to_login r = redirect x 302 (codes "/login?next=" ++ x.query_escape r.path)

  unfoldable pub require_auth : Config → Request → ℕ → Reply → Reply
  unfolding is_authorised to_login
  require_auth c r now next = if is_authorised c r now then next else respond (to_login r)

  abbrev or_default : Option Text → Text
  or_default none = x.landing_default
  or_default (some fragment) = fragment

  unfoldable pub root : Config → Request → Response
  root c r =
      if not (text_eq r.path (codes "/"))
      then redirect x 302 (codes "/ide/")
      else if is_empty c.landing_page
      then page 200 (landing x.landing_default)
      else page 200 (landing (or_default (x.read_file c.landing_page)))

  -- What http.StripPrefix leaves of the path.
  abbrev strip_prefix : Text → Text → Text
  strip_prefix s [] = s
  strip_prefix [] (p ∷ ps) = []
  strip_prefix (c ∷ s) (p ∷ ps) = strip_prefix s ps

  abbrev is_get : Request → Bool
  is_get r = text_eq r.method (codes "GET") || text_eq r.method (codes "HEAD")

  -- The patterns of the mux, the most specific first: a pattern with a method or a longer path
  -- wins, and / takes what is left.
  unfoldable pub serve_guarded : Config → Request → ℕ → Reply
  unfolding require_auth root
  serve_guarded c r now =
      if has_prefix r.path (codes "/ide/")
      then require_auth c r now (forward ide (strip_prefix r.path (codes "/ide")))
      else if has_prefix r.path (codes "/term/")
      then require_auth c r now (forward term (strip_prefix r.path (codes "/term")))
      else if text_eq r.path (codes "/ide") || text_eq r.path (codes "/term")
      then respond (redirect x x.slash_status (r.path ++ codes "/"))
      else require_auth c r now (respond (root c r))

  unfoldable pub handle : Config → Limiter → Request → ℕ → Limiter × Reply
  unfolding serve_guarded login_submit
  handle c l r now =
      if is_get r && text_eq r.path (codes "/healthz")
      then (l, respond (page 200 healthy))
      else if is_get r && text_eq r.path (codes "/login")
      then (l, respond (page 200 (login_page [] (safe_next r.query_next))))
      else if text_eq r.method (codes "POST") && text_eq r.path (codes "/login")
      then (let (l', response) = login_submit c l r now in (l', respond response))
      else if is_get r && text_eq r.path (codes "/styles.css")
      then (l, respond (page 200 styles))
      else (l, serve_guarded c r now)
