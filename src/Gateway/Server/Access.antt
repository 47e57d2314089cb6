-- ===== src/Gateway/Server/Access.antt =====
-- Who gets through to the workspace.
use interview_labs.Prelude.{
  ℕ, ◌+◌, ◌/◌, ◌^◌, ◌<◌, Text, codes, true, false, Option, some, none, ◌∷◌, ◌++◌, ◌≡◌, refl, arith,
  text_eq, text_eq_iff, has_prefix, if◌then◌else◌,
}
use interview_labs.Prelude.Int.{ltb_ℤ}
use interview_labs.Gateway.Limiter.{Limiter, allow}
use interview_labs.Gateway.Config.{Config, nanos}
use interview_labs.Gateway.Token.Laws.{valid_token-sign_token}
use interview_labs.Gateway.Server.{
  Library, Request, Reply, ide, strip_prefix, Body, landing, respond, forward, Cookie, client_ip,
  login_cookie, check_password, rate_limited, login_submit, to_login, is_authorised, require_auth,
  root, serve_guarded, handle, unix,
}

abbrev ShowsLanding : Body → Type 0
ShowsLanding (landing fragment) = Unit
ShowsLanding _ = ⊥

-- What only a candidate who logged in may have: an upstream, or the landing page.
abbrev pub IsInside : Reply → Type 0
IsInside (forward u path) = Unit
IsInside (respond r) = ShowsLanding r.body

module _ (x : Library) (c : Config) where
  login_submit_outside :
      (l : Limiter) (r : Request) (now : ℕ) → ¬ ShowsLanding (login_submit x c l r now).1.body
  unfolding login_submit check_password rate_limited
  login_submit_outside l r now h = ground arith

  require_auth_inside :
      (r : Request) (now : ℕ) (next : Reply)
      → IsInside (require_auth x c r now next)
      → is_authorised x c r now ≡ true
  unfolding require_auth to_login
  require_auth_inside r now next h = ground arith

  serve_guarded_inside :
      (r : Request) (now : ℕ) → IsInside (serve_guarded x c r now) → is_authorised x c r now ≡ true
  unfolding serve_guarded
  serve_guarded_inside r now h = ground arith

-- A request reaches an upstream or the landing page only with a cookie that the gateway accepts at
-- that moment.
pub handle_inside :
    (x : Library) (c : Config) (l : Limiter) (r : Request) (now : ℕ)
    → IsInside (handle x c l r now).1
    → is_authorised x c r now ≡ true
unfolding handle
handle_inside x c l r now h =
    ground (arith, login_submit_outside x c l r now, serve_guarded_inside x c r now)

-- The facts about a path below /ide/ that the mux asks for.
ide_path :
    (x : Library) (path rest : Text)
    → path ≡ codes "/ide/" ++ rest
    → (has_prefix path (codes "/ide/") ≡ true)
      × (text_eq path (codes "/healthz") ≡ false)
      × (text_eq path (codes "/login") ≡ false)
      × (text_eq path (codes "/styles.css") ≡ false)
      × (strip_prefix x path (codes "/ide") ≡ b'/' ∷ rest)
unfolding has_prefix text_eq
ide_path x path rest e = rw e (refl, refl, refl, refl, refl)

-- With such a cookie every path below /ide/ goes to the workspace, whatever the method, with the
-- prefix taken off; without one the browser is sent to the login page.
pub handle_ide :
    (x : Library) (c : Config) (l : Limiter) (r : Request) (now : ℕ) (rest : Text)
    → r.path ≡ codes "/ide/" ++ rest
    → (handle x c l r now).1
      ≡ (if is_authorised x c r now then forward ide (b'/' ∷ rest) else respond (to_login x r))
unfolding handle serve_guarded require_auth
handle_ide x c l r now rest e = ground (arith, ide_path x r.path rest e)

-- What the one reply that sets a cookie says about the request.
pub record IsLogin (x : Library) (c : Config) (l : Limiter) (r : Request) (now : ℕ) (k : Cookie)
    : Type 0 where
  pub post : r.method ≡ codes "POST"
  pub path : r.path ≡ codes "/login"
  pub allowed : (allow l (client_ip x c.trust_proxy r) now).1 ≡ true
  pub password : r.form_password ≡ c.password
  pub cookie : k ≡ login_cookie x c now

abbrev pub cookie_of : Reply → Option Cookie
cookie_of (respond r) = r.set_cookie
cookie_of (forward u path) = none

module _ (x : Library) (c : Config) (l : Limiter) (r : Request) (now : ℕ) where
  no_cookie : cookie_of (serve_guarded x c r now) ≡ none
  unfolding serve_guarded require_auth to_login root
  no_cookie = ground arith

  -- A cookie is set only by a POST of the right password to /login that the limiter lets through.
  pub handle-IsLogin :
      (k : Cookie) → cookie_of (handle x c l r now).1 ≡ some k → IsLogin x c l r now k
  unfolding handle login_submit check_password rate_limited
  handle-IsLogin k h = ground (
    arith,
    no_cookie,
    text_eq_iff r.method (codes "POST"),
    text_eq_iff r.path (codes "/login"),
    text_eq_iff r.form_password c.password,
  )

  -- A browser that got a cookie from the gateway and sends it back is let in exactly until the
  -- cookie's time is over, on the clock of whole seconds.
  pub login_grants :
      (k : Cookie) (r' : Request) (later : ℕ)
      → (now + c.ttl) / nanos < 2 ^ 63
      → cookie_of (handle x c l r now).1 ≡ some k
      → r'.cookie ≡ some k.value
      → is_authorised x c r' later ≡ ltb_ℤ (unix later) (unix (now + c.ttl))
  unfolding is_authorised
  login_grants k r' later fits h e =
      rw (e, (handle-IsLogin k h).cookie)
        (unfold login_cookie in
          valid_token-sign_token x.mac c.secret (unix (now + c.ttl)) (unix later) fits)
