-- ===== src/Gateway/Server/Guessing.antt =====
-- How fast passwords can be tried from one address.
use interview_labs.Prelude.{
  ℕ, suc, ◌+◌, ◌-◌, ◌*◌, ◌≤◌, Text, codes, Bool, Bool-cases, inl, inr, true, false, List, [], ◌∷◌,
  ◌≡◌, refl, arith, text_eq, text_eq_iff, if◌then◌else◌, ◌&&◌, ◌==◌,
}
use interview_labs.Gateway.Limiter.{Limiter, new_limiter, allow, sweep}
use interview_labs.Gateway.Limiter.Rate.{Event, attempt, clean, IsOrdered, admitted, admitted_bound}
use interview_labs.Gateway.Config.{Config}
use interview_labs.Gateway.Server.{
  Library, Request, Reply, respond, forward, client_ip, check_password, rate_limited, login_submit,
  handle,
}

-- What happens to the gateway: a request, or a tick of the ticker that main starts for the sweeper.
pub data Moment : Type 0 where
  request : Request → ℕ → Moment
  tick : ℕ → Moment

abbrev pub moment_time : Moment → ℕ
moment_time (request r t) = t
moment_time (tick t) = t

-- The times do not fall, from `t` on and up to `last`.
abbrev pub InOrder : ℕ → ℕ → List Moment → Type 0
InOrder t last [] = t ≤ last
InOrder t last (m ∷ ms) = (t ≤ moment_time m) × InOrder (moment_time m) last ms

-- A reply that tells whether the password was right.
abbrev pub tells : Reply → Bool
tells (respond r) = if r.status == 429 then false else true
tells (forward u p) = true

abbrev pub is_login : Request → Bool
is_login r = text_eq r.method (codes "POST") && text_eq r.path (codes "/login")

module _ (x : Library) (c : Config) where
  abbrev pub step : Limiter → Moment → Limiter
  step l (request r t) = (handle x c l r t).0
  step l (tick t) = sweep l t

  -- Whether client `k` learns at this moment if a password is right.
  abbrev pub is_guess : Text → Limiter → Moment → Bool
  is_guess k l (request r t) =
      is_login r && (text_eq (client_ip x c.trust_proxy r) k && tells (handle x c l r t).1)
  is_guess k l (tick t) = false

  unfoldable pub guesses : Text → Limiter → List Moment → ℕ
  guesses k l [] = 0
  guesses k l (m ∷ ms) =
      let rest = guesses k (step l m) ms in if is_guess k l m then suc rest else rest

  -- What the limiter sees of it.
  events_of : List Moment → List Event
  events_of [] = []
  events_of (request r t ∷ ms) =
      let rest = events_of ms in
      if is_login r then attempt (client_ip x c.trust_proxy r) t ∷ rest else rest
  events_of (tick t ∷ ms) = clean t ∷ events_of ms

  not_get :
      (m : Text)
      → text_eq m (codes "POST") ≡ true
      → (text_eq m (codes "GET") ≡ false) × (text_eq m (codes "HEAD") ≡ false)
  unfolding text_eq
  not_get m h = rw ((text_eq_iff m (codes "POST")).0 h) (refl, refl)

  -- A login goes to the limiter, and tells something exactly if the limiter lets it through.
  handle_login :
      (l : Limiter) (r : Request) (t : ℕ)
      → is_login r ≡ true
      → ((handle x c l r t).0 ≡ (allow l (client_ip x c.trust_proxy r) t).0)
        × (tells (handle x c l r t).1 ≡ (allow l (client_ip x c.trust_proxy r) t).1)
  unfolding handle login_submit check_password rate_limited
  handle_login l r t h = ground (arith, not_get r.method)

  handle_other : (l : Limiter) (r : Request) (t : ℕ) → is_login r ≡ false → (handle x c l r t).0 ≡ l
  unfolding handle
  handle_other l r t h = ground arith

  IsOrdered-later :
      (ms : List Moment) (t s last : ℕ)
      → t ≤ s
      → InOrder s last ms
      → IsOrdered t last (events_of ms)
  unfolding events_of
  IsOrdered-later [] t s last h o = omega arith
  IsOrdered-later (request r u ∷ ms) t s last h (h', o) = elim (Bool-cases (is_login r)) [
    | inl e ↦ rw e (omega arith, IsOrdered-later ms u u last (omega arith) o)
    | inr e ↦ rw e (IsOrdered-later ms t u last (omega arith) o)
  ]
  IsOrdered-later (tick u ∷ ms) t s last h (h', o) =
      (omega arith, IsOrdered-later ms u u last (omega arith) o)

  guesses-admitted :
      (k : Text) (ms : List Moment) (l : Limiter) → guesses k l ms ≡ admitted k l (events_of ms)
  unfolding guesses admitted events_of
  guesses-admitted k [] l = refl
  guesses-admitted k (request r t ∷ ms) l = elim (Bool-cases (is_login r)) [
    | inl e ↦
        rw (e, (handle_login l r t e).0, (handle_login l r t e).1)
          (rw (guesses-admitted k ms (allow l (client_ip x c.trust_proxy r) t).0) refl)
    | inr e ↦ rw (e, handle_other l r t e) (guesses-admitted k ms l)
  ]
  guesses-admitted k (tick t ∷ ms) l = guesses-admitted k ms (sweep l t)

-- Over any requests at all between `t` and `last`, from one client address or from many, and
-- however often the sweeper runs, one address learns of at most a burst of passwords, and of what
-- the elapsed time pays for, whether they are right. Times do not go back.
pub guesses_bound :
    (x : Library) (c : Config) (burst window : ℕ) (k : Text) (t last : ℕ) (ms : List Moment)
    → InOrder t last ms
    → guesses x c k (new_limiter burst window) ms * window ≤ burst * window + (last - t) * burst
guesses_bound x c burst window k t last ms o =
    rw (guesses-admitted x c k ms (new_limiter burst window)) (
      admitted_bound burst window k t last (events_of x c ms)
        (IsOrdered-later x c ms t t last (omega arith) o))
