-- ===== src/Gateway/Server/Redirects.antt =====
-- Where the gateway sends a browser.
use interview_labs.Prelude.{
  Text, codes, Bool, ◌⊎◌, inl, inr, true, false, not, ◌||◌, ◌&&◌, ◌==◌, ltb, is_empty,
  if◌then◌else◌, Option, some, none, [], ◌∷◌, ◌++◌, ◌≡◌, ◌≢◌, refl, arith, text_eq, has_prefix,
}
use interview_labs.Gateway.Limiter.{Limiter}
use interview_labs.Gateway.Config.{Config}
use interview_labs.Gateway.Server.{Reply, respond, forward, safe_next}

-- A path on this host: it begins with one slash, so a browser takes it for no other host's name.
abbrev pub IsLocal : Text → Type 0
IsLocal [] = ⊥
IsLocal (c ∷ []) = c ≡ b'/'
IsLocal (c ∷ d ∷ s) = (c ≡ b'/') × (d ≢ b'/') × (d ≢ b'\\')

-- Whatever `next` is, what is made of it is a path on this host.
pub safe_next-IsLocal : (next : Text) → IsLocal (safe_next next)
unfolding safe_next has_prefix
safe_next-IsLocal [] = refl
safe_next-IsLocal (c ∷ []) = ground arith
safe_next-IsLocal (c ∷ d ∷ s) = ground arith

not_local : (next : Text) → ¬ IsLocal next → safe_next next ≡ codes "/"
unfolding safe_next has_prefix
not_local [] h = refl
not_local (c ∷ []) h = ground arith
not_local (c ∷ d ∷ s) h = ground arith

local_kept : (next : Text) → IsLocal next → safe_next next ≡ next
unfolding safe_next has_prefix
local_kept [] h = elim h [ ]
local_kept (c ∷ []) h = ground arith
local_kept (c ∷ d ∷ s) h = ground arith

IsLocal-or_not : (next : Text) → IsLocal next ⊎ ¬ IsLocal next
IsLocal-or_not [] = inr (λ h. h)
IsLocal-or_not (c ∷ []) = ground arith
IsLocal-or_not (c ∷ d ∷ s) = ground arith

-- The target after a login begins with exactly one slash and no backslash behind it. A next that has
-- this form is followed as it is; any other leads to the landing page.
pub safe_next_lem :
    (next : Text)
    → IsLocal (safe_next next)
      × ((IsLocal next × (safe_next next ≡ next))
          ⊎ ((¬ IsLocal next) × (safe_next next ≡ codes "/")))
safe_next_lem next = (
  safe_next-IsLocal next,
  elim (IsLocal-or_not next) [
    | inl h ↦ inl (h, local_kept next h)
    | inr h ↦ inr (h, not_local next h)
  ],
)

-- An element of a path that cleaning removes.
abbrev pub is_dots : Text → Bool
is_dots el = text_eq el (codes ".") || text_eq el (codes "..")

-- The rest of a path, behind what was read of an element, has no empty element but the last, and none
-- of dots; the query is not looked at.
unfoldable pub is_clean_from : Text → Text → Bool
is_clean_from el [] = not (is_dots el)
is_clean_from el (c ∷ s) =
    let rest = is_clean_from (if c == b'/' then [] else el ++ (c ∷ [])) s in
    if c == b'?'
    then not (is_dots el)
    else if c == b'/' && (is_empty el || is_dots el)
    then false
    else rest

abbrev pub is_clean : Text → Bool
is_clean [] = false
is_clean (c ∷ s) = c == b'/' && is_clean_from [] s

unfoldable pub is_ascii : Text → Bool
is_ascii [] = true
is_ascii (c ∷ s) = ltb c 128 && is_ascii s

-- A URL that is a clean path, perhaps with a query, in ASCII.
abbrev pub is_plain : Text → Bool
is_plain p = is_clean p && is_ascii p

-- The location of a reply, if it has one, is a path on this host.
abbrev pub Stays : Option Text → Type 0
Stays none = Unit
Stays (some to) = IsLocal to

abbrev pub ReplyStays : Reply → Type 0
ReplyStays (respond r) = Stays r.location
ReplyStays (forward u p) = Unit
