-- ===== src/Session/Resolve.antt =====
-- internal/cli/ssh.go, resolveSession: which session a command is about.
-- Get joins the text of the operator to the path of the sessions. Where the text is one element of a
-- path it is the name of a directory there. Another text, such as ../archive/red-fox, is cleaned and
-- may lead anywhere: what is read there is a parameter.
use interview_labs.Prelude.{
  Text, codes, text_eq, Bool, true, false, ◌&&◌, not, ◌==◌, Option, none, some, List, [], ◌∷◌,
  is_empty, is_empty_iff, if◌then◌else◌, ◌≡◌, ◌⊎◌, inl, inr, refl, arith, Bool-cases,
}
use interview_labs.Prelude.Outcome.{Outcome, ok, err}
use interview_labs.Session.Store.{Store, Session, get, list}
use interview_labs.Session.Listed.{list-IsAmong, IsAmong, dir-get, get_again}

pub data ResolveError : Type 0 where
  not_found no_sessions several aborted : ResolveError

abbrev or_not_found : Option Session → Outcome ResolveError Session
or_not_found none = err ResolveError.not_found
or_not_found (some s) = ok s

unfoldable pub has_slash : Text → Bool
has_slash [] = false
has_slash (c ∷ s) = let rest = has_slash s in if c == b'/' then true else rest

-- One element of a path, which filepath.Join leaves as it is.
unfoldable pub is_element : Text → Bool
unfolding has_slash
is_element ref =
    not (is_empty ref)
    && (not (text_eq ref (codes ".")) && (not (text_eq ref (codes "..")) && not (has_slash ref)))

module _ (elsewhere : Text → Option Session) where
  -- Get, of a text that the operator gives.
  unfoldable pub get_text : Store → Text → Option Session
  get_text st ref = if is_element ref then get st ref else elsewhere ref

  -- huhPickSession, with the slug that the form returns, or none when it is left.
  unfoldable pub pick_session : Store → Option Text → Outcome ResolveError Session
  pick_session st none = err ResolveError.aborted
  pick_session st (some slug) = or_not_found (get_text st slug)

  abbrev pub among : Store → List Session → Bool → Option Text → Outcome ResolveError Session
  among st [] is_tty pick = err ResolveError.no_sessions
  among st (s ∷ []) is_tty pick = ok s
  among st (s ∷ t ∷ ss) is_tty pick =
      if is_tty then pick_session st pick else err ResolveError.several

  unfoldable pub resolve_session : Store → Text → Bool → Option Text → Outcome ResolveError Session
  resolve_session st ref is_tty pick =
      if is_empty ref then among st (list st) is_tty pick else or_not_found (get_text st ref)

  -- A text leads to a session: it is the name of one that is listed, or no name but a path, at which
  -- the session was read.
  abbrev pub IsAt : Store → Text → Session → Type 0
  IsAt st ref s =
      ((is_element ref ≡ true) × (s.dir ≡ ref) × IsAmong s (list st))
      ⊎ ((is_element ref ≡ false) × (elsewhere ref ≡ some s))

  -- Why a command is about the session: it was named, or no name was given and it is the only one that
  -- is listed, or several are, and it was picked on a terminal.
  abbrev pub IsChosen : Store → Text → Bool → Option Text → Session → Type 0
  IsChosen st ref is_tty pick s =
      ((is_empty ref ≡ false) × IsAt st ref s)
      ⊎ ((ref ≡ [])
          × ((list st ≡ s ∷ [])
              ⊎ ((is_tty ≡ true) × ((slug : Text) × (pick ≡ some slug) × IsAt st slug s))))

  or_not_found-ok : (o : Option Session) (s : Session) → or_not_found o ≡ ok s → o ≡ some s
  or_not_found-ok none s h = ground arith
  or_not_found-ok (some t) s h = ground arith

  get_text-IsAt : (st : Store) (ref : Text) (s : Session) → get_text st ref ≡ some s → IsAt st ref s
  unfolding get_text
  get_text-IsAt st ref s h = elim (Bool-cases (is_element ref)) [
    | inl e ↦
        (let g = rw (e, if◌then◌else◌) at h in
          inl (e, dir-get st ref s g, (list-IsAmong st s).1.1 (get_again st ref s g)))
    | inr e ↦ inr (e, rw (e, if◌then◌else◌) at h)
  ]

  among-ok :
      (st : Store) (l : List Session) (is_tty : Bool) (pick : Option Text) (s : Session)
      → among st l is_tty pick ≡ ok s
      → (l ≡ s ∷ []) ⊎ ((is_tty ≡ true) × (pick_session st pick ≡ ok s))
  among-ok st [] is_tty pick s h = ground arith
  among-ok st (t ∷ []) is_tty pick s h = ground arith
  among-ok st (t ∷ u ∷ ss) true pick s h = inr (refl, h)
  among-ok st (t ∷ u ∷ ss) false pick s h = ground arith

  pick_session-ok :
      (st : Store) (pick : Option Text) (s : Session)
      → pick_session st pick ≡ ok s
      → (slug : Text) × (pick ≡ some slug) × IsAt st slug s
  unfolding pick_session
  pick_session-ok st none s h = ground arith
  pick_session-ok st (some slug) s h =
      (slug, refl, get_text-IsAt st slug s (or_not_found-ok (get_text st slug) s h))

  pub resolve_session-IsChosen :
      (st : Store) (ref : Text) (is_tty : Bool) (pick : Option Text) (s : Session)
      → resolve_session st ref is_tty pick ≡ ok s
      → IsChosen st ref is_tty pick s
  unfolding resolve_session
  resolve_session-IsChosen st ref is_tty pick s h = elim (Bool-cases (is_empty ref)) [
    | inl e ↦ elim (among-ok st (list st) is_tty pick s (rw (e, if◌then◌else◌) at h)) [
      | inl q ↦ inr ((is_empty_iff ref).0 e, inl q)
      | inr (t, p) ↦ inr ((is_empty_iff ref).0 e, inr (t, pick_session-ok st pick s p))
    ]
    | inr e ↦ inl (
      e,
      get_text-IsAt st ref s (or_not_found-ok (get_text st ref) s (rw (e, if◌then◌else◌) at h)),
    )
  ]
