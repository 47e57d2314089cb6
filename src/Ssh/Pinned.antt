-- ===== src/Ssh/Pinned.antt =====
-- Every connection of a session is to the host that it first met.
use interview_labs.Prelude.{
  Text, Bool, true, false, Option, none, some, List, [], ◌∷◌, ◌≡◌, ◌⊎◌, inl, inr, refl, sym, arith,
  All,
}
use mathlib.Core.Path.{subst}
use interview_labs.Prelude.Outcome.{Outcome, ok, err}
use interview_labs.Ssh.{
  Verdict, KnownHosts, Attempt, DialError, pin, host_key_callback, judged, attempt, ended, dial,
  add_key, connections,
}

-- The file can be written in this try.
abbrev pub CanWrite : Attempt → Type 0
CanWrite Attempt.unreachable = Unit
CanWrite (Attempt.presents key w leaves logs_in) = w ≡ true

abbrev pub AllWrite : List Attempt → Type 0
AllWrite tries = All CanWrite tries

abbrev pub AreSame : List Text → Type 0
AreSame [] = Unit
AreSame (k ∷ ks) = All (λ j. j ≡ k) ks

AreSame-All : (k : Text) (ks : List Text) → All (λ j. j ≡ k) ks → AreSame ks
AreSame-All k [] h = tt
AreSame-All k (j ∷ ks) (e, h) = subst (λ i. All (λ j. j ≡ i) ks) (sym e) h

module _ (kh : KnownHosts) (host : Text) where
  -- A file that has the line of a key accepts no other key.
  abbrev pub IsStrict : Type 0
  IsStrict = (k j : Text) → kh.verify (pin kh host k) host j ≡ Verdict.accepted → j ≡ k

  -- The result of a try or of a dial is a connection to the host with this key, or none.
  abbrev IsTo : Text → Outcome DialError Text → Type 0
  IsTo k (ok j) = j ≡ k
  IsTo k (err e) = Unit

  module _ (strict : IsStrict) where
    -- One try at a host with the key `j`, where the file has the line of `k`.
    ended-pinned :
        (k j : Text) (v : Verdict) (logs_in : Bool) (rest : Outcome DialError Text × Option Text)
        → kh.verify (pin kh host k) host j ≡ v
        → IsTo k rest.0 × (rest.1 ≡ some (pin kh host k))
        → IsTo k (ended kh host (judged kh host v j logs_in) (some (pin kh host k)) rest).0
          × ((ended kh host (judged kh host v j logs_in) (some (pin kh host k)) rest).1
              ≡ some (pin kh host k))
    ended-pinned k j Verdict.accepted true rest e h = (strict k j e, refl)
    ended-pinned k j Verdict.accepted false rest e h = h
    ended-pinned k j Verdict.mismatch l rest e h = (tt, refl)
    ended-pinned k j Verdict.refused l rest e h = h

    dial-pinned :
        (k : Text) (tries : List Attempt)
        → IsTo k (dial kh host (some (pin kh host k)) tries).0
          × ((dial kh host (some (pin kh host k)) tries).1 ≡ some (pin kh host k))
    unfolding dial attempt host_key_callback
    dial-pinned k [] = (tt, refl)
    dial-pinned k (Attempt.unreachable ∷ tries) = dial-pinned k tries
    dial-pinned k (Attempt.presents j w l logs_in ∷ tries) =
        ended-pinned k j (kh.verify (pin kh host k) host j) logs_in _ refl (dial-pinned k tries)

    -- A dial that begins without a file: it pins no key and fails, or a key that it may connect to.
    IsFirst : Outcome DialError Text → Option Text → Type 0
    IsFirst r f =
        ((f ≡ none) × ((e : DialError) × (r ≡ err e)))
        ⊎ ((k : Text) × IsTo k r × (f ≡ some (pin kh host k)))

    dial-IsFirst :
        (tries : List Attempt)
        → AllWrite tries
        → IsFirst (dial kh host none tries).0 (dial kh host none tries).1
    unfolding dial attempt host_key_callback IsFirst
    dial-IsFirst [] h = inl (refl, (DialError.not_reachable, refl))
    dial-IsFirst (Attempt.unreachable ∷ tries) (w, h) = dial-IsFirst tries h
    dial-IsFirst (Attempt.presents j false l logs_in ∷ tries) (w, h) = ground (arith, w)
    dial-IsFirst (Attempt.presents j true l true ∷ tries) (w, h) = inr (j, refl, refl)
    dial-IsFirst (Attempt.presents j true l false ∷ tries) (w, h) =
        (let (t, f) = dial-pinned j tries in inr (j, t, f))

    add_key-IsTo :
        (k : Text) (r : Outcome DialError Text) (keys : List Text)
        → IsTo k r
        → All (λ j. j ≡ k) keys
        → All (λ j. j ≡ k) (add_key kh host r keys)
    add_key-IsTo k (ok j) keys e h = (e, h)
    add_key-IsTo k (err e) keys q h = h

    connections-pinned :
        (k : Text) (dials : List (List Attempt))
        → All (λ j. j ≡ k) (connections kh host (some (pin kh host k)) dials)
    unfolding connections
    connections-pinned k [] = tt
    connections-pinned k (tries ∷ dials) =
        let (t, f) = dial-pinned k tries in
        add_key-IsTo k (dial kh host (some (pin kh host k)) tries).0 _ t (
          subst (λ g. All (λ j. j ≡ k) (connections kh host g dials)) (sym f)
            (connections-pinned k dials))

    first-AreSame :
        (dials : List (List Attempt)) (r : Outcome DialError Text) (f : Option Text)
        → IsFirst r f
        → AreSame (connections kh host none dials)
        → AreSame (add_key kh host r (connections kh host f dials))
    unfolding IsFirst
    first-AreSame dials (ok j) f (inl (ef, (e, er))) h = ground (arith, er)
    first-AreSame dials (err x) f (inl (ef, (e, er))) h = rw ef h
    first-AreSame dials r f (inr (k, t, ef)) h =
        AreSame-All k _ (add_key-IsTo k r _ t (rw ef (connections-pinned k dials)))

    -- Where the known_hosts file of a session can be written, and where a file with the line of one key
    -- accepts no other, all connections that a session makes from its creation on are to hosts
    -- that present one and the same key, over any number of dials and tries.
    pub connections-AreSame :
        (dials : List (List Attempt))
        → All AllWrite dials
        → AreSame (connections kh host none dials)
    unfolding connections
    connections-AreSame [] h = tt
    connections-AreSame (tries ∷ dials) (w, h) =
        first-AreSame dials _ _ (dial-IsFirst tries w) (connections-AreSame dials h)
