-- ===== src/Destroy/Revoked.antt =====
-- A launch and the destroy that follows it, which reads the session from disk.
use interview_labs.Prelude.{◌≡◌, refl, ap, Text, true, List, [], ◌∷◌, All, inl, inr, ◌⊎◌, ◌∙◌, sym}
use interview_labs.Session.Metadata.{Metadata, migrate}
use interview_labs.Pipeline.{Event, State, World, Result, ok, err}
use interview_labs.Pipeline.Triples.{Post}
use interview_labs.Launch.{launch}
use interview_labs.Launch.Phases.{Inputs}
use interview_labs.Launch.Mints.{no_mint, minted_keys}
use interview_labs.Launch.Recorded.{launch-IsRecorded}
use interview_labs.Launch.Saved.{
  IsSaved, NotArchived, last_written, launch-IsSaved, launch-NotArchived,
}
use interview_labs.Destroy.{run_destroy}
use interview_labs.Destroy.Order.{
  has_done, is_archive, IsRevoked, IsArchived, IsStopped, is_destroy, run_destroy-Post,
}
use mathlib.Core.Path.{subst}
use native.Mathlib.Omega.{arith}

-- A later process reads the session (session.Get).
unfoldable pub reload : State → State
reload s = record s { meta = migrate s.saved }

module _ (w : World) where
  reload-hash : (s : State) → (reload s).meta.ai_key_hash ≡ s.saved.ai_key_hash
  unfolding reload migrate
  reload-hash s = refl

  reload-trace : (s : State) → (reload s).trace ≡ s.trace
  unfolding reload
  reload-trace s = refl

  archived :
      (h : Text) (r : Result Unit) (s : State)
      → r ≡ ok tt
      → Post (IsArchived w h is_destroy) (IsStopped w h is_destroy) r s
      → IsRevoked h s.trace
  archived h (ok a) s e p = p.0.1
  archived h (err x) s e p = ground arith

  destroyed :
      (h : Text) (s : State)
      → s.meta.ai_key_hash ≡ h
      → NotArchived s
      → (run_destroy w s).0 ≡ ok tt
      → IsRevoked h (run_destroy w s).1.trace
  destroyed h s e f r = archived h _ _ r (run_destroy-Post w h s e f)

  each-IsRevoked :
      (ks : List Text) (h : Text) (t : List Event)
      → (ks ≡ []) ⊎ (ks ≡ h ∷ [])
      → IsRevoked h t
      → All (λ k. IsRevoked k t) ks
  each-IsRevoked ks h t (inl e) r = subst (All (λ k. IsRevoked k t)) (sym e) tt
  each-IsRevoked ks h t (inr e) r = subst (All (λ k. IsRevoked k t)) (sym e) (r, tt)

module _ (w w' : World) where
  abbrev launched : Inputs → State → State
  launched i s = (launch w i s).1

  -- A launch in the cloud starts from a session that is saved and not archived, with no mint tried, and
  -- its last write of the session succeeds, whether it returns or fails. Then a destroy that reads the
  -- session from disk and returns has revoked every key that was minted, unless its hash is empty.
  pub minted_keys-IsRevoked :
      (i : Inputs) (s : State)
      → no_mint s.trace ≡ true
      → NotArchived s
      → IsSaved s
      → last_written (launch w i s).1.trace ≡ true
      → (run_destroy w' (reload (launch w i s).1)).0 ≡ ok tt
      → All
          (λ k. IsRevoked k (run_destroy w' (reload (launch w i s).1)).1.trace)
          (minted_keys (launch w i s).1.trace)
  minted_keys-IsRevoked i s h f k l r =
      each-IsRevoked w' (minted_keys (launched i s).trace) (launched i s).meta.ai_key_hash
        (run_destroy w' (reload (launched i s))).1.trace (launch-IsRecorded w i s h).0
        (destroyed w' (launched i s).meta.ai_key_hash (reload (launched i s))
          (reload-hash w' (launched i s)
            ∙ (ap (λ (m : Metadata). m.ai_key_hash) (launch-IsSaved w i s k l)))
          (ap (has_done is_archive) (reload-trace w' (launched i s)) ∙ launch-NotArchived w i s f)
          r)
