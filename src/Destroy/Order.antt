-- ===== src/Destroy/Order.antt =====
-- In what order a destroy works.
use interview_labs.Prelude.{
  Text, codes, text_eq, text_eq_iff, Bool, true, false, ◌&&◌, ◌||◌, List, [], ◌∷◌, ◌≡◌, refl, ◌⊎◌,
  inl, inr, is_empty, is_empty_iff,
}
use interview_labs.Session.Metadata.{Status, role_of}
use interview_labs.Pipeline.{
  event, Op, Event, State, World, Failure, Act, Nothing, perform, attempt, catch, logged, ◌>>◌,
}
use interview_labs.Pipeline.Triples.{
  Triple, Keeps, Post, Triple-bind, Triple-if, Triple-weaken, Triple-catch, Triple-attempt,
  Triple-gets, Triple-raise, Triple-pure, Triple-perform, Triple-write, Triple-read,
}
use interview_labs.Providers.{ai_by_name, is_some}
use interview_labs.Launch.Phases.{set_status}
use interview_labs.Destroy.{
  revoke_ai_key, fail_destroy, tear_down, local_tear_down, archive, run_destroy, run_local_destroy,
}
use native.Mathlib.Omega.{arith}

abbrev pub is_archive : Op → Bool
is_archive (Op.archive slug) = true
is_archive _ = false

abbrev pub is_remove : Op → Bool
is_remove (Op.remove_session slug) = true
is_remove _ = false

abbrev pub is_destroy : Op → Bool
is_destroy Op.tf_destroy = true
is_destroy _ = false

abbrev pub is_down : Op → Bool
is_down Op.compose_down = true
is_down _ = false

abbrev pub is_revoke : Text → Op → Bool
is_revoke h (Op.revoke hash) = text_eq h hash
is_revoke h _ = false

-- Whether an operation of this sort succeeded.
abbrev pub has_done : (Op → Bool) → List Event → Bool
has_done f [] = false
has_done f (e ∷ t) = e.done && f e.op || has_done f t

-- The key with this hash, if there is one, was revoked.
abbrev pub IsRevoked : Text → List Event → Type 0
IsRevoked h t = (h ≡ []) ⊎ (has_done (is_revoke h) t ≡ true)

IsRevoked-step : (h : Text) (e : Event) (t : List Event) → IsRevoked h t → IsRevoked h (e ∷ t)
IsRevoked-step h e t (inl r) = inl r
IsRevoked-step h e t (inr r) = inr (ground arith)

no_key : (h k : Text) → k ≡ h → is_empty k ≡ true → h ≡ []
no_key h k q e = ground (arith, is_empty_iff k)

revoked : (h k : Text) (t : Bool) → k ≡ h → text_eq h k || t ≡ true
revoked h k t q = ground (arith, text_eq_iff h k)

module _ (w : World) (h : Text) (gone : Op → Bool) where
  -- The session's key is `h`, and its metadata was not moved to the archive.
  abbrev pub Kept : State → Type 0
  Kept s = (s.meta.ai_key_hash ≡ h) × (has_done is_archive s.trace ≡ false)

  abbrev Gone : State → Type 0
  Gone s = Kept s × (has_done gone s.trace ≡ true)

  abbrev TornDown : State → Type 0
  TornDown s = Gone s × IsRevoked h s.trace

  -- The session's metadata is in the archive, its machine is gone and its key is revoked.
  abbrev pub IsMoved : State → Type 0
  IsMoved s =
      (has_done gone s.trace ≡ true) × IsRevoked h s.trace × (has_done is_archive s.trace ≡ true)

  -- Moreover nothing is left of the session's directory.
  abbrev pub IsArchived : State → Type 0
  IsArchived s = IsMoved s × (has_done is_remove s.trace ≡ true)

  -- Where a destroy fails: before the metadata is moved, or when all is done but for the logs and the
  -- rest of the session's directory.
  abbrev pub IsStopped : State → Type 0
  IsStopped s = Kept s ⊎ IsMoved s

  Kept-performed : (op : Op) → is_archive op ≡ false → Keeps Kept (perform w op)
  Kept-performed op e = Triple-perform w op (λ s k. ground arith) (λ s k. ground arith)

  Gone-performed :
      (op : Op) → is_archive op ≡ false → gone op ≡ true → Triple Kept Gone Kept (perform w op)
  Gone-performed op e g = Triple-perform w op (λ s k. ground arith) (λ s k. ground arith)

  Kept-set_status : (st : Status) → Keeps Kept (set_status w st)
  unfolding set_status
  Kept-set_status st = Triple-write w _ (λ s k. k) (λ s k. k)

  Kept-fail_destroy : (e : Failure) → Triple {A = Nothing} Kept TornDown Kept (fail_destroy w e)
  unfolding fail_destroy
  Kept-fail_destroy e =
      Triple-bind _ _ (Triple-attempt _ (Kept-set_status Status.failed_destroy))
        (λ _. Triple-raise _ (λ s k. k))

  Triple-revoke :
      (k : Text) → Triple (λ s. Gone s × (k ≡ h)) TornDown Kept (perform w (Op.revoke k))
  Triple-revoke k =
      Triple-perform w (Op.revoke k) (λ s q. q.0.0)
        (λ s q. (ground arith, inr (revoked h k (has_done (is_revoke h) s.trace) q.1)))

  Triple-revoke_ai_key : Triple Gone TornDown Kept (revoke_ai_key w)
  unfolding revoke_ai_key
  Triple-revoke_ai_key =
      Triple-read _ _ (λ m s. Gone s × (m.ai_key_hash ≡ h)) (λ s k. (k, k.0.0))
        (λ m.
          Triple-if (is_empty m.ai_key_hash) _ _
            (λ e. Triple-pure tt (λ s k. (k.0, inl (no_key h m.ai_key_hash k.1 e))))
            (λ _.
              Triple-if (is_some (ai_by_name (role_of m (codes "ai")))) _ _
                (λ _. Triple-revoke m.ai_key_hash) (λ _. Triple-raise _ (λ s k. k.0.0))))

  TornDown-performed :
      (op : Op) → is_archive op ≡ false → Triple TornDown TornDown IsStopped (perform w op)
  TornDown-performed op e =
      Triple-perform w op (λ s k. inl (ground arith))
        (λ s k. (ground arith, IsRevoked-step h (event op true s) s.trace k.1))

  IsMoved-logged : (op : Op) (ok? : Bool) (s : State) → IsMoved s → IsMoved (logged op ok? s)
  IsMoved-logged op ok? s (g, r, a) =
      (ground arith, IsRevoked-step h (event op ok? s) s.trace r, ground arith)

  Triple-archive : Triple TornDown IsArchived IsStopped (archive w)
  unfolding archive
  Triple-archive = Triple-bind _ _ (Triple-gets _) (λ m.
      Triple-bind _ _ (TornDown-performed (Op.archive_dir m.slug) refl) (λ _.
        Triple-bind _ _
          (Triple-perform w (Op.archive m.slug) (λ s k. inl (ground arith))
            (λ s k. (
              ground arith,
              IsRevoked-step h (event (Op.archive m.slug) true s) s.trace k.1,
              refl,
            )))
          (λ _.
            Triple-bind _ _
              (Triple-perform w (Op.archive_logs m.slug)
                (λ s k. inr (IsMoved-logged (Op.archive_logs m.slug) false s k))
                (λ s k. IsMoved-logged (Op.archive_logs m.slug) true s k))
              (λ _.
                Triple-perform w (Op.remove_session m.slug)
                  (λ s k. inr (IsMoved-logged (Op.remove_session m.slug) false s k))
                  (λ s k. (IsMoved-logged (Op.remove_session m.slug) true s k, refl))))))

  -- A destroy, from its teardown on.
  Triple-destroy :
      (m : Act Nothing)
      → Triple Kept TornDown Kept m
      → Triple Kept IsArchived IsStopped
          (attempt (set_status w Status.destroying) >> (catch m (fail_destroy w) >> archive w))
  Triple-destroy m k =
      Triple-bind _ _
        (Triple-weaken _ (λ s p. p) (λ s p. p) (λ s p. inl p)
          (Triple-attempt _ (Kept-set_status Status.destroying)))
        (λ _.
          Triple-bind _ _
            (Triple-weaken _ (λ s p. p) (λ s p. p) (λ s p. inl p)
              (Triple-catch m _ k Kept-fail_destroy))
            (λ _. Triple-archive))

module _ (w : World) (h : Text) where
  Triple-tear_down :
      Triple (Kept w h is_destroy) (TornDown w h is_destroy) (Kept w h is_destroy) (tear_down w)
  unfolding tear_down
  Triple-tear_down = Triple-bind _ _ (Kept-performed w h is_destroy Op.tf_init refl) (λ _.
      Triple-bind _ _ (Gone-performed w h is_destroy Op.tf_destroy refl refl)
        (λ _. Triple-revoke_ai_key w h is_destroy))

  Triple-local_tear_down :
      Triple (Kept w h is_down) (TornDown w h is_down) (Kept w h is_down) (local_tear_down w)
  unfolding local_tear_down
  Triple-local_tear_down = Triple-bind _ _ (Triple-gets _) (λ m.
      Triple-bind _ _
        (Triple-if m.kind _ _ (λ _. Kept-performed w h is_down Op.delete_cluster refl)
          (λ _. Triple-pure tt (λ s k. k)))
        (λ _. Triple-bind _ _ (Kept-performed w h is_down (Op.open_log _) refl) (λ _.
          Triple-bind _ _ (Gone-performed w h is_down Op.compose_down refl refl)
            (λ _. Triple-revoke_ai_key w h is_down))))

  pub Triple-run_destroy :
      Triple
        (Kept w h is_destroy)
        (IsArchived w h is_destroy)
        (IsStopped w h is_destroy)
        (run_destroy w)
  unfolding run_destroy
  Triple-run_destroy = Triple-destroy w h is_destroy (tear_down w) Triple-tear_down

  pub Triple-run_local_destroy :
      Triple
        (Kept w h is_down)
        (IsArchived w h is_down)
        (IsStopped w h is_down)
        (run_local_destroy w)
  unfolding run_local_destroy
  Triple-run_local_destroy = Triple-destroy w h is_down (local_tear_down w) Triple-local_tear_down

  pub run_destroy-Post :
      (s : State)
      → s.meta.ai_key_hash ≡ h
      → has_done is_archive s.trace ≡ false
      → Post
          (IsArchived w h is_destroy)
          (IsStopped w h is_destroy)
          (run_destroy w s).0
          (run_destroy w s).1
  run_destroy-Post s e f = Triple-run_destroy.at s (e, f)

  pub run_local_destroy-Post :
      (s : State)
      → s.meta.ai_key_hash ≡ h
      → has_done is_archive s.trace ≡ false
      → Post
          (IsArchived w h is_down)
          (IsStopped w h is_down)
          (run_local_destroy w s).0
          (run_local_destroy w s).1
  run_local_destroy-Post s e f = Triple-run_local_destroy.at s (e, f)
