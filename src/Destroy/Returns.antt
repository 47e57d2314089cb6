-- ===== src/Destroy/Returns.antt =====
-- Destroys in a world where nothing fails.
use interview_labs.Prelude.{codes, Bool, true, false, ◌||◌, ◌≡◌, refl, arith, is_empty}
use interview_labs.Session.Metadata.{Metadata, Status, role_of}
use interview_labs.Pipeline.{
  Op, State, World, Failure, Result, ok, err, Act, Nothing, ◌>>◌, perform, catch, write, attempt,
}
use interview_labs.Pipeline.Triples.{
  Triple, Triple-bind, Triple-pure, Triple-raise, Triple-read, Triple-gets, Triple-catch,
  Triple-attempt, Triple-if, Triple-weaken, Post,
}
use interview_labs.Pipeline.Total.{IsCalm}
use interview_labs.Providers.{ai_by_name, is_some}
use interview_labs.Launch.Phases.{when, set_status}
use interview_labs.Destroy.{
  revoke_ai_key, tear_down, local_tear_down, archive, run_destroy, run_local_destroy, fail_destroy,
}

-- The session has no key, or the program knows the provider that can revoke it.
abbrev pub CanRevoke : Metadata → Type 0
CanRevoke m = (is_empty m.ai_key_hash || is_some (ai_by_name (role_of m (codes "ai")))) ≡ true

abbrev Good : State → Type 0
Good s = CanRevoke s.meta

abbrev Never : State → Type 0
Never s = ⊥

abbrev Going : {A : Type 0} → Act A → Type 0
Going m = Triple Good Good Never m

module _ (w : World) (calm : IsCalm w) where
  Going-perform : (op : Op) → Going (perform w op)
  unfolding perform
  Going-perform op = record { at = λ s h. rw (calm op s.trace) h }

  Going-set_status : (st : Status) → Going (set_status w st)
  unfolding set_status write role_of
  Going-set_status st = record {
    at = λ s h. rw (calm (Op.write_metadata (record s.meta { status = st })) s.trace) h;
  }

  Going-attempt : (m : Act Nothing) → Going m → Going (attempt m)
  Going-attempt m k = Triple-attempt m (Triple-weaken m (λ s h. h) (λ s h. h) (λ s h. elim h [ ]) k)

  Going-catch : (m : Act Nothing) (f : Failure → Act Nothing) → Going m → Going (catch m f)
  Going-catch m f k = Triple-catch m f k (λ e. record { at = λ s h. elim h [ ] })

  Going-then : (m n : Act Nothing) → Going m → Going n → Going (m >> n)
  Going-then m n km kn = Triple-bind m _ km (λ _. kn)

  Going-when : (b : Bool) (m : Act Nothing) → Going m → Going (when b m)
  Going-when true m k = k
  Going-when false m k = Triple-pure tt (λ s h. h)

  Going-revoke_ai_key : Going (revoke_ai_key w)
  unfolding revoke_ai_key
  Going-revoke_ai_key =
      Triple-read _ _ (λ m s. CanRevoke m × Good s) (λ s k. (k, k))
        (λ m.
          Triple-if (is_empty m.ai_key_hash) _ _ (λ e. Triple-pure tt (λ s k. k.1))
            (λ e.
              Triple-if (is_some (ai_by_name (role_of m (codes "ai")))) _ _
                (λ q.
                  Triple-weaken _ (λ s k. k.1) (λ s k. k) (λ s k. k)
                    (Going-perform (Op.revoke m.ai_key_hash)))
                (λ q. Triple-raise _ (λ s k. ground (arith, e, q, k.0)))))

  Going-tear_down : Going (tear_down w)
  unfolding tear_down
  Going-tear_down =
      Going-then _ _ (Going-perform Op.tf_init)
        (Going-then _ _ (Going-perform Op.tf_destroy) Going-revoke_ai_key)

  Going-local_tear_down : Going (local_tear_down w)
  unfolding local_tear_down
  Going-local_tear_down = Triple-bind _ _ (Triple-gets _) (λ m.
      Going-then _ _ (Going-when m.kind _ (Going-perform Op.delete_cluster)) (
        Going-then _ _ (Going-perform (Op.open_log (codes "stack-down.log")))
          (Going-then _ _ (Going-perform Op.compose_down) Going-revoke_ai_key)))

  Going-archive : Going (archive w)
  unfolding archive
  Going-archive = Triple-bind _ _ (Triple-gets _) (λ m.
      Going-then _ _ (Going-perform (Op.archive_dir m.slug)) (
        Going-then _ _ (Going-perform (Op.archive m.slug)) (
          Going-then _ _ (Going-perform (Op.archive_logs m.slug))
            (Going-perform (Op.remove_session m.slug)))))

  went : (r : Result Nothing) (s : State) → Post Good Never r s → r ≡ ok tt
  went (ok a) s h = refl
  went (err e) s h = elim h [ ]

  Going-destroy :
      (m : Act Nothing)
      → Going m
      → Going (attempt (set_status w Status.destroying) >> (catch m (fail_destroy w) >> archive w))
  Going-destroy m k =
      Going-then _ _ (Going-attempt _ (Going-set_status Status.destroying))
        (Going-then _ _ (Going-catch m _ k) Going-archive)

  -- If no operation outside fails, and the session has no key or names a provider of keys that the
  -- program knows, destroying it returns, in the cloud and on this machine.
  pub run_destroy-returns :
      (s : State)
      → CanRevoke s.meta
      → ((run_destroy w s).0 ≡ ok tt) × ((run_local_destroy w s).0 ≡ ok tt)
  unfolding run_destroy run_local_destroy
  run_destroy-returns s h = (
    went _ _ ((Going-destroy (tear_down w) Going-tear_down).at s h),
    went _ _ ((Going-destroy (local_tear_down w) Going-local_tear_down).at s h),
  )
