-- ===== src/Destroy/Consent.antt =====
-- What runDestroyCmd asks for before it destroys a session, and what it leaves behind.
use interview_labs.Prelude.{
  Bool-cases, inl, inr, Text, Bool, true, false, Option, none, some, ◌≡◌, ◌⊎◌, refl, arith,
}
use interview_labs.Prelude.Outcome.{
  Outcome, ok, err, require, expect, expect-ok, >>=-ok, ok-injective, require-ok,
}
use interview_labs.Session.Store.{Store, Session}
use interview_labs.Session.Resolve.{resolve_session, IsChosen, resolve_session-IsChosen}
use interview_labs.Config.{Config}
use interview_labs.Launch.Plan.{is_local}
use interview_labs.Pipeline.{Op, World, State, Result}
use interview_labs.Pipeline.Triples.{Post}
use interview_labs.Destroy.Order.{
  IsArchived, IsStopped, is_destroy, is_down, run_destroy-Post, run_local_destroy-Post,
}
use interview_labs.Destroy.Command.{
  Desk, Runner, Refusal, Destroyed, map_err, confirm_destroy_gate, destroy_runner, runner_for,
  destroy_plan, opened, tear, torn_down, run_destroy_cmd,
}
use mathlib.Core.Path.{subst}

pub map_err-ok :
    {E F A : Type 0} (f : E → F) (m : Outcome E A) (a : A) → map_err f m ≡ ok a → m ≡ ok a
map_err-ok f (ok b) a h = ground arith
map_err-ok f (err e) a h = ground arith

module _ (d : Desk) (ref : Text) (skip : Bool) where
  -- The operator passed --yes, or confirmed on a terminal.
  abbrev pub IsAgreed : Session → Type 0
  IsAgreed s = (skip ≡ true) ⊎ ((d.is_tty ≡ true) × (d.confirm s ≡ ok true))

  abbrev pub HasRunner : Session → Option Runner → Type 0
  HasRunner s none = is_local s ≡ true
  HasRunner s (some r) =
      (is_local s ≡ false) × ((c : Config) × (d.config ≡ some c) × (destroy_runner d c s ≡ ok r))

  record Planned (p : Session × Option Runner) : Type 0 where
    chosen : resolve_session d.elsewhere d.store ref d.is_tty d.pick ≡ ok p.0
    agreed : IsAgreed p.0
    locked : d.locks p.0 ≡ true
    runner : HasRunner p.0 p.1

  gate-IsAgreed : (s : Session) (u : Unit) → confirm_destroy_gate d s skip ≡ ok u → IsAgreed s
  unfolding confirm_destroy_gate
  gate-IsAgreed s u h = ground arith

  runner_for-HasRunner :
      (c : Config) (s : Session) (r : Option Runner)
      → d.config ≡ some c
      → runner_for d c s ≡ ok r
      → HasRunner s r
  unfolding runner_for
  runner_for-HasRunner c s none e h = ground arith
  runner_for-HasRunner c s (some r) e h = elim (Bool-cases (is_local s)) [
    | inl q ↦ ground (arith, q, h)
    | inr q ↦ (q, (c, e, ground (arith, q, h)))
  ]

  destroy_plan-Planned : (p : Session × Option Runner) → destroy_plan d ref skip ≡ ok p → Planned p
  unfolding destroy_plan
  destroy_plan-Planned p h =
      let (s, es, h1) =
        >>=-ok
          (map_err Refusal.unresolved (resolve_session d.elsewhere d.store ref d.is_tty d.pick)) _ p
          h in
      let (u, eu, h2) = >>=-ok (confirm_destroy_gate d s skip) _ p h1 in
      let (v, ev, h3) = >>=-ok (require (d.locks s) Refusal.busy) _ p h2 in
      let (c, ec, h4) = >>=-ok (expect d.config Refusal.no_config) _ p h3 in
      let (r, er, h5) = >>=-ok (runner_for d c s) (λ t. ok (s, t)) p h4 in
      subst Planned (ok-injective (s, r) p h5) (record {
        chosen = map_err-ok _ _ s es;
        agreed = gate-IsAgreed s u eu;
        locked = require-ok _ _ v ev;
        runner = runner_for-HasRunner c s r (expect-ok _ _ c ec) er;
      })

-- The machine's last operation: terraform destroy, or compose down on this machine.
abbrev pub ender : Option Runner → Op → Bool
ender none = is_down
ender (some r) = is_destroy

-- What came of tearing the session down.
abbrev pub IsTorn : World → Session → Option Runner → Result (Unit {0}) → State → Type 0
IsTorn w s r res st =
    Post (IsArchived w s.meta.ai_key_hash (ender r)) (IsStopped w s.meta.ai_key_hash (ender r)) res
      st

tear-IsTorn :
    (w : World) (st : Store) (s : Session) (r : Option Runner)
    → IsTorn w s r (tear w r (opened st s)).0 (tear w r (opened st s)).1
tear-IsTorn w st s none = run_local_destroy-Post w s.meta.ai_key_hash (opened st s) refl refl
tear-IsTorn w st s (some r) = run_destroy-Post w s.meta.ai_key_hash (opened st s) refl refl

module _ (d : Desk) (w : Option Runner → World) (ref : Text) (skip : Bool) where
  abbrev pub IsOrderly : Destroyed → Type 0
  IsOrderly (Destroyed.refused e) = destroy_plan d ref skip ≡ err e
  IsOrderly (Destroyed.ran s r res st) =
      IsChosen d.elsewhere d.store ref d.is_tty d.pick s
      × IsAgreed d ref skip s
      × (d.locks s ≡ true)
      × HasRunner d ref skip s r
      × IsTorn (w r) s r res st

  torn_down-IsOrderly :
      (o : Outcome Refusal (Session × Option Runner))
      → destroy_plan d ref skip ≡ o
      → IsOrderly (torn_down d.store w o)
  torn_down-IsOrderly (err e) h = h
  torn_down-IsOrderly (ok (s, r)) h =
      let p = destroy_plan-Planned d ref skip (s, r) h in
      let c = resolve_session-IsChosen d.elsewhere d.store ref d.is_tty d.pick s p.chosen in
      (c, p.agreed, p.locked, p.runner, tear-IsTorn (w r) d.store s r)

  -- The destroy command begins to tear a session down only when it was named, is the only one, or was
  -- picked on a terminal, the operator passed --yes or confirmed on a terminal, its lock was taken,
  -- and, for a session in the cloud, there is a runner. Then, if it returns, terraform destroy or on
  -- this machine compose down succeeded, the session's key, unless it is empty, was revoked, its
  -- metadata was moved to the archive and its directory removed. If it fails, either the metadata
  -- was not moved and the session still has its key, or all this was done but for moving the logs or
  -- removing the directory.
  pub run_destroy_cmd-IsOrderly : IsOrderly (run_destroy_cmd d w ref skip)
  unfolding run_destroy_cmd
  run_destroy_cmd-IsOrderly = torn_down-IsOrderly (destroy_plan d ref skip) refl
