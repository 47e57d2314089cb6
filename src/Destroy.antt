-- ===== src/Destroy.antt =====
-- internal/cli/destroy.go, from SetStatus(destroying) on: a session in the cloud, and one on this
-- machine.
pub mod Order
pub mod Revoked
pub mod Returns
pub mod Command
pub mod Consent
pub mod Creds
pub mod ConsentTests
pub mod Tests
use interview_labs.Prelude.{Text, codes, Bool, if◌then◌else◌, is_empty, not}
use interview_labs.Session.Metadata.{Metadata, Status, role_of}
use interview_labs.Pipeline.{
  Op, World, State, Failure, unknown_provider, Act, Nothing, raise, done, gets, catch, attempt,
  ◌>>=◌, ◌>>◌, perform,
}
use interview_labs.Providers.{ai_by_name, is_some}
use interview_labs.Launch.Phases.{when, set_status}

module _ (w : World) where
  -- A revoke of a key that is gone counts as done.
  unfoldable pub revoke_ai_key : Act Nothing
  revoke_ai_key = do
    m ← gets (λ s. s.meta)
    if is_empty m.ai_key_hash
        then done
        else if is_some (ai_by_name (role_of m (codes "ai")))
        then perform w (Op.revoke m.ai_key_hash)
        else raise (unknown_provider (role_of m (codes "ai")))

  -- The error of SetStatus is dropped.
  unfoldable pub fail_destroy : Failure → Act Nothing
  fail_destroy e = do attempt (set_status w Status.failed_destroy); raise e

  unfoldable pub tear_down : Act Nothing
  tear_down = do perform w Op.tf_init; perform w Op.tf_destroy; revoke_ai_key

  unfoldable pub local_tear_down : Act Nothing
  local_tear_down = do
    m ← gets (λ s. s.meta)
    when m.kind (perform w Op.delete_cluster)
    perform w (Op.open_log (codes "stack-down.log"))
    perform w Op.compose_down
    revoke_ai_key

  -- Session.Archive. When its last steps fail, the metadata is in the archive already.
  unfoldable pub archive : Act Nothing
  archive = do
    m ← gets (λ s. s.meta)
    perform w (Op.archive_dir m.slug)
    perform w (Op.archive m.slug)
    perform w (Op.archive_logs m.slug)
    perform w (Op.remove_session m.slug)

  unfoldable pub run_destroy : Act Nothing
  run_destroy = do attempt (set_status w Status.destroying); catch tear_down fail_destroy; archive

  unfoldable pub run_local_destroy : Act Nothing
  run_local_destroy = do
    attempt (set_status w Status.destroying)
    catch local_tear_down fail_destroy
    archive
