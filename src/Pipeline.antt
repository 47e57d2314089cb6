-- ===== src/Pipeline.antt =====
-- What the launch and the destroy pipelines are made of: steps on a session that act on the world
-- outside and may fail, with the first error ending the pipeline.
-- The world answers each operation by whether it fails, from what was done before. The state holds
-- the session in memory, the metadata file on disk, and the operations so far, newest first.
pub mod Triples
pub mod Total
use interview_labs.Prelude.{
  ℕ, Text, Bool, true, false, Option, none, some, List, [], ◌∷◌, if◌then◌else◌,
}
use interview_labs.Session.Metadata.{Metadata, Phase}

pub data Op : Type 0 where
  -- metadata.json, as it is written
  write_metadata : Metadata → Op
  plugin_cache stage_terraform stage_stack stage_payload write_override : Op
  user_data write_tfvars tf_init tf_apply tf_outputs tf_destroy : Op
  dial cloud_init_wait install_kind write_payload_tar push_payload : Op
  push_file : Text → Op
  write_log : Text → Op
  open_log : Text → Op
  cluster_command : ℕ → Op
  create_local_cluster delete_cluster compose_down : Op
  pull : Text → Text → Op
  -- the new key's hash
  mint : Text → Op
  -- the gateway password and the AI key that cross as environment
  compose_up : Text → Text → Op
  run_setup : Text → Op
  revoke : Text → Op
  -- Session.Archive of the slug: the archive's directory, then the metadata, then the logs if there
  -- are any, then what is left of the session
  archive_dir archive archive_logs remove_session : Text → Op

pub record Event : Type 0 where
  pub op : Op
  pub done : Bool
  -- the phase that stood on disk then
  pub phase : Phase

pub record MintedKey : Type 0 where
  pub hash : Text
  pub cap_usd : ℕ
  pub key : Text

pub record Outputs : Type 0 where
  pub ip : Text
  pub fqdn : Text

-- The world outside: what fails, and what terraform and the AI provider answer.
pub record World : Type 0 where
  pub fails : Op → List Event → Bool
  pub outputs : List Event → Outputs
  pub minted : List Event → MintedKey

pub record State : Type 0 where
  pub meta : Metadata
  pub saved : Metadata
  pub trace : List Event

pub data Failure : Type 0 where
  op_failed : Op → Failure
  launch_failed : Phase → Failure
  unknown_provider : Text → Failure
  invalid_images : Failure

pub data Result (A : Type 0) : Type 0 where
  ok : A → Result A
  err : Failure → Result A

abbrev pub Act : Type 0 → Type 0
Act A = State → Result A × State

module _ {A : Type 0} where
  unfoldable pub pure : A → Act A
  pure a s = (ok a, s)

  unfoldable pub raise : Failure → Act A
  raise e s = (err e, s)

  unfoldable pub gets : (State → A) → Act A
  gets f s = (ok (f s), s)

module _ {A B : Type 0} where
  abbrev pub continue : Result A → (A → Act B) → Act B
  continue (ok a) f s = f a s
  continue (err e) f s = (err e, s)

  infixl 10 ◌>>=◌ ◌>>◌
  unfoldable pub ◌>>=◌ : Act A → (A → Act B) → Act B
  unfolding pure raise gets
  ◌>>=◌ m f s = let (r, s') = m s in continue r f s'

  abbrev pub ◌>>◌ : Act A → Act B → Act B
  m >> n = m >>= λ _. n

module _ {A B : Type 0} where
  -- Runs `n` if `m` fails, whatever comes of it, and fails as `m` does.
  abbrev pub after_error : Result A → Act B → Act A
  after_error (ok a) n s = (ok a, s)
  after_error (err e) n s = (err e, (n s).1)

  unfoldable pub or_else : Act A → Act B → Act A
  or_else m n s = let (r, s') = m s in after_error r n s'

module _ {A : Type 0} where
  abbrev pub recover : Result A → (Failure → Act A) → Act A
  recover (ok a) f s = (ok a, s)
  recover (err e) f s = f e s

  -- Goes on from a failure with what `f` does.
  unfoldable pub catch : Act A → (Failure → Act A) → Act A
  catch m f s = let (r, s') = m s in recover r f s'

abbrev pub Nothing : Type 0
Nothing = Unit {0}

abbrev pub done : Act Nothing
done = pure tt

-- A call whose error is not looked at.
unfoldable pub attempt : Act Nothing → Act Nothing
attempt m = catch m (λ e. done)

-- The record of an operation.
abbrev pub event : Op → Bool → State → Event
event op ok? s = record { op = op; done = ok?; phase = s.saved.phase }

abbrev pub logged : Op → Bool → State → State
logged op ok? s = record s { trace = event op ok? s ∷ s.trace }

-- Change the session in memory, and save it: a write that fails is taken to leave the file as it was,
-- though os.WriteFile may leave it cut off.
abbrev pub changed : (Metadata → Metadata) → State → State
changed f s =
    let m = f s.meta in record s { meta = m; trace = event (write_metadata m) false s ∷ s.trace }

abbrev pub stored : (Metadata → Metadata) → State → State
stored f s =
    let m = f s.meta in
    record { meta = m; saved = m; trace = event (write_metadata m) true s ∷ s.trace }

module _ (w : World) where
  -- One operation on the world.
  unfoldable pub perform : Op → Act Nothing
  perform op s =
      if w.fails op s.trace
      then (err (op_failed op), logged op false s)
      else (ok tt, logged op true s)

  unfoldable pub write : (Metadata → Metadata) → Act Nothing
  write f s =
      if w.fails (write_metadata (f s.meta)) s.trace
      then (err (op_failed (write_metadata (f s.meta))), changed f s)
      else (ok tt, stored f s)
