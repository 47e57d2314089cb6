-- ===== src/Gateway/Config/Secret.antt =====
-- The cookie-signing key (resolveSecret): an explicit one, one kept in a file, or a fresh one.
use interview_labs.Prelude.{
  Text, Bool, true, false, [], ◌∷◌, ◌≡◌, ◌≢◌, refl, if◌then◌else◌, is_empty, arith,
}
use interview_labs.Prelude.Outcome.{Outcome, ok, err, ◌>>=◌}

pub data Error : Type 0 where
  read_secret_file write_secret_file generate_secret : Error
  tls_pair password_required ide_upstream_url term_upstream_url no_landing_page : Error

-- What os.ReadFile finds at the path.
pub data Read : Type 0 where
  found : Text → Read
  not_exist failed : Read

-- The file at the configured path, whether it can be written, and what crypto/rand gives.
pub record Files : Type 0 where
  pub secret_file : Read
  pub writable : Bool
  pub random : Outcome Error Text

pub record Secret : Type 0 where
  pub secret : Text
  pub generated : Bool

-- A fresh key, written to the file.
unfoldable pub persist : Files → Outcome Error (Secret × Files)
persist f = do
  fresh ← f.random
  if f.writable
      then ok (record { secret = fresh; generated = true }, record f { secret_file = found fresh })
      else err write_secret_file

unfoldable pub from_file : Read → Files → Outcome Error (Secret × Files)
unfolding persist
from_file (found (c ∷ s)) f = ok (record { secret = c ∷ s; generated = false }, f)
from_file (found []) f = persist f
from_file not_exist f = persist f
from_file failed f = err read_secret_file

unfoldable pub ephemeral : Files → Outcome Error (Secret × Files)
ephemeral f = do fresh ← f.random; ok (record { secret = fresh; generated = true }, f)

unfoldable pub resolve_secret : Text → Text → Files → Outcome Error (Secret × Files)
unfolding from_file ephemeral
resolve_secret explicit file f =
    if is_empty explicit
    then if is_empty file then ephemeral f else from_file f.secret_file f
    else ok (record { secret = explicit; generated = false }, f)

-- Where a start with a configured file ends well, the file holds the key.
persist_kept : (f g : Files) (s : Secret) → persist f ≡ ok (s, g) → g.secret_file ≡ found s.secret
unfolding persist
persist_kept f g s h = ground arith

file_kept :
    (r : Read) (f g : Files) (s : Secret)
    → f.secret_file ≡ r
    → from_file r f ≡ ok (s, g)
    → g.secret_file ≡ found s.secret
unfolding from_file
file_kept (found (c ∷ k)) f g s e h = ground arith
file_kept (found []) f g s e h = persist_kept f g s h
file_kept not_exist f g s e h = persist_kept f g s h
file_kept failed f g s e h = cc

reread :
    (k : Text) (g : Files)
    → k ≢ []
    → from_file (found k) g ≡ ok (record { secret = k; generated = false }, g)
unfolding from_file
reread [] g h = absurd (h refl)
reread (c ∷ k) g h = refl

secret_not_ephemeral :
    (file : Text) (f g : Files) (s : Secret)
    → file ≢ []
    → resolve_secret [] file f ≡ ok (s, g)
    → g.secret_file ≡ found s.secret
secret_not_ephemeral [] f g s h e = absurd (h refl)
secret_not_ephemeral (c ∷ file) f g s h e =
    unfold resolve_secret in file_kept f.secret_file f g s refl e

later_start :
    (file : Text) (f g : Files) (s : Secret)
    → file ≢ []
    → s.secret ≢ []
    → resolve_secret [] file f ≡ ok (s, g)
    → resolve_secret [] file g ≡ ok (record { secret = s.secret; generated = false }, g)
later_start [] f g s h h' e = absurd (h refl)
later_start (c ∷ file) f g s h h' e =
    unfold resolve_secret in simp (file_kept f.secret_file f g s refl e) (reread s.secret g h')

-- With a file for the key configured and none in the environment, a start that does not fail and has
-- a key that is not empty has its key in that file, and it is the key of every later start, which
-- generates none.
pub secret_persists :
    (file : Text) (f g : Files) (s : Secret)
    → file ≢ []
    → s.secret ≢ []
    → resolve_secret [] file f ≡ ok (s, g)
    → (g.secret_file ≡ found s.secret)
      × (resolve_secret [] file g ≡ ok (record { secret = s.secret; generated = false }, g))
secret_persists file f g s h h' e =
    (secret_not_ephemeral file f g s h e, later_start file f g s h h' e)
