-- ===== src/Ssh.antt =====
-- internal/ssh/ssh.go: how a session's host key is pinned, and the loop of Dial; and from
-- internal/cli/ssh.go the program that takes the terminal over. The network, and the package
-- knownhosts, are parameters.
pub mod Pinned
pub mod Tests
use interview_labs.Prelude.{
  Text, codes, Bool, true, false, Option, none, some, List, [], ◌∷◌, ◌++◌, if◌then◌else◌, is_empty,
}
use interview_labs.Prelude.Outcome.{Outcome, ok, err}
use interview_labs.Session.Store.{Store, Session}
use interview_labs.Session.Resolve.{ResolveError, resolve_session}
use interview_labs.Launch.Plan.{is_local}

-- What checking a key against the file comes to: a KeyError with wanted keys is a mismatch.
pub data Verdict : Type 0 where
  accepted mismatch refused : Verdict

-- The package knownhosts, with a key as its bytes.
pub record KnownHosts : Type 0 where
  pub line : Text → Text → Text
  pub verify : Text → Text → Text → Verdict

-- What one try meets: nothing that answers, or a host with a key. `writes` says whether the file can be
-- written, `leaves` what is there if not, and `logs_in` whether the host takes the session's key.
pub data Attempt : Type 0 where
  unreachable : Attempt
  presents : (key : Text) (writes : Bool) (leaves : Option Text) (logs_in : Bool) → Attempt

pub data DialError : Type 0 where
  not_reachable host_key_changed : DialError

-- How a try ended: connected with the key, with a changed key, or to be tried again.
pub data Try : Type 0 where
  connected : Text → Try
  changed again : Try

module _ (kh : KnownHosts) (host : Text) where
  abbrev pub pin : Text → Text
  pin key = kh.line host key ++ codes "\n"

  -- hostKeyCallback, with the known_hosts file before and after it.
  unfoldable pub host_key_callback : Option Text → Text → Bool → Option Text → Verdict × Option Text
  host_key_callback none key writes leaves =
      if writes then (Verdict.accepted, some (pin key)) else (Verdict.refused, leaves)
  host_key_callback (some file) key writes leaves = (kh.verify file host key, some file)

  abbrev pub judged : Verdict → Text → Bool → Try
  judged Verdict.accepted key logs_in = if logs_in then Try.connected key else Try.again
  judged Verdict.mismatch key logs_in = Try.changed
  judged Verdict.refused key logs_in = Try.again

  unfoldable pub attempt : Option Text → Attempt → Try × Option Text
  unfolding host_key_callback
  attempt known Attempt.unreachable = (Try.again, known)
  attempt known (Attempt.presents key writes leaves logs_in) =
      let (v, file) = host_key_callback known key writes leaves in (judged v key logs_in, file)

  abbrev pub ended :
      Try
      → Option Text
      → Outcome DialError Text × Option Text
      → Outcome DialError Text × Option Text
  ended (Try.connected key) file rest = (ok key, file)
  ended Try.changed file rest = (err DialError.host_key_changed, file)
  ended Try.again file rest = rest

  -- The loop of Dial: the context expires after the tries.
  unfoldable pub dial : Option Text → List Attempt → Outcome DialError Text × Option Text
  unfolding attempt
  dial known [] = (err DialError.not_reachable, known)
  dial known (a ∷ tries) = let (t, file) = attempt known a in ended t file (dial file tries)

  abbrev pub add_key : Outcome DialError Text → List Text → List Text
  add_key (ok key) keys = key ∷ keys
  add_key (err e) keys = keys

  -- The keys of the connections that a session makes, one dial after the other.
  unfoldable pub connections : Option Text → List (List Attempt) → List Text
  connections known [] = []
  connections known (tries ∷ dials) =
      let (r, file) = dial known tries in add_key r (connections file dials)

-- Argv
unfoldable pub argv : Text → Text → Text → Text → List Text
argv key_path known_hosts_path user ip =
    codes "ssh"
    ∷ codes "-i"
    ∷ key_path
    ∷ codes "-o"
    ∷ (codes "UserKnownHostsFile=" ++ known_hosts_path)
    ∷ (user ++ b'@' ∷ ip)
    ∷ []

-- The paths of a session, from its directory.
abbrev pub key_path : Text → Text
key_path dir = dir ++ codes "/ssh/key"

abbrev pub known_hosts_path : Text → Text
known_hosts_path dir = dir ++ codes "/ssh/known_hosts"

pub data SshError : Type 0 where
  unresolved : ResolveError → SshError
  no_ip : SshError

-- The program for a session whose directory is at `path`.
abbrev pub ssh_program : (Session → Text) → Session → Outcome SshError (List Text)
ssh_program path s =
    if is_local s
    then ok (
        codes "docker"
        ∷ codes "exec"
        ∷ codes "-it"
        ∷ (codes "interview-" ++ (s.meta.slug ++ codes "-vscode"))
        ∷ codes "bash"
        ∷ [])
    else if is_empty s.meta.ip
    then err SshError.no_ip
    else ok (argv (key_path (path s)) (known_hosts_path (path s)) s.meta.ssh_user s.meta.ip)

abbrev pub program_of :
    (Session → Text) → Outcome ResolveError Session → Outcome SshError (List Text)
program_of path (err e) = err (SshError.unresolved e)
program_of path (ok s) = ssh_program path s

-- runSSHCmd, up to the program that it becomes.
unfoldable pub run_ssh_cmd :
    (Session → Text)
    → (Text → Option Session)
    → Store
    → Text
    → Bool
    → Option Text
    → Outcome SshError (List Text)
unfolding argv
run_ssh_cmd path elsewhere st ref is_tty pick =
    program_of path (resolve_session elsewhere st ref is_tty pick)
