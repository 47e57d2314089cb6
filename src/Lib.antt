-- ===== src/Lib.antt =====
-- interview-labs runs coding interviews: a command line program (cmd/interview, internal/) launches a
-- machine in the cloud or a stack on this machine, and a gateway (docker/images/gateway) stands in
-- front of the candidate's workspace there. The files model these parts, each from the Go source.
--
-- Gateway (docker/images/gateway): every request of a candidate goes through server.handler.
--   Gateway/Server.antt: handler, root, loginSubmit, requireAuth, safeNext (server.go), clientIP and the
--     prefix that the proxy removes (proxy.go). A request is a record of what the code reads of it, and
--     handle gives the reply and the limiter after it. The clock is an argument, read once a request.
--     Access, Redirects and Guessing are its theorems.
--   Gateway/Limiter.antt: allow, sweep and size (limiter.go), one call a step since a mutex is held. The
--     buckets are an association list. Tokens are counted in units of a window, so that the source's
--     floating-point numbers become exact integers.
--   Gateway/Token.antt: signToken and validToken (token.go). The MAC is a parameter; Decimal.antt and
--     Gateway/Base64.antt define what strconv and encoding/base64 do to the bytes.
--   Gateway/Config.antt: resolveSecret and loadConfig (config.go), on the files as explicit state.
-- Launch and destroy (internal/cli, internal/session): both are chains of phases on the metadata of a
-- session, which destroy reads back from the disk.
--   Session/Metadata.antt: Metadata, its setters and what Get makes of an old file (session.go).
--   Session/Store.antt, Session/New.antt, Session/Resolve.antt: the directories of the sessions and of the
--     archive with New, List, Get and Archive (session.go, slug.go), and which session a command is
--     about (ssh.go). The steps of the file system may fail, each as a parameter says.
--   Pipeline.antt: a state and error monad. A World says of each operation outside (terraform, ssh,
--     docker, the providers) whether it fails, from all that was done before, and what it answers. The
--     state has the session in memory, the file on disk and the trace of operations. Pipeline/Triples
--     is the program logic that the proofs are written in.
--   Launch/Plan.antt: what runLaunchCmd decides before a session is made (launch.go, local.go), with the
--     operator's answers and what the machine has as parameters.
--   Launch.antt, Launch/Phases.antt, Launch/Local.antt: launch.go and local.go, phase by phase. The
--     other files of Launch are theorems.
--   Launch/Sizes.antt: the menus for the region and the size (pickRegionSize in launch.go), round by
--     round, with what the vendor offers and the operator answers as parameters.
--   Destroy.antt: destroy.go from the moment the session is marked as being destroyed. Destroy/Command
--     is the command around it: the session, the consent, the lock and the runner of terraform.
--   Terraform.antt: the search for the program and its environment (internal/terraform: find.go,
--     runner.go).
--   Root.antt: how an error of a command becomes an exit code and what is printed, and the main menu
--     (root.go).
--   Retry.antt: the repeated reads of a provider (internal/provider/retry.go).
--   Credentials.antt, Init.antt: where each provider finds its credentials (internal/aws,
--     internal/digitalocean, internal/hetzner, internal/cloudflare, internal/openrouter), how it is set
--     up, and the loop of the command init (init.go).
--   Ssh.antt: the pinned host key and the loop of Dial (internal/ssh/ssh.go), and the command ssh.
--   Config.antt: the configuration file (internal/config), with each state of the disk while it is
--     replaced.
--   Providers.antt: the capabilities and their look-up (provider.go, providers.go), and how a launch
--     chooses its host (launch.go).
--   Doctor.antt: the checks of the environment and their verdict (doctor.go).
--   Stack.antt: the commands and the environment file that go to the host (internal/stack). Shell is a
--     shell that reads this file.
--   Images.antt, Version.antt: the image references (images.go, internal/version).
--   Pack.antt, Pack/Load.antt, Pack/Names.antt: content packs and the rules by which they are loaded
--     (internal/pack: pack.go, load.go, validate.go).
--   Pack/Source.antt, Pack/Inside.antt: a pack by its reference, and the links of a pack that is a
--     directory (source.go and LoadDir of validate.go).
--   Pack/Payload.antt: what of a bundle is staged for the candidate's machine (payload.go). The pack is a
--     tree of files there, and the writes are a list.
-- Prelude holds what the parts share: byte strings, association lists, Boolean tests, the integers.
--
-- Bytes are natural numbers and a Go string is a list of them. Go's int and int64 are exact here but
-- where the source parses or prints them: ParseInt's bounds are written out. Every function is by
-- structural recursion. Three have fuel: the digits of a number have 20 rounds, enough for every
-- number of 64 bits; the search of Archive for a free name tries one name more than there are
-- archives; the draws of a slug have as many rounds as the caller gives.
--
-- Not modelled: the drawing of the terminal, the clients of the vendors' services, the transport of
-- ssh and HTTP, the embedded file systems and what is only printed. Where a modelled part depends
-- on one of these, the answer is a parameter. A write of the metadata that fails is taken to leave the
-- file as it was, and tokens of the limiter are exact where the source has float64.
pub mod Prelude
pub mod Decimal
pub mod Gateway
pub mod Pack
pub mod Session
pub mod Pipeline
pub mod Images
pub mod Launch
pub mod Providers
pub mod Destroy
pub mod Doctor
pub mod Stack
pub mod Config
pub mod Retry
pub mod Ssh
pub mod Credentials
pub mod Init
pub mod Root
pub mod Terraform
pub mod Version
