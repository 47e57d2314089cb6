-- ===== src/Pack/Payload.antt =====
-- internal/pack/payload.go: the content of a bundle that is staged for the candidate's machine.
-- The file system of the pack is a tree, whose entries WalkDir visits in their order. What cannot be
-- read there, and what comes of a write on this machine, are parameters. The writes are kept in
-- their order, those before an error too, and what a write that failed left behind.
use interview_labs.Prelude.{
  ℕ, zero, suc, Text, codes, Bool, Option, none, some, List, [], ◌∷◌, ◌++◌, if◌then◌else◌, text_eq,
  ends_with,
}
use interview_labs.Pack.{Bundle, Scenario}

mutual
  pub data Tree : Type 0 where
    file : Text → Tree
    dir : Entries → Tree

  pub data Entries : Type 0 where
    end : Entries
    entry : Text → Tree → Entries → Entries

-- A path as its names.
abbrev pub Route : Type 0
Route = List Text

unfoldable mutual
  unfolding text_eq

  -- The part of a tree under a path.
  pub sub : Tree → Route → Option Tree
  sub t [] = some t
  sub (Tree.file data_) (n ∷ r) = none
  sub (Tree.dir es) (n ∷ r) = sub_entry es n r

  pub sub_entry : Entries → Text → Route → Option Tree
  sub_entry Entries.end n r = none
  sub_entry (Entries.entry m t es) n r =
      let below = sub t r in let rest = sub_entry es n r in if text_eq m n then below else rest

pub data Write : Type 0 where
  make_dir : Route → Write
  -- a file with all of its content, and one with the part that was written when the write failed
  write_file write_part : Route → Text → ℕ → Write

pub data StageError : Type 0 where
  not_found cannot_read : Route → StageError
  cannot_write : Write → StageError

-- What comes of a write: it succeeds, or it fails and leaves nothing, or a part: some of the bytes of
-- a file, or some of the directories above one.
pub data Landing : Type 0 where
  whole lost : Landing
  cut_off : ℕ → Landing

unfoldable pub take : {A : Type 0} → ℕ → List A → List A
take zero xs = []
take (suc n) [] = []
take (suc n) (x ∷ xs) = x ∷ take n xs

unfoldable pub part : ℕ → Write → Write
unfolding take
part n (Write.make_dir p) = Write.make_dir (take n p)
part n (Write.write_file p d m) = Write.write_part p (take n d) m
part n (Write.write_part p d m) = Write.write_part p (take n d) m

-- What was written, and the error that ended it if there was one.
abbrev pub Staged : Type 0
Staged = Option StageError × List Write

abbrev pub nothing : Staged
nothing = (none, [])

infixl 10 ◌&◌
abbrev pub ◌&◌ : Staged → Staged → Staged
(none, ws) & (e, vs) = (e, ws ++ vs)
(some e, ws) & n = (some e, ws)

abbrev pub base : Route → Text
base [] = []
base (n ∷ []) = n
base (n ∷ m ∷ r) = base (m ∷ r)

-- 0o755 for a script, 0o644 for another file.
abbrev pub mode : Route → ℕ
mode p = if ends_with (base p) (codes ".sh") then 493 else 420

-- A file named _go.mod is written back as go.mod.
unfoldable pub restored : Route → Route
restored [] = []
restored (n ∷ []) = if text_eq n (codes "_go.mod") then codes "go.mod" ∷ [] else n ∷ []
restored (n ∷ m ∷ r) = n ∷ restored (m ∷ r)

abbrev pub child : Route → Text → Route
child p n = p ++ (n ∷ [])

abbrev pub payload_dir : Route → Route
payload_dir dst = child dst (codes "payload")

abbrev pub bundle_route : Bundle → Route
bundle_route b = codes "bundles" ∷ b.name ∷ []

abbrev pub task_route : Bundle → Scenario → Route
task_route b sc = bundle_route b ++ (codes "scenarios" ∷ sc.name ∷ codes "task" ∷ [])

abbrev pub landed : Write → Landing → Staged
landed w Landing.whole = (none, w ∷ [])
landed w Landing.lost = (some (StageError.cannot_write w), [])
landed w (Landing.cut_off n) = (some (StageError.cannot_write w), part n w ∷ [])

module _ (unreadable : Route → Bool) (lands : Write → Landing) where
  abbrev pub put : Write → Staged
  put w = landed w (lands w)

  abbrev pub readable : Route → Staged
  readable p = if unreadable p then (some (StageError.cannot_read p), []) else nothing

  unfoldable mutual
    unfolding restored

    pub copy : Route → Route → Tree → Staged
    copy src dst (Tree.file data_) =
        readable src & put (Write.write_file (restored dst) data_ (mode src))
    copy src dst (Tree.dir es) = put (Write.make_dir dst) & readable src & copy_entries src dst es

    pub copy_entries : Route → Route → Entries → Staged
    copy_entries src dst Entries.end = nothing
    copy_entries src dst (Entries.entry n t es) =
        copy (child src n) (child dst n) t & copy_entries src dst es

  abbrev pub copy_found : Route → Route → Option Tree → Staged
  copy_found src dst none = (some (StageError.not_found src), [])
  copy_found src dst (some t) = copy src dst t

  unfoldable pub copy_tree : Tree → Route → Route → Staged
  unfolding copy
  copy_tree fs src dst = copy_found src dst (sub fs src)

  -- The loop over the scenarios.
  unfoldable pub stage_tasks : Tree → Route → Bundle → List Scenario → Staged
  unfolding copy_tree
  stage_tasks fs dst b [] = nothing
  stage_tasks fs dst b (sc ∷ scs) =
      copy_tree fs (task_route b sc) (payload_dir dst ++ (codes "workspace" ∷ sc.name ∷ []))
      & stage_tasks fs dst b scs

  abbrev pub stage_part : Tree → Route → Bundle → Bool → Text → Staged
  stage_part fs dst b has name =
      if has
      then copy_tree fs (child (bundle_route b) name) (child (payload_dir dst) name)
      else nothing

  unfoldable pub stage_payload : Route → Tree → Bundle → Staged
  unfolding stage_tasks
  stage_payload dst fs b =
      stage_tasks fs dst b b.scenarios
      & stage_part fs dst b b.has_lab (codes "lab")
      & stage_part fs dst b b.has_kind (codes "kind")
