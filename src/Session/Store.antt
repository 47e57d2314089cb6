-- ===== src/Session/Store.antt =====
-- internal/session/session.go: the directories of the sessions and of the archive, and List, Get and
-- Archive on them. Root is taken to succeed. What is no directory among the entries is left out: List
-- passes over it, and Get fails on it.
use interview_labs.Prelude.{
  ℕ, zero, suc, Text, Bool, true, false, Option, none, some, List, [], ◌∷◌, ◌++◌, ltb,
  if◌then◌else◌, length, map,
}
use interview_labs.Prelude.Int.{pos}
use interview_labs.Prelude.Assoc.{Assoc, lookup, insert, remove}
use interview_labs.Prelude.Outcome.{Outcome, ok, err}
use interview_labs.Decimal.{format_int}
use interview_labs.Session.Metadata.{Metadata, migrate}

-- metadata.json: absent, not to be decoded, or with what it holds.
pub data MetadataFile : Type 0 where
  absent broken : MetadataFile
  holds : Metadata → MetadataFile

pub record SessionDir : Type 0 where
  pub file : MetadataFile
  pub has_logs : Bool

pub record Store : Type 0 where
  pub sessions : Assoc SessionDir
  pub archives : Assoc SessionDir

-- A session in memory, with the name of its directory.
pub record Session : Type 0 where
  pub dir : Text
  pub meta : Metadata

abbrev pub read : Text → Option SessionDir → Option Session
read slug none = none
read slug (some d) = elim d.file [
  | MetadataFile.holds m ↦ some (record { dir = slug; meta = migrate m })
  | _ ↦ none
]

unfoldable pub get : Store → Text → Option Session
get st slug = read slug (lookup slug st.sessions)

abbrev pub add_read : Option Session → List Session → List Session
add_read none out = out
add_read (some s) out = s ∷ out

-- The loop of List.
unfoldable pub readable : Store → List Text → List Session
readable st [] = []
readable st (name ∷ names) = add_read (get st name) (readable st names)

abbrev pub before : Session → Session → Bool
before a b = ltb a.meta.created_at b.meta.created_at

abbrev pub insert_by_age : Session → List Session → List Session
insert_by_age s [] = s ∷ []
insert_by_age s (x ∷ xs) =
    let rest = insert_by_age s xs in if before x s then x ∷ rest else s ∷ x ∷ xs

-- sort.Slice, whose order among sessions of one age is not specified.
unfoldable pub sort_by_age : List Session → List Session
sort_by_age [] = []
sort_by_age (s ∷ ss) = insert_by_age s (sort_by_age ss)

unfoldable pub list : Store → List Session
unfolding readable sort_by_age
list st = sort_by_age (readable st (map (λ (kv : Text × SessionDir). kv.0) st.sessions))

abbrev pub exists : {V : Type 0} → Text → Assoc V → Bool
exists name m = elim (lookup name m) [ none ↦ false | some v ↦ true ]

-- The loop of Archive that looks for a name that is free, on fuel.
unfoldable pub archive_name : ℕ → Text → ℕ → Text → Assoc SessionDir → Text
archive_name zero slug i dst m = dst
archive_name (suc f) slug i dst m =
    let next = archive_name f slug (suc i) (slug ++ b'-' ∷ format_int (pos i)) m in
    if exists dst m then next else dst

pub data ArchiveStep : Type 0 where
  make_dir rename_metadata rename_logs remove_all : ArchiveStep

abbrev pub dir_with : MetadataFile → Bool → SessionDir
dir_with file has_logs = record { file = file; has_logs = has_logs }

abbrev pub is_absent : MetadataFile → Bool
is_absent MetadataFile.absent = true
is_absent _ = false

abbrev pub put_session : Text → SessionDir → Store → Store
put_session name d st = record st { sessions = insert name d st.sessions }

abbrev pub put_archive : Text → SessionDir → Store → Store
put_archive name d st = record st { archives = insert name d st.archives }

-- Which steps of the operating system fail is answered from outside; a rename of a file that is not
-- there fails too. A step that fails is taken to change nothing.
module _ (fails : ArchiveStep → Bool) where
  abbrev pub remove_session : Session → Store → Outcome ArchiveStep (Unit {0}) × Store
  remove_session s st =
      if fails ArchiveStep.remove_all
      then (err ArchiveStep.remove_all, st)
      else (ok tt, record st { sessions = remove s.dir st.sessions })

  abbrev pub move_logs :
      Session → Text → MetadataFile → Bool → Store → Outcome ArchiveStep (Unit {0}) × Store
  move_logs s dst file false st = remove_session s st
  move_logs s dst file true st =
      if fails ArchiveStep.rename_logs
      then (err ArchiveStep.rename_logs, st)
      else remove_session s (
          put_archive dst (dir_with file true)
            (put_session s.dir (dir_with MetadataFile.absent false) st))

  abbrev pub move_metadata :
      Session → Text → SessionDir → Store → Outcome ArchiveStep (Unit {0}) × Store
  move_metadata s dst d st =
      let made = put_archive dst (dir_with MetadataFile.absent false) st in
      if is_absent d.file
      then (err ArchiveStep.rename_metadata, made)
      else if fails ArchiveStep.rename_metadata
      then (err ArchiveStep.rename_metadata, made)
      else move_logs s dst d.file d.has_logs (
          put_archive dst (dir_with d.file false)
            (put_session s.dir (dir_with MetadataFile.absent d.has_logs) made))

  abbrev pub dir_or_empty : Option SessionDir → SessionDir
  dir_or_empty none = dir_with MetadataFile.absent false
  dir_or_empty (some d) = d

  unfoldable pub archive : Store → Session → Outcome ArchiveStep (Unit {0}) × Store
  unfolding archive_name
  archive st s =
      let dst = archive_name (length st.archives) s.meta.slug 2 s.meta.slug st.archives in
      if fails ArchiveStep.make_dir
      then (err ArchiveStep.make_dir, st)
      else move_metadata s dst (dir_or_empty (lookup s.dir st.sessions)) st
