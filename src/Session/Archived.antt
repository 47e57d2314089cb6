-- ===== src/Session/Archived.antt =====
-- What Archive leaves, whichever of its steps fails.
use interview_labs.Prelude.{
  ◌^◌, ◌<◌, Text, Bool, true, false, none, some, ◌≡◌, ◌≢◌, ◌⊎◌, inl, inr, refl, ◌∙◌, text_eq_refl,
  text_eq_ne, Bool-cases, if◌then◌else◌, length,
}
use interview_labs.Prelude.Assoc.{Assoc, lookup, insert, remove, lookup-insert, lookup-remove}
use interview_labs.Prelude.Outcome.{Outcome, ok, err}
use interview_labs.Session.Store.{
  MetadataFile, SessionDir, Store, Session, ArchiveStep, archive_name, dir_with, is_absent, archive,
  remove_session, move_logs, move_metadata, put_session, put_archive,
}
use interview_labs.Session.Names.{archive_name-is_free}

-- The file stands in the directory `name` of `m`.
abbrev pub Has : MetadataFile → Text → Assoc SessionDir → Type 0
Has file name m = (d : SessionDir) × (lookup name m ≡ some d) × (d.file ≡ file)

-- Nothing but the directory `s` of the sessions and the directory `dst` of the archive differs, and the
-- file is in one of the two.
pub record Moved (st : Store) (s dst : Text) (file : MetadataFile) (st' : Store) : Type 0 where
  pub archives : (name : Text) → dst ≢ name → lookup name st'.archives ≡ lookup name st.archives
  pub sessions : (name : Text) → s ≢ name → lookup name st'.sessions ≡ lookup name st.sessions
  pub kept : Has file s st'.sessions ⊎ Has file dst st'.archives

insert_same : {V : Type 0} (k : Text) (v : V) (m : Assoc V) → lookup k (insert k v m) ≡ some v
insert_same k v m = rw (lookup-insert, text_eq_refl) refl

insert_other :
    {V : Type 0} (k j : Text) (v : V) (m : Assoc V) → k ≢ j → lookup j (insert k v m) ≡ lookup j m
insert_other k j v m h = rw (lookup-insert, text_eq_ne k j h) refl

remove_other : {V : Type 0} (k j : Text) (m : Assoc V) → k ≢ j → lookup j (remove k m) ≡ lookup j m
remove_other k j m h = rw (lookup-remove, text_eq_ne k j h) refl

module _ {st : Store} {s dst : Text} {file : MetadataFile} where
  put_archive-Moved :
      (st' : Store) (d : SessionDir)
      → Moved st s dst file st'
      → Has file s st'.sessions ⊎ (d.file ≡ file)
      → Moved st s dst file (put_archive dst d st')
  put_archive-Moved st' d m k = record {
    archives = λ name h. insert_other dst name d st'.archives h ∙ m.archives name h;
    sessions = m.sessions;
    kept = elim k [ inl h ↦ inl h | inr e ↦ inr (d, insert_same dst d st'.archives, e) ];
  }

  put_session-Moved :
      (st' : Store) (d : SessionDir)
      → Moved st s dst file st'
      → (d.file ≡ file) ⊎ Has file dst st'.archives
      → Moved st s dst file (put_session s d st')
  put_session-Moved st' d m k = record {
    archives = m.archives;
    sessions = λ name h. insert_other s name d st'.sessions h ∙ m.sessions name h;
    kept = elim k [ inl e ↦ inl (d, insert_same s d st'.sessions, e) | inr h ↦ inr h ];
  }

-- The archive that returned took the directory as it was, and its place is gone.
pub record Took (st : Store) (s dst : Text) (d : SessionDir) (st' : Store) : Type 0 where
  pub moved : Moved st s dst d.file st'
  pub is_gone : lookup s st'.sessions ≡ none
  pub is_there : lookup dst st'.archives ≡ some d

pub Ends : Store → Text → Text → SessionDir → Outcome ArchiveStep (Unit {0}) → Store → Type 0
Ends st s dst d (ok u) st' = Took st s dst d st'
Ends st s dst d (err e) st' = Moved st s dst d.file st'

module _ (fails : ArchiveStep → Bool) (st : Store) (s : Session) (dst : Text) (d : SessionDir) where
  Ended : Outcome ArchiveStep (Unit {0}) × Store → Type 0
  Ended (r, st') = Ends st s.dir dst d r st'

  remove_session-Ended :
      (st' : Store)
      → Moved st s.dir dst d.file st'
      → lookup dst st'.archives ≡ some d
      → Ended (remove_session fails s st')
  unfolding Ended Ends
  remove_session-Ended st' m e = elim (Bool-cases (fails ArchiveStep.remove_all)) [
    | inl q ↦ rw (q, if◌then◌else◌) m
    | inr q ↦
        rw (q, if◌then◌else◌)
          (record {
            moved = record {
              archives = m.archives;
              sessions = λ name h. remove_other s.dir name st'.sessions h ∙ m.sessions name h;
              kept = inr (d, e, refl);
            };
            is_gone = rw (lookup-remove, text_eq_refl) refl;
            is_there = e;
          })
  ]

module _ (fails : ArchiveStep → Bool) (st : Store) (s : Session) (dst : Text)
    (file : MetadataFile) where
  move_logs-Ended :
      (has_logs : Bool) (st' : Store)
      → Moved st s.dir dst file st'
      → lookup dst st'.archives ≡ some (dir_with file false)
      → Ended fails st s dst (dir_with file has_logs) (move_logs fails s dst file has_logs st')
  move_logs-Ended false st' m e = remove_session-Ended fails st s dst (dir_with file false) st' m e
  move_logs-Ended true st' m e = elim (Bool-cases (fails ArchiveStep.rename_logs)) [
    | inl q ↦ rw (q, if◌then◌else◌) (unfold Ended Ends in m)
    | inr q ↦
        rw (q, if◌then◌else◌)
          (remove_session-Ended fails st s dst (dir_with file true)
            (put_archive dst (dir_with file true)
              (put_session s.dir (dir_with MetadataFile.absent false) st'))
            (put_archive-Moved _ _ (put_session-Moved _ _ m (inr (dir_with file false, e, refl)))
              (inr refl))
            (insert_same dst _ _))
  ]

  made : Store
  made = put_archive dst (dir_with MetadataFile.absent false) st

  move_metadata-Ended :
      (has_logs : Bool)
      → Moved st s.dir dst file st
      → Has file s.dir st.sessions
      → Ended fails st s dst
          (dir_with file has_logs)
          (move_metadata fails s dst (dir_with file has_logs) st)
  unfolding made
  move_metadata-Ended has_logs m h = elim (Bool-cases (is_absent file)) [
    | inl q ↦ rw (q, if◌then◌else◌) (unfold Ended Ends in (put_archive-Moved st _ m (inl h)))
    | inr q ↦ elim (Bool-cases (fails ArchiveStep.rename_metadata)) [
      | inl q' ↦ rw (q, q', if◌then◌else◌) (unfold Ended Ends in (put_archive-Moved st _ m (inl h)))
      | inr q' ↦
          rw (q, q', if◌then◌else◌)
            (move_logs-Ended has_logs _
              (put_session-Moved (put_archive dst (dir_with file false) made) _
                (put_archive-Moved made _ (put_archive-Moved st _ m (inl h)) (inr refl))
                (inr (dir_with file false, insert_same dst _ _, refl)))
              (insert_same dst _ _))
    ]
  ]

-- The name in the archive that Archive chooses.
abbrev pub place : Store → Session → Text
place st s = archive_name (length st.archives) s.meta.slug 2 s.meta.slug st.archives

module _ (fails : ArchiveStep → Bool) (st : Store) (s : Session) (d : SessionDir) where
  unmoved : lookup s.dir st.sessions ≡ some d → Moved st s.dir (place st s) d.file st
  unmoved e = record {
    archives = λ name h. refl;
    sessions = λ name h. refl;
    kept = inl (d, e, refl);
  }

  move_logs-returns :
      (dst : Text) (file : MetadataFile) (has_logs : Bool) (st' : Store)
      → ((step : ArchiveStep) → fails step ≡ false)
      → (move_logs fails s dst file has_logs st').0 ≡ ok tt
  move_logs-returns dst file false st' h = rw (h ArchiveStep.remove_all) refl
  move_logs-returns dst file true st' h =
      rw (h ArchiveStep.rename_logs, h ArchiveStep.remove_all) refl

  -- Archiving a session that stands in the store, with fewer than 2^62 archives there, takes a name that
  -- no archive has. Whichever steps fail, no other session and no other archive changes, and
  -- metadata.json is still in the session's directory or in the new archive. If it returns, the
  -- session's directory is gone and the archive has its metadata and its logs.
  pub archive-Ends :
      length st.archives < 2 ^ 62
      → lookup s.dir st.sessions ≡ some d
      → (lookup (place st s) st.archives ≡ none)
        × Ends st s.dir (place st s) d (archive fails st s).0 (archive fails st s).1
  unfolding archive Ended
  archive-Ends n e = (
    archive_name-is_free s.meta.slug st.archives n,
    elim (Bool-cases (fails ArchiveStep.make_dir)) [
      | inl q ↦ rw (q, if◌then◌else◌) (unfold Ends in unmoved e)
      | inr q ↦
          rw (q, if◌then◌else◌, e)
            (move_metadata-Ended fails st s (place st s) d.file d.has_logs (unmoved e) (d, e, refl))
    ],
  )

  -- Archiving a session that stands in the store with its metadata.json returns if no step fails.
  pub archive-returns :
      lookup s.dir st.sessions ≡ some d
      → is_absent d.file ≡ false
      → ((step : ArchiveStep) → fails step ≡ false)
      → (archive fails st s).0 ≡ ok tt
  unfolding archive
  archive-returns e a h =
      rw (h ArchiveStep.make_dir, e, a, h ArchiveStep.rename_metadata) (move_logs-returns _ _ _ _ h)
