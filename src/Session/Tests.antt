-- ===== src/Session/Tests.antt =====
-- A store of two sessions and an archive.
use interview_labs.Prelude.{
  ℕ, Text, codes, Bool, true, false, none, [], ◌∷◌, ◌≡◌, refl, arith, text_eq, ◌==◌, if◌then◌else◌,
}
use interview_labs.Prelude.Assoc.{lookup}
use interview_labs.Prelude.Outcome.{ok}
use interview_labs.Decimal.{format_int, digits}
use interview_labs.Session.Metadata.{migrate}
use interview_labs.Session.Store.{
  MetadataFile, SessionDir, Store, Session, ArchiveStep, dir_with, archive, archive_name, get, list,
  readable, sort_by_age,
}
use interview_labs.Session.Archived.{place, Ends, archive-Ends}
use interview_labs.Session.New.{Order, new_meta, new_session, new_session-returns}

abbrev order : Order
order = record {
  region = codes "fra1";
  size = codes "s";
  image = codes "ubuntu";
  ssh_user = codes "root";
  roles = (codes "vm", codes "digitalocean") ∷ [];
  terraform = record { binary = codes "tofu"; version = codes "1" };
}

abbrev old : Session
old = record { dir = codes "red-fox"; meta = new_meta order (codes "red-fox") 5 }

abbrev young : Session
young = record { dir = codes "big-owl"; meta = new_meta order (codes "big-owl") 9 }

abbrev lost : SessionDir
lost = dir_with MetadataFile.broken true

abbrev fox : SessionDir
fox = dir_with (MetadataFile.holds old.meta) true

abbrev store : Store
store = record {
  sessions =
      (codes "big-owl", dir_with (MetadataFile.holds young.meta) true)
      ∷ (codes "bad-cat", lost)
      ∷ (codes "red-fox", fox)
      ∷ [];
  archives = (codes "red-fox", lost) ∷ [];
}

abbrev no_failure : {A : Type 0} → A → Bool
no_failure step = false

abbrev full_disk : ArchiveStep → Bool
full_disk ArchiveStep.rename_logs = true
full_disk _ = false

abbrev names : ℕ → Text
names n = if n == 0 then codes "red-fox" else codes "new-elk"

second_name : place store old ≡ codes "red-fox-2"
unfolding archive_name lookup text_eq format_int digits new_meta
second_name = refl

archive-Ends_example :
    (lookup (place store old) store.archives ≡ none)
    × Ends store old.dir
        (place store old)
        fox
        (archive full_disk store old).0
        (archive full_disk store old).1
archive-Ends_example =
    archive-Ends full_disk store old fox (omega arith) (unfold lookup text_eq in refl)

listed : list store ≡ old ∷ young ∷ []
unfolding list readable sort_by_age get lookup text_eq new_meta migrate
listed = refl

abbrev elk : Session
elk = record { dir = codes "new-elk"; meta = new_meta order (codes "new-elk") 20 }

new_session-returns_example :
    (s : Session) × ((new_session names no_failure order 20 3 store).0 ≡ ok s)
new_session-returns_example =
    new_session-returns names no_failure order 20 3 store 1 (unfold lookup text_eq in refl)
      (omega arith) (λ step. refl)
