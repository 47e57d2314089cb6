-- ===== src/Session/New.antt =====
-- internal/session/session.go, New, and slug.go: a session is made under a name that is free.
use interview_labs.Prelude.{
  ℕ, zero, suc, ◌+◌, ◌<◌, Text, Bool, true, false, ◌||◌, Option, none, some, [], ◌≡◌, ◌≢◌, refl,
  arith, if◌then◌else◌, Bool-cases, inl, inr,
}
use interview_labs.Prelude.Assoc.{Assoc, insert}
use interview_labs.Prelude.Outcome.{Outcome, ok, err}
use interview_labs.Session.Metadata.{Metadata, Status, Phase, TerraformInfo}
use interview_labs.Session.Store.{MetadataFile, Store, Session, get, exists, dir_with}

-- newSlug draws names until one is free; `draw n` is the n-th name that petname makes. On fuel.
unfoldable pub new_slug : (ℕ → Text) → (Text → Bool) → ℕ → ℕ → Option Text
new_slug draw taken zero n = none
new_slug draw taken (suc f) n =
    let next = new_slug draw taken f (suc n) in if taken (draw n) then next else some (draw n)

abbrev pub is_taken : Store → Text → Bool
is_taken st slug = exists slug st.sessions || exists slug st.archives

pub record Order : Type 0 where
  pub region : Text
  pub size : Text
  pub image : Text
  pub ssh_user : Text
  pub roles : Assoc Text
  pub terraform : TerraformInfo

pub data NewStep : Type 0 where
  draw_slug make_dirs save : NewStep

unfoldable pub new_meta : Order → Text → ℕ → Metadata
new_meta o slug now = record {
  schema = 2;
  slug = slug;
  created_at = now;
  region = o.region;
  size = o.size;
  image = o.image;
  profile = [];
  pack = [];
  bundle = [];
  kind = false;
  roles = some o.roles;
  ssh_user = o.ssh_user;
  terraform = o.terraform;
  ip = [];
  fqdn = [];
  ai_key_hash = [];
  ai_cap_usd = 0;
  gateway_password = [];
  url = [];
  status = Status.launching;
  phase = Phase.session;
}

abbrev put : Text → MetadataFile → Store → Store
put slug file st = record st { sessions = insert slug (dir_with file true) st.sessions }

-- New behind the slug. Making the directories, if it fails, is taken to change nothing; those of a
-- session that could not be saved stay.
unfoldable pub new_at :
    (NewStep → Bool) → Order → ℕ → Store → Option Text → Outcome NewStep Session × Store
unfolding new_meta
new_at fails o now st none = (err NewStep.draw_slug, st)
new_at fails o now st (some slug) =
    if fails NewStep.make_dirs
    then (err NewStep.make_dirs, st)
    else if fails NewStep.save
    then (err NewStep.save, put slug MetadataFile.absent st)
    else (
      ok (record { dir = slug; meta = new_meta o slug now }),
      put slug (MetadataFile.holds (new_meta o slug now)) st,
    )

unfoldable pub new_session :
    (ℕ → Text) → (NewStep → Bool) → Order → ℕ → ℕ → Store → Outcome NewStep Session × Store
unfolding new_at new_slug
new_session draw fails o now fuel st = new_at fails o now st (new_slug draw (is_taken st) fuel 0)

this_one :
    (draw : ℕ → Text) (taken : Text → Bool) (n : ℕ)
    → taken (draw (n + 0)) ≡ false
    → taken (draw n) ≡ false
this_one draw taken n h = rw (let q : n ≡ n + 0 = omega arith in q) h

one_on :
    (draw : ℕ → Text) (taken : Text → Bool) (n k : ℕ)
    → taken (draw (n + suc k)) ≡ false
    → taken (draw (suc n + k)) ≡ false
one_on draw taken n k h = rw (let q : suc n + k ≡ n + suc k = omega arith in q) h

new_slug-returns :
    (draw : ℕ → Text) (taken : Text → Bool) (f n k : ℕ)
    → taken (draw (n + k)) ≡ false
    → k < f
    → (slug : Text) × (new_slug draw taken f n ≡ some slug)
unfolding new_slug
new_slug-returns draw taken zero n k h l = ground arith
new_slug-returns draw taken (suc f) n zero h l = (draw n, rw (this_one draw taken n h) refl)
new_slug-returns draw taken (suc f) n (suc k) h l = elim (Bool-cases (taken (draw n))) [
  | inl e ↦
      (let (slug, q) =
          new_slug-returns draw taken f (suc n) k (one_on draw taken n k h) (omega (arith, l)) in
        (slug, rw e q))
  | inr e ↦ (draw n, rw e refl)
]

-- A session that New returned: its name was free, it is read back as it is, and no other session differs.
pub record IsNew (o : Order) (now : ℕ) (st st' : Store) (s : Session) : Type 0 where
  pub is_free : is_taken st s.dir ≡ false
  pub is_read : get st' s.dir ≡ some s
  pub others : (name : Text) → s.dir ≢ name → get st' name ≡ get st name
  pub archives : st'.archives ≡ st.archives
  pub meta : s.meta ≡ new_meta o s.dir now

module _ (draw : ℕ → Text) (fails : NewStep → Bool) (o : Order) (now fuel : ℕ) (st : Store) where
  from_zero : (k : ℕ) → is_taken st (draw k) ≡ false → is_taken st (draw (0 + k)) ≡ false
  from_zero k h = rw (let q : 0 + k ≡ k = omega arith in q) h

  -- New returns if none of its steps fails and a name that is free is drawn before the fuel ends.
  pub new_session-returns :
      (k : ℕ)
      → is_taken st (draw k) ≡ false
      → k < fuel
      → ((step : NewStep) → fails step ≡ false)
      → (s : Session) × ((new_session draw fails o now fuel st).0 ≡ ok s)
  unfolding new_session new_at
  new_session-returns k h l f =
      let (slug, q) = new_slug-returns draw (is_taken st) fuel 0 k (from_zero k h) l in
      (
        record { dir = slug; meta = new_meta o slug now },
        rw (q, f NewStep.make_dirs, f NewStep.save) refl,
      )
