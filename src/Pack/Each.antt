-- ===== src/Pack/Each.antt =====
-- The loop over the directories of a directory: when it returns, and what.
use interview_labs.Prelude.{
  Text, some, List, [], ◌∷◌, if◌then◌else◌, map, All, ◌≡◌, ◌≢◌, refl, sym, arith, Bool-cases, inl,
  inr,
}
use interview_labs.Prelude.Outcome.{Outcome, ok, >>=-ok, ok-injective, expect, expect-ok}
use interview_labs.Pack.Load.{DirEntry, FileSystem, LoadError, cons, load_each, load_dir, non_empty}

-- The directories among the entries.
abbrev pub dirs : List DirEntry → List Text
dirs [] = []
dirs (e ∷ es) = let rest = dirs es in if e.is_dir then e.name ∷ rest else rest

-- Two lists of one length, each element related to the one at its place.
abbrev Pairs : {A B : Type 0} → (A → B → Type 0) → List A → List B → Type 0
Pairs R [] [] = Unit
Pairs R (a ∷ xs) (b ∷ ys) = R a b × Pairs R xs ys
Pairs R _ _ = ⊥

Pairs-cons :
    {A : Type 0} (R : Text → A → Type 0) (n : Text) (ns : List Text) (m : Outcome LoadError A)
    (rest : Outcome LoadError (List A)) (out : List A)
    → ((a : A) → m ≡ ok a → R n a)
    → ((os : List A) → rest ≡ ok os → Pairs R ns os)
    → cons m rest ≡ ok out
    → Pairs R (n ∷ ns) out
Pairs-cons R n ns m rest out h hs e =
    let (a, ea, k) = >>=-ok m _ out e in
    let (os, eos, k') = >>=-ok rest _ out k in rw (sym (ok-injective _ _ k')) (h a ea, hs os eos)

load_each-Pairs :
    {A : Type 0} (f : Text → Outcome LoadError A) (es : List DirEntry) (out : List A)
    → load_each f es ≡ ok out
    → Pairs (λ n a. f n ≡ ok a) (dirs es) out
unfolding load_each
load_each-Pairs f [] [] h = tt
load_each-Pairs f [] (a ∷ out) h = ground arith
load_each-Pairs f (e ∷ es) out h = elim (Bool-cases e.is_dir) [
  | inl d ↦
      rw (d, load_each) (Pairs-cons _ _ _ _ _ out (λ a e. e) (load_each-Pairs f es) (rw d at h))
  | inr d ↦ rw d (load_each-Pairs f es out (rw d at h))
]

-- A value that the call returns.
abbrev pub Returns : {A : Type 0} → Outcome LoadError A → Type 0
Returns {A} m = (a : A) × (m ≡ ok a)

All-Pairs :
    {A : Type 0} (P : Text → Type 0) (R : Text → A → Type 0) (ns : List Text) (out : List A)
    → ((n : Text) (a : A) → R n a → P n)
    → Pairs R ns out
    → All P ns
All-Pairs P R [] [] h p = tt
All-Pairs P R (n ∷ ns) (a ∷ out) h (r, p) = (h n a r, All-Pairs P R ns out h p)
All-Pairs P R [] (a ∷ out) h p = elim p [ ]
All-Pairs P R (n ∷ ns) [] h p = elim p [ ]

All-load_each :
    {A : Type 0} (f : Text → Outcome LoadError A) (es : List DirEntry)
    → All (λ n. Returns (f n)) (dirs es)
    → Returns (load_each f es)
unfolding load_each
All-load_each f [] h = ([], refl)
All-load_each f (e ∷ es) h = elim (Bool-cases e.is_dir) [
  | inl d ↦
      (let ((a, ea), hs) = rw d at h in
        let (out, eo) = All-load_each f es hs in (a ∷ out, rw (d, ea, eo) refl))
  | inr d ↦ (let (out, eo) = All-load_each f es (rw d at h) in (out, rw d eo))
]

-- A directory with at least one directory in it, each with the property.
pub record Holds (fs : FileSystem) (P : Text → Type 0) (dir : Text) : Type 0 where
  pub entries : List DirEntry
  pub is_read : fs.read_dir dir ≡ some entries
  pub has_some : dirs entries ≢ []
  pub each : All P (dirs entries)

All-weaken :
    {P Q : Text → Type 0} → ((n : Text) → P n → Q n) → (ns : List Text) → All P ns → All Q ns
All-weaken f [] h = tt
All-weaken f (n ∷ ns) (h, hs) = (f n h, All-weaken f ns hs)

pub Holds-weaken :
    {P Q : Text → Type 0} {fs : FileSystem} {dir : Text}
    → ((n : Text) → P n → Q n)
    → Holds fs P dir
    → Holds fs Q dir
Holds-weaken f h = record {
  entries = h.entries;
  is_read = h.is_read;
  has_some = h.has_some;
  each = All-weaken f _ h.each;
}

-- What a directory's loop returned: one result for each directory in it, at its place.
pub record IsRead {A : Type 0} (fs : FileSystem) (R : Text → A → Type 0) (dir : Text) (out : List A)
    : Type 0 where
  pub entries : List DirEntry
  pub is_read : fs.read_dir dir ≡ some entries
  pub has_some : out ≢ []
  pub pairs : Pairs R (dirs entries) out

non_empty-ok :
    {A : Type 0} (l out : List A) (e : LoadError) → non_empty l e ≡ ok out → (l ≡ out) × (out ≢ [])
non_empty-ok [] out e h = ground arith
non_empty-ok (a ∷ l) out e h = ground arith

non_empty-keeps : {A : Type 0} (out : List A) (e : LoadError) → out ≢ [] → non_empty out e ≡ ok out
non_empty-keeps [] e h = elim (h refl) [ ]
non_empty-keeps (a ∷ out) e h = refl

Pairs-non_empty :
    {A : Type 0} (R : Text → A → Type 0) (ns : List Text) (out : List A)
    → Pairs R ns out
    → ns ≢ []
    → out ≢ []
Pairs-non_empty R [] out p h = elim (h refl) [ ]
Pairs-non_empty R (n ∷ ns) [] p h = elim p [ ]
Pairs-non_empty R (n ∷ ns) (a ∷ out) p h = ground arith

-- The directory holds directories of these names, in this order.
pub record Lists (fs : FileSystem) (dir : Text) (names : List Text) : Type 0 where
  pub entries : List DirEntry
  pub is_read : fs.read_dir dir ≡ some entries
  pub are_dirs : names ≡ dirs entries

map-Pairs :
    {A : Type 0} (R : Text → A → Type 0) (g : A → Text) (ns : List Text) (out : List A)
    → ((n : Text) (a : A) → R n a → g a ≡ n)
    → Pairs R ns out
    → map g out ≡ ns
map-Pairs R g [] [] h p = refl
map-Pairs R g (n ∷ ns) (a ∷ out) h (r, p) = rw (h n a r, map-Pairs R g ns out h p) refl
map-Pairs R g [] (a ∷ out) h p = elim p [ ]
map-Pairs R g (n ∷ ns) [] h p = elim p [ ]

Pairs-All :
    {A : Type 0} (R : Text → A → Type 0) (Q : A → Type 0) (ns : List Text) (out : List A)
    → ((n : Text) (a : A) → R n a → Q a)
    → Pairs R ns out
    → All Q out
Pairs-All R Q [] [] h p = tt
Pairs-All R Q (n ∷ ns) (a ∷ out) h (r, p) = (h n a r, Pairs-All R Q ns out h p)
Pairs-All R Q [] (a ∷ out) h p = elim p [ ]
Pairs-All R Q (n ∷ ns) [] h p = elim p [ ]

Pairs-some :
    {A : Type 0} (R : Text → A → Type 0) (ns : List Text) (out : List A)
    → Pairs R ns out
    → out ≢ []
    → ns ≢ []
Pairs-some R ns [] p h = elim (h refl) [ ]
Pairs-some R [] (a ∷ out) p h = elim p [ ]
Pairs-some R (n ∷ ns) (a ∷ out) p h = ground arith

module _ {A : Type 0} {fs : FileSystem} {R : Text → A → Type 0} {dir : Text} {out : List A} where
  pub IsRead-Holds :
      (P : Text → Type 0)
      → ((n : Text) (a : A) → R n a → P n)
      → IsRead fs R dir out
      → Holds fs P dir
  IsRead-Holds P h r = record {
    entries = r.entries;
    is_read = r.is_read;
    has_some = Pairs-some R _ out r.pairs r.has_some;
    each = All-Pairs P R _ out h r.pairs;
  }

  pub IsRead-Lists :
      (g : A → Text)
      → ((n : Text) (a : A) → R n a → g a ≡ n)
      → IsRead fs R dir out
      → Lists fs dir (map g out)
  IsRead-Lists g h r = record {
    entries = r.entries;
    is_read = r.is_read;
    are_dirs = map-Pairs R g _ out h r.pairs;
  }

  pub IsRead-All :
      (Q : A → Type 0) → ((n : Text) (a : A) → R n a → Q a) → IsRead fs R dir out → All Q out
  IsRead-All Q h r = Pairs-All R Q _ out h r.pairs

module _ {A : Type 0} (fs : FileSystem) (dir : Text) (e1 e2 : LoadError)
    (f : Text → Outcome LoadError A) where
  pub load_dir-IsRead :
      (out : List A) → load_dir fs dir e1 e2 f ≡ ok out → IsRead fs (λ n a. f n ≡ ok a) dir out
  unfolding load_dir
  load_dir-IsRead out h =
      let (es, i1, k1) = >>=-ok (expect (fs.read_dir dir) e1) _ out h in
      let (l, i2, k2) = >>=-ok (load_each f es) _ out k1 in
      let (q, n) = non_empty-ok l out e2 k2 in
      record {
        entries = es;
        is_read = expect-ok _ e1 es i1;
        has_some = n;
        pairs = load_each-Pairs f es out (rw q at i2);
      }

  pub Holds-load_dir : Holds fs (λ n. Returns (f n)) dir → Returns (load_dir fs dir e1 e2 f)
  unfolding load_dir
  Holds-load_dir h =
      let (out, e) = All-load_each f h.entries h.each in
      (
        out,
        rw (h.is_read, e)
            (non_empty-keeps out e2 (
              Pairs-non_empty _ (dirs h.entries) out (load_each-Pairs f h.entries out e)
                h.has_some)),
      )
