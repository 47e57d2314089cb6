-- ===== src/Session/Listed.antt =====
-- What List returns, and which session a command gets.
use interview_labs.Prelude.{
  ℕ, ◌≤◌, Text, Bool, Option, none, some, List, [], ◌∷◌, ◌≡◌, ◌↔◌, ◌⊎◌, inl, inr, refl, sym, ap,
  ◌∙◌, arith, Any, Bool-cases, Option-cases, if◌then◌else◌, map, text_eq, text_eq_iff,
}
use interview_labs.Prelude.Assoc.{Assoc, lookup}
use interview_labs.Session.Store.{
  MetadataFile, SessionDir, Store, Session, get, readable, before, insert_by_age, sort_by_age, list,
  read, add_read,
}

abbrev pub IsAmong : Session → List Session → Type 0
IsAmong s l = Any (λ x. x ≡ s) l

abbrev pub IsOldestFirst : List Session → Type 0
IsOldestFirst [] = Unit
IsOldestFirst (a ∷ []) = Unit
IsOldestFirst (a ∷ b ∷ l) = (a.meta.created_at ≤ b.meta.created_at) × IsOldestFirst (b ∷ l)

-- Every element of a sorted list is at least as young as what is put before it.
NotBefore : ℕ → List Session → Type 0
NotBefore t [] = Unit
NotBefore t (a ∷ l) = t ≤ a.meta.created_at

cons-IsOldestFirst :
    (a : Session) (l : List Session)
    → NotBefore a.meta.created_at l
    → IsOldestFirst l
    → IsOldestFirst (a ∷ l)
unfolding NotBefore
cons-IsOldestFirst a [] h k = tt
cons-IsOldestFirst a (b ∷ l) h k = (h, k)

tail-IsOldestFirst : (a : Session) (l : List Session) → IsOldestFirst (a ∷ l) → IsOldestFirst l
tail-IsOldestFirst a [] h = tt
tail-IsOldestFirst a (b ∷ l) h = h.1

head-NotBefore :
    (a : Session) (l : List Session) → IsOldestFirst (a ∷ l) → NotBefore a.meta.created_at l
unfolding NotBefore
head-NotBefore a [] h = tt
head-NotBefore a (b ∷ l) h = h.0

insert_by_age-NotBefore :
    (t : ℕ) (s : Session) (l : List Session)
    → t ≤ s.meta.created_at
    → NotBefore t l
    → NotBefore t (insert_by_age s l)
unfolding NotBefore
insert_by_age-NotBefore t s [] h k = h
insert_by_age-NotBefore t s (a ∷ l) h k = elim (Bool-cases (before a s)) [
  | inl e ↦ rw (e, if◌then◌else◌) k
  | inr e ↦ rw (e, if◌then◌else◌) h
]

insert_by_age-IsOldestFirst :
    (s : Session) (l : List Session) → IsOldestFirst l → IsOldestFirst (insert_by_age s l)
insert_by_age-IsOldestFirst s [] h = tt
insert_by_age-IsOldestFirst s (a ∷ l) h = elim (Bool-cases (before a s)) [
  | inl e ↦
      rw (e, if◌then◌else◌)
        (cons-IsOldestFirst a (insert_by_age s l)
          (insert_by_age-NotBefore _ s l (ground (arith, e)) (head-NotBefore a l h))
          (insert_by_age-IsOldestFirst s l (tail-IsOldestFirst a l h)))
  | inr e ↦ rw (e, if◌then◌else◌) (ground (arith, e), h)
]

sort_by_age-IsOldestFirst : (l : List Session) → IsOldestFirst (sort_by_age l)
unfolding sort_by_age
sort_by_age-IsOldestFirst [] = tt
sort_by_age-IsOldestFirst (s ∷ l) =
    insert_by_age-IsOldestFirst s (sort_by_age l) (sort_by_age-IsOldestFirst l)

through : {A B C D : Type 0} → (D ↔ (B ⊎ C)) → (A ⊎ D) ↔ (B ⊎ (A ⊎ C))
through h = (
  λ u. elim u [
    | inl a ↦ inr (inl a)
    | inr d ↦ elim (h.0 d) [ inl b ↦ inl b | inr c ↦ inr (inr c) ]
  ],
  λ v. elim v [
    | inl b ↦ inr (h.1 (inl b))
    | inr w ↦ elim w [ inl a ↦ inl a | inr c ↦ inr (h.1 (inr c)) ]
  ],
)

under : {B C D : Type 0} → (C ↔ D) → (B ⊎ C) ↔ (B ⊎ D)
under h = (
  λ u. elim u [ inl b ↦ inl b | inr c ↦ inr (h.0 c) ],
  λ v. elim v [ inl b ↦ inl b | inr d ↦ inr (h.1 d) ],
)

both : {A B C : Type 0} → (A ↔ B) → (B ↔ C) → A ↔ C
both h k = (λ a. k.0 (h.0 a), λ c. h.1 (k.1 c))

insert_by_age-IsAmong :
    (x s : Session) (l : List Session) → IsAmong x (insert_by_age s l) ↔ IsAmong x (s ∷ l)
insert_by_age-IsAmong x s [] = (λ h. h, λ h. h)
insert_by_age-IsAmong x s (a ∷ l) = elim (Bool-cases (before a s)) [
  | inl e ↦ rw (e, if◌then◌else◌) (through (insert_by_age-IsAmong x s l))
  | inr e ↦ rw (e, if◌then◌else◌) (λ h. h, λ h. h)
]

sort_by_age-IsAmong : (x : Session) (l : List Session) → IsAmong x (sort_by_age l) ↔ IsAmong x l
unfolding sort_by_age
sort_by_age-IsAmong x [] = (λ h. h, λ h. h)
sort_by_age-IsAmong x (s ∷ l) =
    both (insert_by_age-IsAmong x s (sort_by_age l)) (under (sort_by_age-IsAmong x l))

dir_or : Option Session → Text
dir_or none = []
dir_or (some s) = s.dir

dir-of :
    (n : Text) (f : MetadataFile) (b : Bool) (s : Session)
    → read n (some (record { file = f; has_logs = b })) ≡ some s
    → s.dir ≡ n
dir-of n MetadataFile.absent b s h = ground arith
dir-of n MetadataFile.broken b s h = ground arith
dir-of n (MetadataFile.holds m) b s h = unfold dir_or in ap dir_or (sym h)

dir-read : (n : Text) (o : Option SessionDir) (s : Session) → read n o ≡ some s → s.dir ≡ n
dir-read n none s h = ground arith
dir-read n (some d) s h = dir-of n d.file d.has_logs s h

pub dir-get : (st : Store) (n : Text) (s : Session) → get st n ≡ some s → s.dir ≡ n
unfolding get
dir-get st n s h = dir-read n (lookup n st.sessions) s h

pub get_again : (st : Store) (n : Text) (s : Session) → get st n ≡ some s → get st s.dir ≡ some s
get_again st n s h = ap (get st) (dir-get st n s h) ∙ h

-- Everything that is read is read back under its name.
readable-get :
    (st : Store) (x : Session) (names : List Text)
    → IsAmong x (readable st names)
    → get st x.dir ≡ some x
unfolding readable
readable-get st x [] h = elim h [ ]
readable-get st x (n ∷ names) h = elim (Option-cases (get st n)) [
  | inl e ↦ readable-get st x names (rw e at h)
  | inr (s, e) ↦ elim (rw e at h) [
    | inl q ↦ rw (sym q) (get_again st n s e)
    | inr k ↦ readable-get st x names k
  ]
]

later :
    (x : Session) (o : Option Session) (l : List Session) → IsAmong x l → IsAmong x (add_read o l)
later x none l h = h
later x (some s) l h = inr h

has_dir :
    (st : Store) (x : Session) (n : Text)
    → get st n ≡ some x
    → (d : SessionDir) × (lookup n st.sessions ≡ some d)
unfolding get
has_dir st x n h = elim (Option-cases (lookup n st.sessions)) [
  | inl e ↦ ground (arith, e, h)
  | inr k ↦ k
]

get-readable :
    (st : Store) (x : Session) (n : Text) (d : SessionDir) (m : Assoc SessionDir)
    → lookup n m ≡ some d
    → get st n ≡ some x
    → IsAmong x (readable st (map (λ (kv : Text × SessionDir). kv.0) m))
unfolding lookup readable
get-readable st x n d [] h g = ground arith
get-readable st x n d ((j, e) ∷ m) h g = elim (Bool-cases (text_eq j n)) [
  | inl q ↦ rw ((text_eq_iff j n).0 q, g) (inl refl)
  | inr q ↦ later x (get st j) _ (get-readable st x n d m (rw (q, if◌then◌else◌) at h) g)
]

pub list-IsAmong :
    (st : Store) (s : Session)
    → IsOldestFirst (list st) × (IsAmong s (list st) ↔ (get st s.dir ≡ some s))
unfolding list
list-IsAmong st s = (
  sort_by_age-IsOldestFirst (readable st (map (λ (kv : Text × SessionDir). kv.0) st.sessions)),
  both (sort_by_age-IsAmong s _)
      (readable-get st s _, λ g. get-readable st s s.dir _ st.sessions (has_dir st s s.dir g).1 g),
)
