-- ===== src/Terraform/Env.antt =====
-- What a program that terraform's environment is given to reads in it.
use interview_labs.Prelude.{
  Text, codes, Bool, true, false, ◌||◌, not, Option, none, some, List, [], ◌∷◌, ◌++◌, if◌then◌else◌,
  text_eq, text_eq_iff, one_of, ◌≡◌, refl, arith, Bool-cases, inl, inr, ◌==◌, all, ◌∙◌,
}
use interview_labs.Prelude.Assoc.{Assoc, lookup, insert, lookup-insert, IsDistinct}
use interview_labs.Terraform.{
  text_lt, insert_text, sort_texts, or_empty, setting, cred_lines, keys_of, run_env, put_all,
  merge_creds,
}

-- The value of an entry `k=v`, if it is one of `k`.
abbrev pub value_of : Text → Text → Option Text
value_of [] [] = none
value_of [] (c ∷ s) = if c == b'=' then some s else none
value_of (d ∷ k) [] = none
value_of (d ∷ k) (c ∷ s) = let rest = value_of k s in if c == d then rest else none

abbrev pub or_else : {A : Type 0} → Option A → Option A → Option A
or_else none o = o
or_else (some a) o = some a

-- The variable in a child's environment, where the last entry for a key counts (os/exec).
unfoldable pub getenv : List Text → Text → Option Text
getenv [] k = none
getenv (e ∷ es) k = or_else (getenv es k) (value_of k e)

-- A name that can stand before the equals sign.
abbrev pub is_name : Text → Bool
is_name k = all (λ c. not (c == b'=')) k

value_of-setting :
    (k j v : Text)
    → is_name k ≡ true
    → is_name j ≡ true
    → value_of k (setting j v) ≡ (if text_eq j k then some v else none)
unfolding text_eq
value_of-setting [] [] v hk hj = ground arith
value_of-setting [] (c ∷ j) v hk hj = ground arith
value_of-setting (d ∷ k) [] v hk hj = ground arith
value_of-setting (d ∷ k) (c ∷ j) v hk hj = ground (arith, value_of-setting k j v)

getenv-append :
    (es fs : List Text) (k : Text) → getenv (es ++ fs) k ≡ or_else (getenv fs k) (getenv es k)
unfolding getenv
getenv-append [] fs k = ground arith
getenv-append (e ∷ es) fs k = ground (arith, getenv-append es fs k)

one_of-insert_text : (k x : Text) (ks : List Text) → one_of (insert_text x ks) k ≡ one_of (x ∷ ks) k
unfolding one_of
one_of-insert_text k x [] = refl
one_of-insert_text k x (j ∷ js) = ground (arith, one_of-insert_text k x js)

one_of-sort_texts : (k : Text) (ks : List Text) → one_of (sort_texts ks) k ≡ one_of ks k
unfolding sort_texts one_of
one_of-sort_texts k [] = refl
one_of-sort_texts k (x ∷ ks) =
    ground (arith, one_of-insert_text k x (sort_texts ks), one_of-sort_texts k ks)

-- Every key of the credentials is a name.
abbrev pub AreNames : List Text → Type 0
AreNames [] = Unit
AreNames (k ∷ ks) = (is_name k ≡ true) × AreNames ks

AreNames-insert_text :
    (k : Text) (ks : List Text) → is_name k ≡ true → AreNames ks → AreNames (insert_text k ks)
AreNames-insert_text k [] hk h = (hk, tt)
AreNames-insert_text k (j ∷ js) hk (hj, h) = elim (Bool-cases (text_lt j k)) [
  | inl e ↦ rw e (hj, AreNames-insert_text k js hk h)
  | inr e ↦ rw e (hk, (hj, h))
]

AreNames-sort_texts : (ks : List Text) → AreNames ks → AreNames (sort_texts ks)
unfolding sort_texts
AreNames-sort_texts [] h = tt
AreNames-sort_texts (k ∷ ks) (hk, h) =
    AreNames-insert_text k (sort_texts ks) hk (AreNames-sort_texts ks h)

getenv-cred_lines :
    (creds : Assoc Text) (ks : List Text) (k : Text)
    → AreNames ks
    → is_name k ≡ true
    → getenv (cred_lines creds ks) k
      ≡ (if one_of ks k then some (or_empty (lookup k creds)) else none)
unfolding getenv one_of
getenv-cred_lines creds [] k h hk = refl
getenv-cred_lines creds (j ∷ js) k (hj, h) hk = ground (
  arith,
  getenv-cred_lines creds js k h hk,
  value_of-setting k j (or_empty (lookup j creds)) hk hj,
  text_eq_iff j k,
)

lookup-one_of :
    (creds : Assoc Text) (k : Text)
    → (if one_of (keys_of creds) k then some (or_empty (lookup k creds)) else none) ≡ lookup k creds
unfolding lookup one_of
lookup-one_of [] k = refl
lookup-one_of ((j, v) ∷ m) k = ground (arith, lookup-one_of m k)

getenv-creds :
    (creds : Assoc Text) (k : Text)
    → AreNames (keys_of creds)
    → is_name k ≡ true
    → getenv (cred_lines creds (sort_texts (keys_of creds))) k ≡ lookup k creds
getenv-creds creds k h hk =
    getenv-cred_lines creds (sort_texts (keys_of creds)) k (AreNames-sort_texts _ h) hk
    ∙ (rw (one_of-sort_texts k (keys_of creds)) (lookup-one_of creds k))

abbrev own : Text → List Text
own cache =
    setting (codes "TF_PLUGIN_CACHE_DIR") cache
    ∷ setting (codes "TF_IN_AUTOMATION") (codes "1")
    ∷ []

-- The two variables that terraform itself is given.
abbrev pub is_own : Text → Bool
is_own k = text_eq (codes "TF_PLUGIN_CACHE_DIR") k || text_eq (codes "TF_IN_AUTOMATION") k

getenv-own : (cache k : Text) → is_name k ≡ true → is_own k ≡ false → getenv (own cache) k ≡ none
unfolding getenv
getenv-own cache k hk h = ground (
  arith,
  value_of-setting k (codes "TF_PLUGIN_CACHE_DIR") cache hk refl,
  value_of-setting k (codes "TF_IN_AUTOMATION") (codes "1") hk refl,
)

lookup-none : (k : Text) → lookup {V = Text} k [] ≡ none
unfolding lookup
lookup-none k = refl

lookup-put_all :
    (m out : Assoc Text) (k : Text)
    → IsDistinct m
    → lookup k (put_all out m) ≡ or_else (lookup k m) (lookup k out)
unfolding lookup
lookup-put_all [] out k d = refl
lookup-put_all ((j, v) ∷ m) out k (e, d) =
    ground (arith, lookup-put_all m (insert j v out) k d, lookup-insert j k v out, text_eq_iff j k)

AreNames-insert :
    (k v : Text) (m : Assoc Text)
    → is_name k ≡ true
    → AreNames (keys_of m)
    → AreNames (keys_of (insert k v m))
unfolding insert
AreNames-insert k v [] hk h = (hk, tt)
AreNames-insert k v ((j, w) ∷ m) hk (hj, h) = elim (Bool-cases (text_eq j k)) [
  | inl e ↦ rw (e, insert) (hk, h)
  | inr e ↦ rw (e, insert) (hj, AreNames-insert k v m hk h)
]

AreNames-put_all :
    (m out : Assoc Text)
    → AreNames (keys_of m)
    → AreNames (keys_of out)
    → AreNames (keys_of (put_all out m))
AreNames-put_all [] out h ho = ho
AreNames-put_all ((k, v) ∷ m) out (hk, h) ho =
    AreNames-put_all m (insert k v out) h (AreNames-insert k v out hk ho)

-- A map of credentials: each key has one entry, and is a name.
abbrev pub AreCreds : Assoc Text → Type 0
AreCreds m = IsDistinct m × AreNames (keys_of m)

pub AreNames-merge_creds :
    (a b : Assoc Text) → AreCreds a → AreCreds b → AreNames (keys_of (merge_creds (a ∷ b ∷ []) []))
unfolding merge_creds
AreNames-merge_creds a b (_, ha) (_, hb) =
    AreNames-put_all b (put_all [] a) hb (AreNames-put_all a [] ha tt)

pub lookup-merge_creds :
    (a b : Assoc Text) (k : Text)
    → AreCreds a
    → AreCreds b
    → lookup k (merge_creds (a ∷ b ∷ []) []) ≡ or_else (lookup k b) (lookup k a)
unfolding merge_creds
lookup-merge_creds a b k (ha, _) (hb, _) =
    ground (arith, lookup-put_all b (put_all [] a) k hb, lookup-put_all a [] k ha, lookup-none k)

pub getenv-run_env :
    (creds : Assoc Text) (cache : Text) (environ : List Text) (k : Text)
    → AreNames (keys_of creds)
    → is_name k ≡ true
    → is_own k ≡ false
    → getenv (run_env creds cache environ) k ≡ or_else (lookup k creds) (getenv environ k)
unfolding run_env
getenv-run_env creds cache environ k h hk n = ground (
  arith,
  getenv-append environ (cred_lines creds (sort_texts (keys_of creds)) ++ own cache) k,
  getenv-append (cred_lines creds (sort_texts (keys_of creds))) (own cache) k,
  getenv-own cache k hk n,
  getenv-creds creds k h hk,
)
