-- ===== src/Terraform.antt =====
-- internal/terraform: find.go, which looks for the program, and runner.go, the environment it runs
-- in. What is on PATH and what the program prints are parameters.
pub mod Env
pub mod Tests
use interview_labs.Prelude.{
  Text, codes, Bool, true, false, ◌||◌, not, Option, none, some, List, [], ◌∷◌, ◌++◌, if◌then◌else◌,
  text_eq, one_of, map, ltb, ◌==◌,
}
use interview_labs.Prelude.Assoc.{Assoc, lookup, insert}
use interview_labs.Prelude.Outcome.{Outcome, ok, err, ◌>>=◌, expect}

pub record Binary : Type 0 where
  pub name : Text
  pub path : Text
  pub version : Text

-- exec.LookPath, what `version -json` prints, and the version that it holds.
pub record Programs : Type 0 where
  pub look_path : Text → Option Text
  pub version_output : Text → Option Text
  pub parse_version : Text → Option Text

pub data FindError : Type 0 where
  not_on_path bad_version bad_json : Text → FindError
  neither : FindError

module _ (on : Programs) where
  unfoldable pub find_named : Text → Outcome FindError Binary
  find_named name = do
    path ← expect (on.look_path name) (FindError.not_on_path name)
    out ← expect (on.version_output path) (FindError.bad_version name)
    v ← expect (on.parse_version out) (FindError.bad_json name)
    ok (record { name = name; path = path; version = v })

  abbrev first_found : List Text → Outcome FindError Binary
  first_found [] = err FindError.neither
  first_found (name ∷ names) = elim (find_named name) [ ok b ↦ ok b | err e ↦ first_found names ]

  unfoldable pub find : Outcome FindError Binary
  find = first_found (codes "terraform" ∷ codes "tofu" ∷ [])

-- The order of Go strings, byte by byte.
unfoldable pub text_lt : Text → Text → Bool
text_lt s [] = false
text_lt [] (d ∷ t) = true
text_lt (c ∷ s) (d ∷ t) = if c == d then text_lt s t else ltb c d

abbrev pub insert_text : Text → List Text → List Text
insert_text k [] = k ∷ []
insert_text k (j ∷ js) = let rest = insert_text k js in if text_lt j k then j ∷ rest else k ∷ j ∷ js

-- sort.Strings
unfoldable pub sort_texts : List Text → List Text
sort_texts [] = []
sort_texts (k ∷ ks) = insert_text k (sort_texts ks)

-- A missing key of a map reads as the empty string.
abbrev pub or_empty : Option Text → Text
or_empty none = []
or_empty (some v) = v

abbrev pub setting : Text → Text → Text
setting k v = k ++ b'=' ∷ v

abbrev pub cred_lines : Assoc Text → List Text → List Text
cred_lines creds [] = []
cred_lines creds (k ∷ ks) = setting k (or_empty (lookup k creds)) ∷ cred_lines creds ks

abbrev pub keys_of : Assoc Text → List Text
keys_of creds = map (λ (kv : Text × Text). kv.0) creds

-- The environment of this process, then the credentials in the order of their keys, then two more.
unfoldable pub run_env : Assoc Text → Text → List Text → List Text
run_env creds plugin_cache environ =
    environ
    ++ (cred_lines creds (sort_texts (keys_of creds))
        ++ (setting (codes "TF_PLUGIN_CACHE_DIR") plugin_cache
            ∷ setting (codes "TF_IN_AUTOMATION") (codes "1")
            ∷ []))

-- The inner loop of mergeCreds (cli/launch.go): later maps win.
abbrev pub put_all : Assoc Text → Assoc Text → Assoc Text
put_all out [] = out
put_all out ((k, v) ∷ m) = put_all (insert k v out) m

unfoldable pub merge_creds : List (Assoc Text) → Assoc Text → Assoc Text
merge_creds [] out = out
merge_creds (m ∷ ms) out = merge_creds ms (put_all out m)
