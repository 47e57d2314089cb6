-- ===== src/Stack.antt =====
-- internal/stack: the commands that are sent to the session's machine, the environment that they
-- source from stdin, and the compose override.
pub mod Shell
pub mod Sourced
pub mod Tests
use interview_labs.Prelude.{
  ℕ, Text, codes, Bool, true, false, ◌&&◌, ◌||◌, ◌==◌, ltb, Option, none, some, List, [], ◌∷◌, ◌++◌,
  if◌then◌else◌, map, concat,
}
use interview_labs.Prelude.Assoc.{Assoc, lookup}

abbrev pub remote_dir : Text
remote_dir = codes "/opt/interview"

unfoldable pub compose_up_cmd : Text → Bool → Text
compose_up_cmd slug with_override = concat (
    codes "cd "
    ∷ remote_dir
    ∷ codes "/docker && set -a && . /dev/stdin && set +a && "
    ∷ codes "docker compose "
    ∷ (if with_override then codes "-f compose.yaml -f override.yaml " else [])
    ∷ codes "-p interview-"
    ∷ slug
    ∷ codes " up -d --wait"
    ∷ [])

unfoldable pub push_cmd : Text → Text
push_cmd name = concat (
    codes "mkdir -p "
    ∷ remote_dir
    ∷ codes "/docker && cat > "
    ∷ remote_dir
    ∷ codes "/docker/"
    ∷ name
    ∷ [])

unfoldable pub push_payload_cmd : Text
push_payload_cmd = concat (
    codes "mkdir -p "
    ∷ remote_dir
    ∷ codes "/docker && tar -xf - -C "
    ∷ remote_dir
    ∷ codes "/docker"
    ∷ [])

unfoldable pub pull_cmd : Text → Text → Text
pull_cmd gateway_ref vscode_ref = concat (
    codes "cd "
    ∷ remote_dir
    ∷ codes "/docker && GATEWAY_IMAGE='"
    ∷ gateway_ref
    ∷ codes "' VSCODE_IMAGE='"
    ∷ vscode_ref
    ∷ codes "' docker compose pull"
    ∷ [])

unfoldable pub setup_cmd : Text → Text → Text → Text
setup_cmd slug bundle scenarios = concat (
    codes "cd "
    ∷ remote_dir
    ∷ codes "/docker && docker compose "
    ∷ codes "-f compose.yaml -f override.yaml -p interview-"
    ∷ slug
    ∷ codes " exec -T -e INTERVIEW_SESSION_ID="
    ∷ slug
    ∷ codes " -e INTERVIEW_BUNDLE="
    ∷ bundle
    ∷ codes " -e INTERVIEW_SCENARIOS="
    ∷ scenarios
    ∷ codes " -e INTERVIEW_LAB_DIR=/opt/interview/lab"
    ∷ codes " vscode bash /opt/interview/lab/setup.sh"
    ∷ [])

-- strings.ReplaceAll of one byte
unfoldable pub replace_byte : ℕ → Text → Text → Text
replace_byte b new [] = []
replace_byte b new (c ∷ s) =
    let rest = replace_byte b new s in if c == b then new ++ rest else c ∷ rest

-- The byte order of Go strings.
abbrev pub text_ltb : Text → Text → Bool
text_ltb [] [] = false
text_ltb [] (b ∷ t) = true
text_ltb (a ∷ s) [] = false
text_ltb (a ∷ s) (b ∷ t) = ltb a b || (a == b && text_ltb s t)

abbrev pub insert_sorted : Text → List Text → List Text
insert_sorted x [] = x ∷ []
insert_sorted x (y ∷ ys) =
    let rest = insert_sorted x ys in if text_ltb y x then y ∷ rest else x ∷ y ∷ ys

-- sort.Strings
unfoldable pub sort_strings : List Text → List Text
sort_strings [] = []
sort_strings (x ∷ xs) = insert_sorted x (sort_strings xs)

abbrev pub value_or_empty : Option Text → Text
value_or_empty none = []
value_or_empty (some v) = v

unfoldable pub env_line : Assoc Text → Text → Text
env_line vars k = concat (
    k
    ∷ codes "='"
    ∷ replace_byte 39 (codes "'\\''") (value_or_empty (lookup k vars))
    ∷ codes "'\n"
    ∷ [])

unfoldable pub env_blob : Assoc Text → Text
env_blob vars = concat (map (env_line vars) (sort_strings (map (λ (kv : Text × Text). kv.0) vars)))

abbrev option_lines : Bool → Text → Text
option_lines b t = if b then t else []

unfoldable pub override : Bool → Bool → Bool → Text
override workspace lab kind = concat (
    codes "services:\n  vscode:\n"
    ∷ option_lines kind (codes "    networks: [default, kind]\n")
    ∷ codes "    volumes:\n"
    ∷ option_lines workspace (codes "      - ./payload/workspace:/home/user/scenarios:rw\n")
    ∷ option_lines lab (codes "      - ./payload/lab:/opt/interview/lab:ro\n")
    ∷ option_lines kind (codes "      - ./payload/kubeconfig:/home/user/.kube/config:ro\n")
    ∷ option_lines kind (codes "networks:\n  kind:\n    external: true\n")
    ∷ [])
