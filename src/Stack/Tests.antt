-- ===== src/Stack/Tests.antt =====
-- The environment of a session with a quote in a value.
use interview_labs.Prelude.{Text, codes, text_eq, concat, [], ◌∷◌, ◌≡◌, refl, arith}
use interview_labs.Prelude.Assoc.{Assoc, lookup}
use interview_labs.Stack.{env_blob, env_line, replace_byte, sort_strings}
use interview_labs.Stack.Shell.{source, in_name}
use interview_labs.Stack.Sourced.{source-env_blob}

abbrev vars : Assoc Text
vars = (codes "B_KEY", codes "plain") ∷ (codes "A_KEY", codes "it's quoted") ∷ []

sorted_and_quoted : env_blob vars ≡ codes "A_KEY='it'\\''s quoted'\nB_KEY='plain'\n"
unfolding env_blob env_line replace_byte sort_strings lookup text_eq concat
sorted_and_quoted = refl

source-env_blob_example :
    lookup (codes "A_KEY") (source (in_name []) (env_blob vars)) ≡ lookup (codes "A_KEY") vars
source-env_blob_example = source-env_blob vars (codes "A_KEY") (ground arith) (ground arith)
