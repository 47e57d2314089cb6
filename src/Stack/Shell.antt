-- ===== src/Stack/Shell.antt =====
-- How a POSIX shell reads a file of assignments: the part of the shell that sourcing the
-- environment of a session needs.
use interview_labs.Prelude.{
  ℕ, Text, Bool, ◌==◌, ◌||◌, ◌&&◌, leb, not, is_empty, [], ◌∷◌, ◌++◌, if◌then◌else◌,
}
use interview_labs.Prelude.Assoc.{Assoc}

-- Where the reader stands: in a name; in a value, outside of quotes, inside of them or after a
-- backslash; in the rest of a line that it does not follow, a command or a value with more than words
-- outside of its quotes.
pub data Reading : Type 0 where
  in_name : Text → Reading
  bare quoted escaped : Text → Text → Reading
  command : Reading

-- A name is letters, digits and underscores, and begins with no digit.
abbrev pub is_name_start : ℕ → Bool
is_name_start c = c == b'_' || (leb b'A' c && leb c b'Z') || (leb b'a' c && leb c b'z')

abbrev pub is_name_char : ℕ → Bool
is_name_char c = is_name_start c || (leb b'0' c && leb c b'9')

-- Whether the byte may come behind what was read of a name.
abbrev pub continues : Text → ℕ → Bool
continues [] c = is_name_start c
continues (d ∷ k) c = is_name_char c

abbrev pub newline : ℕ
newline = 10

abbrev pub step : Reading → ℕ → Reading
step (in_name k) c =
    if continues k c
    then in_name (k ++ (c ∷ []))
    else if c == 61 && not (is_empty k)
    then bare k []
    else if c == 10
    then in_name []
    else command
step (bare k v) c =
    if c == 39
    then quoted k v
    else if c == 92
    then escaped k v
    else if c == 10
    then in_name []
    else if is_name_char c
    then bare k (v ++ (c ∷ []))
    else command
-- A shell drops a zero byte.
step (quoted k v) c =
    if c == 39 then bare k v else if c == 0 then quoted k v else quoted k (v ++ (c ∷ []))
step (escaped k v) c = if c == 10 then bare k v else bare k (v ++ (c ∷ []))
step command c = if c == 10 then in_name [] else command

-- An assignment ends with its line.
abbrev pub emit : Reading → ℕ → Assoc Text → Assoc Text
emit (bare k v) c vars = if c == 10 then (k, v) ∷ vars else vars
emit _ c vars = vars

unfoldable pub source : Reading → Text → Assoc Text
source (bare k v) [] = (k, v) ∷ []
source _ [] = []
source r (c ∷ s) = emit r c (source (step r c) s)
