-- ===== src/Stack/Sourced.antt =====
-- What the session's machine reads from the environment of compose_up_cmd.
use interview_labs.Prelude.{
  ◌==◌, Bool-cases, inl, inr, ℕ, Text, text_eq, text_eq_iff, Bool, true, false, ◌||◌, none, some,
  List, [], ◌∷◌, ◌++◌, ◌≡◌, ◌∙◌, sym, ap, refl, if◌then◌else◌, map, concat, one_of, All,
}
use interview_labs.Prelude.Assoc.{Assoc, lookup}
use interview_labs.Stack.{
  replace_byte, text_ltb, insert_sorted, sort_strings, value_or_empty, env_line, env_blob,
}
use interview_labs.Stack.Shell.{is_name_start, is_name_char, in_name, bare, quoted, source}
use native.Mathlib.Omega.{arith}

-- The rest of a variable's name, and a variable's name: letters, digits and underscores, of which the
-- first is no digit.
abbrev pub IsNameRest : Text → Type 0
IsNameRest [] = Unit
IsNameRest (c ∷ k) = (is_name_char c ≡ true) × IsNameRest k

abbrev pub IsName : Text → Type 0
IsName [] = ⊥
IsName (c ∷ k) = (is_name_start c ≡ true) × IsNameRest k

-- A value has no zero byte.
abbrev pub HasNoZero : Text → Type 0
HasNoZero [] = Unit
HasNoZero (c ∷ v) = (c == 0 ≡ false) × HasNoZero v

abbrev quote : Text
quote = 39 ∷ 92 ∷ 39 ∷ 39 ∷ []

append_assoc : (a b c : Text) → (a ++ b) ++ c ≡ a ++ (b ++ c)
append_assoc [] b c = refl
append_assoc (x ∷ a) b c = ap (λ t. x ∷ t) (append_assoc a b c)

append_nil : (a : Text) → a ++ [] ≡ a
append_nil [] = refl
append_nil (x ∷ a) = ap (λ t. x ∷ t) (append_nil a)

source-quoted :
    (k v x s : Text)
    → HasNoZero x
    → source (quoted k v) (replace_byte 39 quote x ++ (39 ∷ s)) ≡ source (bare k (v ++ x)) s
unfolding source replace_byte
source-quoted k v [] s h = ap (λ t. source (bare k t) s) (sym (append_nil v))
source-quoted k v (c ∷ x) s h =
    ground (arith, h.0, source-quoted k (v ++ (c ∷ [])) x s h.1, append_assoc v (c ∷ []) x)

source-name_rest :
    (a : ℕ) (k n s : Text)
    → IsNameRest n
    → source (in_name (a ∷ k)) (n ++ (61 ∷ s)) ≡ source (bare (a ∷ k ++ n) []) s
unfolding source
source-name_rest a k [] s h = ap (λ t. source (bare (a ∷ t) []) s) (sym (append_nil k))
source-name_rest a k (c ∷ n) s h =
    ground (arith, h.0, source-name_rest a (k ++ (c ∷ [])) n s h.1, append_assoc k (c ∷ []) n)

source-in_name :
    (n s : Text) → IsName n → source (in_name []) (n ++ (61 ∷ s)) ≡ source (bare n []) s
unfolding source
source-in_name [] s h = elim h [ ]
source-in_name (c ∷ n) s h = ground (arith, h.0, source-name_rest c [] n s h.1)

append_assoc_line :
    (k x s : Text)
    → (k ++ 61 ∷ 39 ∷ (x ++ 39 ∷ 10 ∷ [])) ++ s ≡ k ++ (61 ∷ 39 ∷ (x ++ (39 ∷ 10 ∷ s)))
append_assoc_line k x s =
    append_assoc k (61 ∷ 39 ∷ (x ++ 39 ∷ 10 ∷ [])) s
    ∙ ap (λ t. k ++ (61 ∷ 39 ∷ t)) (append_assoc x (39 ∷ 10 ∷ []) s)

source-env_line :
    (vars : Assoc Text) (k s : Text)
    → IsName k
    → HasNoZero (value_or_empty (lookup k vars))
    → source (in_name []) (env_line vars k ++ s)
      ≡ (k, value_or_empty (lookup k vars)) ∷ source (in_name []) s
unfolding env_line concat source
source-env_line vars k s h z =
    ap (source (in_name [])) (append_assoc_line k (replace_byte 39 quote value) s)
    ∙ source-in_name k (39 ∷ (replace_byte 39 quote value ++ (39 ∷ 10 ∷ s))) h
    ∙ source-quoted k [] value (10 ∷ s) z
  where
    value : Text
    value = value_or_empty (lookup k vars)

abbrev pub values : Assoc Text → List Text
values vars = map (λ (kv : Text × Text). kv.1) vars

value-HasNoZero :
    (vars : Assoc Text) (k : Text)
    → All HasNoZero (values vars)
    → HasNoZero (value_or_empty (lookup k vars))
unfolding lookup
value-HasNoZero [] k h = tt
value-HasNoZero ((j, v) ∷ vars) k (hv, h) = elim (Bool-cases (text_eq j k)) [
  | inl e ↦ rw e hv
  | inr e ↦ rw e (value-HasNoZero vars k h)
]

module _ (vars : Assoc Text) (zeros : All HasNoZero (values vars)) where
  abbrev assigned : List Text → Assoc Text
  assigned ks = map (λ k. (k, value_or_empty (lookup k vars))) ks

  source-env_lines :
      (ks : List Text)
      → All IsName ks
      → source (in_name []) (concat (map (env_line vars) ks)) ≡ assigned ks
  unfolding concat source
  source-env_lines [] h = refl
  source-env_lines (k ∷ ks) (hk, h) =
      source-env_line vars k (concat (map (env_line vars) ks)) hk (value-HasNoZero vars k zeros)
      ∙ ap (λ t. (k, value_or_empty (lookup k vars)) ∷ t) (source-env_lines ks h)

  lookup-assigned :
      (j : Text) (ks : List Text)
      → lookup j (assigned ks)
        ≡ (if one_of ks j then some (value_or_empty (lookup j vars)) else none)
  unfolding lookup one_of
  lookup-assigned j [] = refl
  lookup-assigned j (k ∷ ks) = grind (arith, text_eq_iff k j, lookup-assigned j ks)

All-if :
    (b : Bool) (xs ys : List Text)
    → All IsName xs
    → All IsName ys
    → All IsName (if b then xs else ys)
All-if true xs ys hx hy = hx
All-if false xs ys hx hy = hy

insert_sorted-IsName :
    (x : Text) (ys : List Text) → IsName x → All IsName ys → All IsName (insert_sorted x ys)
insert_sorted-IsName x [] hx h = (hx, tt)
insert_sorted-IsName x (y ∷ ys) hx h =
    All-if (text_ltb y x) _ _ (h.0, insert_sorted-IsName x ys hx h.1) (hx, h)

sort_strings-IsName : (xs : List Text) → All IsName xs → All IsName (sort_strings xs)
unfolding sort_strings
sort_strings-IsName [] h = tt
sort_strings-IsName (x ∷ xs) (hx, h) =
    insert_sorted-IsName x (sort_strings xs) hx (sort_strings-IsName xs h)

one_of-insert_sorted :
    (x : Text) (ys : List Text) (j : Text)
    → one_of (insert_sorted x ys) j ≡ text_eq x j || one_of ys j
unfolding one_of
one_of-insert_sorted x [] j = refl
one_of-insert_sorted x (y ∷ ys) j = ground (arith, one_of-insert_sorted x ys j)

one_of-sort_strings : (xs : List Text) (j : Text) → one_of (sort_strings xs) j ≡ one_of xs j
unfolding sort_strings one_of
one_of-sort_strings [] j = refl
one_of-sort_strings (x ∷ xs) j =
    ground (arith, one_of-insert_sorted x (sort_strings xs) j, one_of-sort_strings xs j)

abbrev pub names : Assoc Text → List Text
names vars = map (λ (kv : Text × Text). kv.0) vars

present :
    (vars : Assoc Text) (j : Text)
    → (if one_of (names vars) j then some (value_or_empty (lookup j vars)) else none)
      ≡ lookup j vars
unfolding one_of lookup
present [] j = refl
present ((k, v) ∷ vars) j = ground (arith, present vars j)

-- A reader of a shell's assignments that sources the environment file of a session reads, for each
-- name, exactly the value that the map gave it, quotes, spaces and ends of line included, if each name
-- of the map is one that a shell allows, letters, digits and underscores, of which the first is no
-- digit, and no value has a zero byte.
pub source-env_blob :
    (vars : Assoc Text) (j : Text)
    → All IsName (names vars)
    → All HasNoZero (values vars)
    → lookup j (source (in_name []) (env_blob vars)) ≡ lookup j vars
unfolding env_blob
source-env_blob vars j h z =
    ap (lookup j)
      (source-env_lines vars z (sort_strings (names vars)) (sort_strings-IsName (names vars) h))
    ∙ lookup-assigned vars z j (sort_strings (names vars))
    ∙ ap (λ b. if b then some (value_or_empty (lookup j vars)) else none)
        (one_of-sort_strings (names vars) j)
    ∙ present vars j
