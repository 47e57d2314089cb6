-- ===== src/Pack/Names.antt =====
-- internal/pack/validate.go, dirNamePattern: the names that directories of bundles and scenarios have.
use interview_labs.Prelude.{
  ℕ, Text, codes, Bool, true, false, ◌&&◌, ◌||◌, leb, List, [], ◌∷◌, ◌==◌, if◌then◌else◌, all,
  is_empty, join, ◌↔◌, ◌≡◌, refl, arith, ap, sym, ◌∙◌, Bool-cases, inl, inr, &&-eq-true,
}

-- [a-z0-9]
abbrev pub is_name_char : ℕ → Bool
is_name_char c = (leb 97 c && leb c 122) || (leb 48 c && leb c 57)

-- ^[a-z0-9]+(-[a-z0-9]+)*$ by its automaton: a dash may stand, and the name may end, only behind a
-- character, which `inside` says.
unfoldable pub matches_from : Bool → Text → Bool
matches_from inside [] = inside
matches_from inside (c ∷ s) =
    let word = matches_from true s in
    let next = matches_from false s in
    if is_name_char c then word else inside && (c == b'-') && next

unfoldable pub is_dir_name : Text → Bool
unfolding matches_from
is_dir_name s = matches_from false s

-- Words of the pattern's characters, none of them empty.
abbrev IsWord : Text → Type 0
IsWord w = (is_empty w ≡ false) × (all is_name_char w ≡ true)

abbrev pub AreWords : List Text → Type 0
AreWords [] = Unit
AreWords (w ∷ ws) = IsWord w × AreWords ws

-- What the pattern is for: at least one word, with single dashes between.
pub record IsDashed (s : Text) : Type 0 where
  pub head : Text
  pub rest : List Text
  pub words : AreWords (head ∷ rest)
  pub joined : s ≡ join (head ∷ rest) (codes "-")

-- What follows a character: the end of its word, and more words behind dashes.
record IsTail (s : Text) : Type 0 where
  end : Text
  rest : List Text
  end_chars : all is_name_char end ≡ true
  words : AreWords rest
  joined : s ≡ join (end ∷ rest) (codes "-")

join-∷ :
    (c : ℕ) (w : Text) (ws : List Text)
    → join ((c ∷ w) ∷ ws) (codes "-") ≡ c ∷ join (w ∷ ws) (codes "-")
unfolding join
join-∷ c w [] = refl
join-∷ c w (v ∷ ws) = refl

Parsed : Bool → Text → Type 0
Parsed true s = IsTail s
Parsed false s = IsDashed s

extend : (c : ℕ) (s : Text) → is_name_char c ≡ true → IsTail s → IsTail (c ∷ s)
extend c s e t = record {
  end = c ∷ t.end;
  rest = t.rest;
  end_chars = rw (e, t.end_chars) refl;
  words = t.words;
  joined = ap (c ∷◌) t.joined ∙ sym (join-∷ c t.end t.rest);
}

start : (c : ℕ) (s : Text) → is_name_char c ≡ true → IsTail s → IsDashed (c ∷ s)
start c s e t = record {
  head = c ∷ t.end;
  rest = t.rest;
  words = ((refl, rw (e, t.end_chars) refl), t.words);
  joined = ap (c ∷◌) t.joined ∙ sym (join-∷ c t.end t.rest);
}

next_word : (s : Text) → IsDashed s → IsTail (b'-' ∷ s)
unfolding join
next_word s d = record {
  end = [];
  rest = d.head ∷ d.rest;
  end_chars = refl;
  words = d.words;
  joined = ap (b'-' ∷◌) d.joined;
}

word_step :
    (inside : Bool) (c : ℕ) (s : Text)
    → is_name_char c ≡ true
    → matches_from inside (c ∷ s) ≡ matches_from true s
unfolding matches_from
word_step inside c s e = rw e refl

dash_step :
    (inside : Bool) (c : ℕ) (s : Text)
    → is_name_char c ≡ false
    → matches_from inside (c ∷ s) ≡ true
    → (inside ≡ true) × (c ≡ b'-') × (matches_from false s ≡ true)
unfolding matches_from
dash_step inside c s e h = ground arith

matches_from-Parsed : (inside : Bool) (s : Text) → matches_from inside s ≡ true → Parsed inside s
unfolding matches_from Parsed
matches_from-Parsed true [] h = record {
  end = [];
  rest = [];
  end_chars = refl;
  words = tt;
  joined = unfold join in refl;
}
matches_from-Parsed false [] h = ground arith
matches_from-Parsed true (c ∷ s) h = elim (Bool-cases (is_name_char c)) [
  | inl e ↦ extend c s e (matches_from-Parsed true s (sym (word_step true c s e) ∙ h))
  | inr e ↦
      (let (i, q, m) = dash_step true c s e h in rw q (next_word s (matches_from-Parsed false s m)))
]
matches_from-Parsed false (c ∷ s) h = elim (Bool-cases (is_name_char c)) [
  | inl e ↦ start c s e (matches_from-Parsed true s (sym (word_step false c s e) ∙ h))
  | inr e ↦ ground (arith, dash_step false c s e h)
]

AreWords-matches_from :
    (w : Text) (ws : List Text)
    → all is_name_char w ≡ true
    → AreWords ws
    → matches_from true (join (w ∷ ws) (codes "-")) ≡ true
unfolding matches_from join
AreWords-matches_from [] [] h hs = refl
AreWords-matches_from [] ([] ∷ vs) h hs = ground arith
AreWords-matches_from [] ((c ∷ v) ∷ vs) h ((n, k), hs) =
    rw (join-∷ c v vs, word_step false c (join (v ∷ vs) (codes "-")) (&&-eq-true _ _ k).0)
      (AreWords-matches_from v vs (&&-eq-true _ _ k).1 hs)
AreWords-matches_from (c ∷ w) ws h hs =
    rw (join-∷ c w ws, word_step true c (join (w ∷ ws) (codes "-")) (&&-eq-true _ _ h).0)
      (AreWords-matches_from w ws (&&-eq-true _ _ h).1 hs)

words_match :
    (w : Text) (ws : List Text)
    → AreWords (w ∷ ws)
    → matches_from false (join (w ∷ ws) (codes "-")) ≡ true
words_match [] ws ((n, k), hs) = ground arith
words_match (c ∷ w) ws ((n, k), hs) =
    rw (join-∷ c w ws, word_step false c (join (w ∷ ws) (codes "-")) (&&-eq-true _ _ k).0)
      (AreWords-matches_from w ws (&&-eq-true _ _ k).1 hs)

IsDashed-matches_from : (s : Text) → IsDashed s → matches_from false s ≡ true
IsDashed-matches_from s d = rw d.joined (words_match d.head d.rest d.words)

-- A name passes exactly when it is made of words of lower case letters and digits, none empty, with
-- one dash between each two.
pub is_dir_name_iff : (s : Text) → (is_dir_name s ≡ true) ↔ IsDashed s
unfolding is_dir_name Parsed
is_dir_name_iff s = (λ h. matches_from-Parsed false s h, IsDashed-matches_from s)
