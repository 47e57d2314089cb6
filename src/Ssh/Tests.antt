-- ===== src/Ssh/Tests.antt =====
-- A host that is met twice, and another one in its place.
use interview_labs.Prelude.{
  Text, codes, true, none, List, [], ◌∷◌, ◌++◌, if◌then◌else◌, text_eq, text_eq_iff, ◌≡◌, refl,
  arith,
}
use interview_labs.Ssh.{
  KnownHosts, Verdict, Attempt, dial, attempt, host_key_callback, connections, argv,
}
use interview_labs.Ssh.Pinned.{AreSame, IsStrict, connections-AreSame}

-- A file of one line, which is the key.
abbrev one_line : KnownHosts
one_line = record {
  line = λ host key. key;
  verify = λ file host key.
      if text_eq file (key ++ codes "\n") then Verdict.accepted else Verdict.mismatch;
}

same_line : (k j : Text) → k ++ codes "\n" ≡ j ++ codes "\n" → j ≡ k
same_line [] [] h = refl
same_line [] (c ∷ []) h = ground arith
same_line [] (c ∷ d ∷ j) h = ground arith
same_line (c ∷ []) [] h = ground arith
same_line (c ∷ d ∷ k) [] h = ground arith
same_line (c ∷ k) (d ∷ j) h = ground (arith, same_line k j)

is_strict : IsStrict one_line (codes "203.0.113.7")
is_strict k j h = same_line k j (ground (arith, h, text_eq_iff (k ++ codes "\n") (j ++ codes "\n")))

abbrev met : Attempt
met = Attempt.presents (codes "k1") true none true

abbrev other : Attempt
other = Attempt.presents (codes "k2") true none true

abbrev dials : List (List Attempt)
dials = (Attempt.unreachable ∷ met ∷ []) ∷ (other ∷ met ∷ []) ∷ (met ∷ []) ∷ []

two_connections :
    connections one_line (codes "203.0.113.7") none dials ≡ codes "k1" ∷ codes "k1" ∷ []
unfolding connections dial attempt host_key_callback text_eq
two_connections = refl

connections-AreSame_example : AreSame (connections one_line (codes "203.0.113.7") none dials)
connections-AreSame_example =
    connections-AreSame one_line (codes "203.0.113.7") is_strict dials
      ((tt, (refl, tt)), ((refl, (refl, tt)), ((refl, tt), tt)))

ssh_command :
    argv (codes "/s/ssh/key") (codes "/s/ssh/known_hosts") (codes "root") (codes "203.0.113.7")
    ≡ codes "ssh"
      ∷ codes "-i"
      ∷ codes "/s/ssh/key"
      ∷ codes "-o"
      ∷ codes "UserKnownHostsFile=/s/ssh/known_hosts"
      ∷ codes "root@203.0.113.7"
      ∷ []
unfolding argv
ssh_command = refl
