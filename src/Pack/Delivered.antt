-- ===== src/Pack/Delivered.antt =====
-- That staging which does not fail leaves out no file.
use interview_labs.Prelude.{
  ℕ, Text, codes, Bool, true, false, none, some, List, [], ◌∷◌, ◌++◌, ◌≡◌, inl, inr, refl, arith,
  sym, append_assoc, append-nil, Any,
}
use interview_labs.Pack.{Bundle, Scenario}
use interview_labs.Pack.Payload.{
  Tree, Entries, Route, Landing, landed, Write, Staged, ◌&◌, mode, restored, child, payload_dir,
  bundle_route, task_route, put, readable, copy, copy_entries, copy_tree, stage_tasks, stage_part,
  stage_payload,
}
use interview_labs.Pack.Shipped.{HasFile, IsFrom, workspace, IsTask, IsPart, IsShipped}
use mathlib.Core.Path.{subst}

-- The write is among them.
abbrev pub Wrote : Write → List Write → Type 0
Wrote w ws = Any (λ v. v ≡ w) ws

Wrote-left : (w : Write) (xs ys : List Write) → Wrote w xs → Wrote w (xs ++ ys)
Wrote-left w [] ys h = elim h [ ]
Wrote-left w (x ∷ xs) ys (inl h) = inl h
Wrote-left w (x ∷ xs) ys (inr h) = inr (Wrote-left w xs ys h)

Wrote-right : (w : Write) (xs ys : List Write) → Wrote w ys → Wrote w (xs ++ ys)
Wrote-right w [] ys h = h
Wrote-right w (x ∷ xs) ys h = inr (Wrote-right w xs ys h)

-- A sequence that ends without an error did both parts.
first_part :
    (w : Write) (m n : Staged) → (m & n).0 ≡ none → (m.0 ≡ none → Wrote w m.1) → Wrote w (m & n).1
first_part w (none, ws) (e, vs) h k = Wrote-left w ws vs (k refl)
first_part w (some e, ws) n h k = ground arith

second_part :
    (w : Write) (m n : Staged) → (m & n).0 ≡ none → (n.0 ≡ none → Wrote w n.1) → Wrote w (m & n).1
second_part w (none, ws) (e, vs) h k = Wrote-right w ws vs (k h)
second_part w (some e, ws) n h k = ground arith

module _ (unreadable : Route → Bool) (lands : Write → Landing) where
  landed-Wrote : (w : Write) (l : Landing) → (landed w l).0 ≡ none → Wrote w (landed w l).1
  landed-Wrote w Landing.whole h = inl refl
  landed-Wrote w Landing.lost h = ground arith
  landed-Wrote w (Landing.cut_off n) h = ground arith

  Wrote-put : (w : Write) → (put unreadable lands w).0 ≡ none → Wrote w (put unreadable lands w).1
  Wrote-put w h = landed-Wrote w (lands w) h

  mutual
    unfolding copy HasFile

    copy-Wrote :
        (src dst : Route) (t : Tree) (r : Route) (d : Text)
        → (copy unreadable lands src dst t).0 ≡ none
        → HasFile t r d
        → Wrote
            (Write.write_file (restored (dst ++ r)) d (mode (src ++ r)))
            (copy unreadable lands src dst t).1
    copy-Wrote src dst (Tree.file e) [] d h f =
        second_part _ (readable unreadable lands src) _ h (λ q.
          rw (append-nil dst, append-nil src)
            (subst
              (λ c.
                Wrote (Write.write_file (restored dst) c (mode src))
                  (put unreadable lands (Write.write_file (restored dst) e (mode src))).1)
              f (Wrote-put (Write.write_file (restored dst) e (mode src)) q)))
    copy-Wrote src dst (Tree.file e) (n ∷ r) d h f = elim f [ ]
    copy-Wrote src dst (Tree.dir es) [] d h f = elim f [ ]
    copy-Wrote src dst (Tree.dir es) (n ∷ r) d h f =
        second_part _ (put unreadable lands (Write.make_dir dst) & readable unreadable lands src) _
          h (λ e. copy_entries-Wrote src dst es n r d e f)

    copy_entries-Wrote :
        (src dst : Route) (es : Entries) (n : Text) (r : Route) (d : Text)
        → (copy_entries unreadable lands src dst es).0 ≡ none
        → HasFile (Tree.dir es) (n ∷ r) d
        → Wrote
            (Write.write_file (restored (dst ++ (n ∷ r))) d (mode (src ++ (n ∷ r))))
            (copy_entries unreadable lands src dst es).1
    copy_entries-Wrote src dst Entries.end n r d h f = elim f [ ]
    copy_entries-Wrote src dst (Entries.entry m t es) n r d h (inl (e, f)) =
        first_part _ (copy unreadable lands (child src m) (child dst m) t) _ h (λ q.
          subst
            (λ k.
              Wrote (Write.write_file (restored (dst ++ (k ∷ r))) d (mode (src ++ (k ∷ r))))
                (copy unreadable lands (child src m) (child dst m) t).1)
            e
            (rw (sym (append_assoc dst (m ∷ []) r), sym (append_assoc src (m ∷ []) r))
              (copy-Wrote (child src m) (child dst m) t r d q f)))
    copy_entries-Wrote src dst (Entries.entry m t es) n r d h (inr f) =
        second_part _ (copy unreadable lands (child src m) (child dst m) t) _ h
          (λ q. copy_entries-Wrote src dst es n r d q f)

  module _ (p : Route) (d : Text) (m : ℕ) where
    copy_tree-Wrote :
        (fs : Tree) (src dst : Route)
        → (copy_tree unreadable lands fs src dst).0 ≡ none
        → IsFrom fs src dst (Write.write_file p d m)
        → Wrote (Write.write_file p d m) (copy_tree unreadable lands fs src dst).1
    unfolding copy_tree
    copy_tree-Wrote fs src dst h (t, e, (r, f, ep, em)) =
        rw (e, ep, em) (copy-Wrote src dst t r d (rw e at h) f)

    stage_tasks-Wrote :
        (fs : Tree) (dst : Route) (b : Bundle) (scs : List Scenario)
        → (stage_tasks unreadable lands fs dst b scs).0 ≡ none
        → IsTask fs dst b scs (Write.write_file p d m)
        → Wrote (Write.write_file p d m) (stage_tasks unreadable lands fs dst b scs).1
    unfolding stage_tasks
    stage_tasks-Wrote fs dst b [] h (sc, q, g) = elim q [ ]
    stage_tasks-Wrote fs dst b (x ∷ scs) h (sc, inl q, g) =
        first_part _ (copy_tree unreadable lands fs (task_route b x) (workspace dst x)) _ h (λ k.
          copy_tree-Wrote fs (task_route b x) (workspace dst x) k (
            subst (λ y. IsFrom fs (task_route b y) (workspace dst y) (Write.write_file p d m))
              (sym q) g))
    stage_tasks-Wrote fs dst b (x ∷ scs) h (sc, inr q, g) =
        second_part _ (copy_tree unreadable lands fs (task_route b x) (workspace dst x)) _ h
          (λ k. stage_tasks-Wrote fs dst b scs k (sc, q, g))

    stage_part-Wrote :
        (fs : Tree) (dst : Route) (b : Bundle) (has : Bool) (name : Text)
        → (stage_part unreadable lands fs dst b has name).0 ≡ none
        → IsPart fs dst b has name (Write.write_file p d m)
        → Wrote (Write.write_file p d m) (stage_part unreadable lands fs dst b has name).1
    stage_part-Wrote fs dst b false name h (e, g) = ground (arith, e)
    stage_part-Wrote fs dst b true name h (e, g) =
        copy_tree-Wrote fs (child (bundle_route b) name) (child (payload_dir dst) name) h g

    -- Staging a bundle that does not fail writes a copy of every file of its scenarios' task
    -- directories, of its lab directory where it has a lab, and of its kind directory where it has a
    -- cluster.
    pub stage_payload-Wrote :
        (dst : Route) (fs : Tree) (b : Bundle)
        → (stage_payload unreadable lands dst fs b).0 ≡ none
        → IsShipped fs dst b (Write.write_file p d m)
        → Wrote (Write.write_file p d m) (stage_payload unreadable lands dst fs b).1
    unfolding stage_payload
    stage_payload-Wrote dst fs b h g =
        let tasks = stage_tasks unreadable lands fs dst b b.scenarios in
        let lab = stage_part unreadable lands fs dst b b.has_lab (codes "lab") in
        elim g [
          | inl k ↦
              first_part _ (tasks & lab) _ h
                (λ e. first_part _ tasks lab e (λ q. stage_tasks-Wrote fs dst b b.scenarios q k))
          | inr (inl k) ↦
              first_part _ (tasks & lab) _ h
                (λ e. second_part _ tasks lab e (λ q. stage_part-Wrote fs dst b b.has_lab _ q k))
          | inr (inr k) ↦
              second_part _ (tasks & lab) _ h (λ q. stage_part-Wrote fs dst b b.has_kind _ q k)
        ]
