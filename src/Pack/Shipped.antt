-- ===== src/Pack/Shipped.antt =====
-- Which files of a pack are staged for the candidate's machine.
use interview_labs.Prelude.{
  ℕ, zero, suc, Text, codes, Bool, true, false, Option, none, some, List, [], ◌∷◌, ◌++◌, ◌≡◌, ◌⊎◌,
  inl, inr, refl, Bool-cases, sym, ap, ◌∙◌, append_assoc, append-nil, All, All-append, Any,
}
use interview_labs.Pack.{Bundle, Scenario}
use interview_labs.Pack.Payload.{
  Tree, Entries, Route, Landing, take, part, landed, sub, Write, Staged, ◌&◌, mode, restored, child,
  payload_dir, bundle_route, task_route, put, readable, copy, copy_entries, copy_found, copy_tree,
  stage_tasks, stage_part, stage_payload,
}

unfoldable mutual
  -- A tree has a file with this content at a path.
  pub HasFile : Tree → Route → Text → Type 0
  HasFile (Tree.file e) [] d = e ≡ d
  HasFile (Tree.file e) (n ∷ r) d = ⊥
  HasFile (Tree.dir es) [] d = ⊥
  HasFile (Tree.dir es) (n ∷ r) d = HasIn es n r d

  pub HasIn : Entries → Text → Route → Text → Type 0
  HasIn Entries.end n r d = ⊥
  HasIn (Entries.entry m t es) n r d = ((m ≡ n) × HasFile t r d) ⊎ HasIn es n r d

module _ {ℓ κ μ} {A : Type ℓ} {P : A → Type κ} {Q : A → Type μ} where
  All-map : (xs : List A) → ((a : A) → P a → Q a) → All P xs → All Q xs
  All-map [] f h = tt
  All-map (x ∷ xs) f (p, h) = (f x p, All-map xs f h)

-- The first bytes of a file of a tree.
abbrev pub HasStart : Tree → Route → Text → Type 0
HasStart t r c = (rest : Text) × HasFile t r (c ++ rest)

-- The copy of a file below `src` to its place below `dst`, or the start of one.
abbrev pub IsCopy : Route → Route → Tree → Write → Type 0
IsCopy src dst t (Write.make_dir p) = Unit
IsCopy src dst t (Write.write_part p c m) =
    (r : Route) × HasStart t r c × (p ≡ restored (dst ++ r)) × (m ≡ mode (src ++ r))
IsCopy src dst t (Write.write_file p d m) =
    (r : Route) × HasFile t r d × (p ≡ restored (dst ++ r)) × (m ≡ mode (src ++ r))

-- The copy of a file below `src` in the pack.
abbrev pub IsFrom : Tree → Route → Route → Write → Type 0
IsFrom fs src dst w = (t : Tree) × (sub fs src ≡ some t) × IsCopy src dst t w

abbrev pub workspace : Route → Scenario → Route
workspace dst sc = payload_dir dst ++ (codes "workspace" ∷ sc.name ∷ [])

abbrev pub IsTask : Tree → Route → Bundle → List Scenario → Write → Type 0
IsTask fs dst b scs w =
    (sc : Scenario) × Any (λ x. x ≡ sc) scs × IsFrom fs (task_route b sc) (workspace dst sc) w

abbrev pub IsPart : Tree → Route → Bundle → Bool → Text → Write → Type 0
IsPart fs dst b has name w =
    (has ≡ true) × IsFrom fs (child (bundle_route b) name) (child (payload_dir dst) name) w

-- A write that the candidate may have: of a task, of the lab, or of the cluster.
abbrev pub IsShipped : Tree → Route → Bundle → Write → Type 0
IsShipped fs dst b w =
    IsTask fs dst b b.scenarios w
    ⊎ (IsPart fs dst b b.has_lab (codes "lab") w ⊎ IsPart fs dst b b.has_kind (codes "kind") w)

-- A step, or a copy, of which all writes have a property.
module _ (P : Write → Type 0) where
  All-& : (m n : Staged) → All P m.1 → All P n.1 → All P (m & n).1
  All-& (none, ws) (e, vs) h k = All-append P ws vs h k
  All-& (some e, ws) n h k = h

module _ (unreadable : Route → Bool) (lands : Write → Landing) where
  module _ (P : Write → Type 0) where
    All-landed : (w : Write) (l : Landing) → P w → ((n : ℕ) → P (part n w)) → All P (landed w l).1
    All-landed w Landing.whole h k = (h, tt)
    All-landed w Landing.lost h k = tt
    All-landed w (Landing.cut_off n) h k = (k n, tt)

    All-put : (w : Write) → P w → ((n : ℕ) → P (part n w)) → All P (put unreadable lands w).1
    All-put w h k = All-landed w (lands w) h k

    All-readable : (p : Route) → All P (readable unreadable lands p).1
    All-readable p = elim (Bool-cases (unreadable p)) [ inl e ↦ rw e tt | inr e ↦ rw e tt ]

  IsCopy-entry :
      (src dst : Route) (n : Text) (t : Tree) (es : Entries) (w : Write)
      → IsCopy (child src n) (child dst n) t w
      → IsCopy src dst (Tree.dir (Entries.entry n t es)) w
  unfolding HasFile
  IsCopy-entry src dst n t es (Write.make_dir p) h = tt
  IsCopy-entry src dst n t es (Write.write_part p c m) (r, (rest, f), e, q) = (
    n ∷ r,
    (rest, inl (refl, f)),
    e ∙ ap restored (append_assoc dst (n ∷ []) r),
    q ∙ ap mode (append_assoc src (n ∷ []) r),
  )
  IsCopy-entry src dst n t es (Write.write_file p d m) (r, f, e, q) = (
    n ∷ r,
    inl (refl, f),
    e ∙ ap restored (append_assoc dst (n ∷ []) r),
    q ∙ ap mode (append_assoc src (n ∷ []) r),
  )

  take_rest : (n : ℕ) (d : Text) → (rest : Text) × (d ≡ take n d ++ rest)
  unfolding take
  take_rest zero d = (d, refl)
  take_rest (suc n) [] = ([], refl)
  take_rest (suc n) (c ∷ d) = let (r, e) = take_rest n d in (r, ap (λ s. c ∷ s) e)

  IsCopy-later :
      (src dst : Route) (n : Text) (t : Tree) (es : Entries) (w : Write)
      → IsCopy src dst (Tree.dir es) w
      → IsCopy src dst (Tree.dir (Entries.entry n t es)) w
  unfolding HasFile
  IsCopy-later src dst n t es (Write.make_dir p) h = tt
  IsCopy-later src dst n t es (Write.write_part p c m) ([], (rest, f), e, q) = elim f [ ]
  IsCopy-later src dst n t es (Write.write_part p c m) (k ∷ r, (rest, f), e, q) =
      (k ∷ r, (rest, inr f), e, q)
  IsCopy-later src dst n t es (Write.write_file p d m) ([], f, e, q) = elim f [ ]
  IsCopy-later src dst n t es (Write.write_file p d m) (k ∷ r, f, e, q) = (k ∷ r, inr f, e, q)

  mutual
    unfolding copy HasFile part

    copy-IsCopy :
        (src dst : Route) (t : Tree) → All (IsCopy src dst t) (copy unreadable lands src dst t).1
    copy-IsCopy src dst (Tree.file d) =
        All-& _ (readable unreadable lands src) _ (All-readable _ src) (
          All-put _ (Write.write_file (restored dst) d (mode src))
            ([], refl, ap restored (sym (append-nil dst)), ap mode (sym (append-nil src)))
            (λ n. (
              [],
              take_rest n d,
              ap restored (sym (append-nil dst)),
              ap mode (sym (append-nil src)),
            )))
    copy-IsCopy src dst (Tree.dir es) =
        All-& _ (put unreadable lands (Write.make_dir dst) & readable unreadable lands src) _
          (All-& _ (put unreadable lands (Write.make_dir dst)) _
            (All-put _ (Write.make_dir dst) tt (λ n. tt)) (All-readable _ src))
          (copy_entries-IsCopy src dst es)

    copy_entries-IsCopy :
        (src dst : Route) (es : Entries)
        → All (IsCopy src dst (Tree.dir es)) (copy_entries unreadable lands src dst es).1
    copy_entries-IsCopy src dst Entries.end = tt
    copy_entries-IsCopy src dst (Entries.entry n t es) =
        All-& _ (copy unreadable lands (child src n) (child dst n) t) _
          (All-map _ (IsCopy-entry src dst n t es) (copy-IsCopy (child src n) (child dst n) t))
          (All-map _ (IsCopy-later src dst n t es) (copy_entries-IsCopy src dst es))

  copy_tree-IsFrom :
      (fs : Tree) (src dst : Route)
      → All (IsFrom fs src dst) (copy_tree unreadable lands fs src dst).1
  unfolding copy_tree
  copy_tree-IsFrom fs src dst = found (sub fs src) refl
    where
      found :
          (o : Option Tree)
          → sub fs src ≡ o
          → All (IsFrom fs src dst) (copy_found unreadable lands src dst o).1
      found none e = tt
      found (some t) e = All-map _ (λ w h. (t, e, h)) (copy-IsCopy src dst t)

  stage_tasks-IsTask :
      (fs : Tree) (dst : Route) (b : Bundle) (scs : List Scenario)
      → All (IsTask fs dst b scs) (stage_tasks unreadable lands fs dst b scs).1
  unfolding stage_tasks
  stage_tasks-IsTask fs dst b [] = tt
  stage_tasks-IsTask fs dst b (sc ∷ scs) =
      All-& _ (copy_tree unreadable lands fs (task_route b sc) (workspace dst sc)) _
        (All-map _ (λ w h. (sc, inl refl, h))
          (copy_tree-IsFrom fs (task_route b sc) (workspace dst sc)))
        (All-map _ (λ w h. (h.0, inr h.1, h.2)) (stage_tasks-IsTask fs dst b scs))

  stage_part-IsPart :
      (fs : Tree) (dst : Route) (b : Bundle) (has : Bool) (name : Text)
      → All (IsPart fs dst b has name) (stage_part unreadable lands fs dst b has name).1
  stage_part-IsPart fs dst b false name = tt
  stage_part-IsPart fs dst b true name =
      All-map _ (λ w h. (refl, h))
        (copy_tree-IsFrom fs (child (bundle_route b) name) (child (payload_dir dst) name))

  -- Every file that staging a bundle leaves behind, also when it fails, is a copy of a file of the pack,
  -- or where its own write failed the start of such a copy. The file
  -- lies in the task directory of one of the bundle's scenarios, in its lab directory where it has
  -- a lab, or in its kind directory where it has a cluster. It stands below the payload at the
  -- same path in workspace/<scenario>, lab or kind, but for a name _go.mod, which becomes go.mod.
  pub stage_payload-IsShipped :
      (dst : Route) (fs : Tree) (b : Bundle)
      → All (IsShipped fs dst b) (stage_payload unreadable lands dst fs b).1
  unfolding stage_payload
  stage_payload-IsShipped dst fs b =
      All-& _
        (stage_tasks unreadable lands fs dst b b.scenarios
          & stage_part unreadable lands fs dst b b.has_lab (codes "lab"))
        _
        (All-& _ (stage_tasks unreadable lands fs dst b b.scenarios) _
          (All-map _ (λ w h. inl h) (stage_tasks-IsTask fs dst b b.scenarios))
          (All-map _ (λ w h. inr (inl h)) (stage_part-IsPart fs dst b b.has_lab (codes "lab"))))
        (All-map _ (λ w h. inr (inr h)) (stage_part-IsPart fs dst b b.has_kind (codes "kind")))
