-- ===== src/Pack/PayloadTests.antt =====
-- A bundle with a lab and one scenario that has a solution.
use interview_labs.Prelude.{
  codes, true, false, text_eq, ends_with, none, [], ◌∷◌, ◌≡◌, refl, inl, inr, All,
}
use interview_labs.Pack.{Bundle}
use interview_labs.Pack.Payload.{
  Tree, Entries, Write, Landing, sub, copy, copy_tree, restored, stage_tasks, stage_payload,
}
use interview_labs.Pack.Shipped.{IsShipped, HasFile, stage_payload-IsShipped}
use interview_labs.Pack.Delivered.{Wrote, stage_payload-Wrote}

abbrev task : Tree
task = Tree.dir (
    Entries.entry (codes "_go.mod") (Tree.file (codes "module m"))
      (Entries.entry (codes "run.sh") (Tree.file (codes "go run .")) Entries.end))

abbrev solution : Tree
solution = Tree.dir (Entries.entry (codes "answer") (Tree.file (codes "42")) Entries.end)

abbrev scenarios : Tree
scenarios = Tree.dir (
    Entries.entry (codes "pods")
      (Tree.dir
        (Entries.entry (codes "solution") solution (Entries.entry (codes "task") task Entries.end)))
      Entries.end)

abbrev lab : Tree
lab = Tree.dir (Entries.entry (codes "note") (Tree.file (codes "hi")) Entries.end)

abbrev devops_dir : Tree
devops_dir =
    Tree.dir
      (Entries.entry (codes "lab") lab (Entries.entry (codes "scenarios") scenarios Entries.end))

abbrev pack_fs : Tree
pack_fs = Tree.dir (
    Entries.entry (codes "bundles")
      (Tree.dir (Entries.entry (codes "devops") devops_dir Entries.end)) Entries.end)

abbrev devops : Bundle
devops = record {
  name = codes "devops";
  description = [];
  image = codes "devops";
  has_lab = true;
  has_setup = false;
  has_kind = false;
  scenarios = record { name = codes "pods"; title = []; description = [] } ∷ [];
}

-- What is staged in /s: no solution among it.
staged : stage_payload (λ p. false) (λ w. Landing.whole) (codes "/s" ∷ []) pack_fs devops ≡ (
  none,
  Write.make_dir (codes "/s" ∷ codes "payload" ∷ codes "workspace" ∷ codes "pods" ∷ [])
      ∷ Write.write_file
          (codes "/s" ∷ codes "payload" ∷ codes "workspace" ∷ codes "pods" ∷ codes "go.mod" ∷ [])
          (codes "module m")
          420
      ∷ Write.write_file
          (codes "/s" ∷ codes "payload" ∷ codes "workspace" ∷ codes "pods" ∷ codes "run.sh" ∷ [])
          (codes "go run .")
          493
      ∷ Write.make_dir (codes "/s" ∷ codes "payload" ∷ codes "lab" ∷ [])
      ∷ Write.write_file
          (codes "/s" ∷ codes "payload" ∷ codes "lab" ∷ codes "note" ∷ [])
          (codes "hi")
          420
      ∷ [],
)
unfolding stage_payload stage_tasks copy_tree copy sub restored text_eq ends_with
staged = refl

stage_payload-IsShipped_example :
    All
      (IsShipped pack_fs (codes "/s" ∷ []) devops)
      (stage_payload (λ p. false) (λ w. Landing.whole) (codes "/s" ∷ []) pack_fs devops).1
stage_payload-IsShipped_example =
    stage_payload-IsShipped (λ p. false) (λ w. Landing.whole) (codes "/s" ∷ []) pack_fs devops

stage_payload-Wrote_example :
    Wrote
      (Write.write_file
        (codes "/s" ∷ codes "payload" ∷ codes "lab" ∷ codes "note" ∷ [])
        (codes "hi")
        420)
      (stage_payload (λ p. false) (λ w. Landing.whole) (codes "/s" ∷ []) pack_fs devops).1
unfolding stage_payload stage_tasks copy_tree copy sub restored text_eq ends_with HasFile
stage_payload-Wrote_example =
    stage_payload-Wrote (λ p. false) (λ w. Landing.whole)
      (codes "/s" ∷ codes "payload" ∷ codes "lab" ∷ codes "note" ∷ []) (codes "hi") 420
      (codes "/s" ∷ []) pack_fs devops refl
      (inr (inl (refl, (lab, refl, (codes "note" ∷ [], inl (refl, refl), refl, refl)))))
