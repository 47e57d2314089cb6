-- ===== src/Root/Tests.antt =====
-- Errors of commands, and a menu in which a command fails.
use interview_labs.Prelude.{codes, none, some, List, [], ◌∷◌, has_prefix, ◌≡◌, ◌↔◌, refl, text_eq}
use interview_labs.Prelude.Outcome.{ok, err}
use interview_labs.Root.{
  CmdError, Line, Round, End, menu, execute, cancelled, run, pick_main_action, is_aborted,
  is_silenced, is_usage, is_cobra_usage, message,
}
use interview_labs.Root.Reported.{IsMisuse, ArePrinted, execute-IsReported}

abbrev misuse : CmdError
misuse = CmdError.usage (codes "several sessions")

abbrev left_form : CmdError
left_form = CmdError.aborted (codes "user aborted")

misuse_exits_2 : execute (some misuse) ≡ (2, Line.error_line (codes "several sessions") ∷ [])
unfolding cancelled run is_aborted is_silenced is_usage message
misuse_exits_2 = refl

cancelled_exits_1 : execute (some left_form) ≡ (1, Line.cancelled_line ∷ [])
unfolding cancelled run is_aborted is_silenced is_usage is_cobra_usage message has_prefix
cancelled_exits_1 = refl

abbrev wrapped_misuse : CmdError
wrapped_misuse = CmdError.wrapped (codes "launch: ") misuse

execute-IsReported_example :
    (execute none ≡ (0, []))
    × (((execute (some wrapped_misuse)).0 ≡ 2) ↔ IsMisuse wrapped_misuse)
    × (((execute (some wrapped_misuse)).0 ≡ 1) ↔ (¬ IsMisuse wrapped_misuse))
    × ArePrinted wrapped_misuse (execute (some wrapped_misuse)).1
execute-IsReported_example = execute-IsReported wrapped_misuse

-- A doctor that finds problems, a launch that fails, and ESC.
abbrev rounds : List Round
rounds =
    record { form = ok (codes "doctor"); result = some (CmdError.silenced misuse) }
    ∷ record { form = ok (codes "launch"); result = some misuse }
    ∷ record { form = err left_form; result = none }
    ∷ []

abbrev calm_rounds : List Round
calm_rounds =
    record { form = ok (codes "doctor"); result = none }
    ∷ record { form = ok (codes "launch"); result = none }
    ∷ record { form = err left_form; result = none }
    ∷ []

menu_lines : menu rounds ≡ record {
  ended = End.left;
  ran = codes "doctor" ∷ codes "launch" ∷ [];
  lines = Line.blank_line ∷ Line.error_line (codes "several sessions") ∷ Line.blank_line ∷ [];
}
unfolding menu pick_main_action is_aborted is_silenced message text_eq
menu_lines = refl
