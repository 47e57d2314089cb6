-- ===== src/Root.antt =====
-- internal/cli/root.go: how an error of a command becomes what is printed and the exit code, and the
-- main menu.
pub mod Reported
pub mod Tests
use interview_labs.Prelude.{
  ℕ, Text, codes, Bool, true, false, ◌||◌, ◌&&◌, not, Option, none, some, List, [], ◌∷◌, ◌++◌,
  if◌then◌else◌, text_eq, has_prefix,
}
use interview_labs.Prelude.Outcome.{Outcome, ok, err}

-- The errors that the commands tell apart: usageErr, silencedErr, huh.ErrUserAborted, an error that
-- wraps another under a text, and the rest.
pub data CmdError : Type 0 where
  usage aborted plain : Text → CmdError
  silenced : CmdError → CmdError
  wrapped : Text → CmdError → CmdError

-- Error()
unfoldable pub message : CmdError → Text
message (CmdError.usage m) = m
message (CmdError.aborted m) = m
message (CmdError.plain m) = m
message (CmdError.silenced e) = message e
message (CmdError.wrapped m e) = m ++ message e

unfoldable pub is_usage : CmdError → Bool
is_usage (CmdError.usage m) = true
is_usage (CmdError.aborted m) = false
is_usage (CmdError.plain m) = false
is_usage (CmdError.silenced e) = is_usage e
is_usage (CmdError.wrapped m e) = is_usage e

unfoldable pub is_silenced : CmdError → Bool
is_silenced (CmdError.silenced e) = true
is_silenced (CmdError.wrapped m e) = is_silenced e
is_silenced (CmdError.usage m) = false
is_silenced (CmdError.aborted m) = false
is_silenced (CmdError.plain m) = false

-- errors.Is(err, huh.ErrUserAborted)
unfoldable pub is_aborted : CmdError → Bool
is_aborted (CmdError.aborted m) = true
is_aborted (CmdError.silenced e) = is_aborted e
is_aborted (CmdError.wrapped m e) = is_aborted e
is_aborted (CmdError.usage m) = false
is_aborted (CmdError.plain m) = false

unfoldable pub is_cobra_usage : CmdError → Bool
is_cobra_usage e =
    has_prefix (message e) (codes "unknown command")
    || has_prefix (message e) (codes "unknown flag")
    || has_prefix (message e) (codes "invalid argument")

-- What the commands print beside their own output.
pub data Line : Type 0 where
  cancelled_line blank_line : Line
  error_line : Text → Line

unfoldable pub cancelled : Option CmdError → Option CmdError × List Line
cancelled none = (none, [])
cancelled (some e) =
    if not (is_aborted e)
    then (some e, [])
    else (some (CmdError.silenced e), Line.cancelled_line ∷ [])

-- The line for an error, unless it was reported already.
abbrev pub error_lines : CmdError → List Line
error_lines e = if not (is_silenced e) then Line.error_line (message e) ∷ [] else []

-- run, from what the command tree returns: the exit code, and what is printed.
unfoldable pub run : Option CmdError → ℕ × List Line
run none = (0, [])
run (some e) = (if is_usage e || is_cobra_usage e then 2 else 1, error_lines e)

-- A command that is wrapped in `cancelled`, and run.
abbrev pub execute : Option CmdError → ℕ × List Line
execute e = ((run (cancelled e).0).0, (cancelled e).1 ++ (run (cancelled e).0).1)

abbrev action_exit : Text
action_exit = codes "exit"

-- pickMainAction, from what the form returns.
unfoldable pub pick_main_action : Outcome CmdError Text → Outcome CmdError Text
pick_main_action (ok sel) = ok sel
pick_main_action (err e) = if is_aborted e then ok action_exit else err e

-- One round of the menu: what the form returns, and what the subcommand returns if it is run.
pub record Round : Type 0 where
  pub form : Outcome CmdError Text
  pub result : Option CmdError

pub data End : Type 0 where
  waiting left : End
  broke : CmdError → End

pub record MenuRun : Type 0 where
  pub ended : End
  pub ran : List Text
  pub lines : List Line

abbrev result_lines : Option CmdError → List Line
result_lines none = []
result_lines (some e) = error_lines e

-- The loop of the menu: without a further round it waits for the operator.
unfoldable pub menu : List Round → MenuRun
menu [] = record { ended = End.waiting; ran = []; lines = [] }
menu (r ∷ rs) =
    let rest = menu rs in
    elim (pick_main_action r.form) [
      | err e ↦ record { ended = End.broke e; ran = []; lines = [] }
      | ok action ↦
          if text_eq action action_exit
          then record { ended = End.left; ran = []; lines = [] }
          else record {
            ended = rest.ended;
            ran = action ∷ rest.ran;
            lines = result_lines r.result ++ (Line.blank_line ∷ rest.lines);
          }
    ]
