-- ===== src/ConfigLog.antt =====
-- `ConfigProblem` and `ConfigLog` of policy/files/configlog.go. The log is one object for the
-- process; its mutex makes each operation atomic, so the log is a value that they thread.
use opkssh.Base.{ℕ, Bool, true, false, List, [], ◌∷◌, ◌++◌, Str}

-- The two messages that are recorded: `wrong number of arguments (expected=3, got=%d)`, and
-- `identity attribute is empty`.
pub data Message : Type 0 where
  wrong_number : ℕ → Message
  empty_identity : Message

pub record ConfigProblem : Type 0 where
  pub filepath : Str
  pub offending_line : Str
  pub error_message : Message
  pub source : Str

abbrev pub ConfigLog : Type 0
ConfigLog = List ConfigProblem

unfoldable pub record_problem : ConfigProblem → ConfigLog → ConfigLog
record_problem entry log = log ++ entry ∷ []

-- `GetProblems` returns a copy.
abbrev pub get_problems : ConfigLog → List ConfigProblem
get_problems log = log

abbrev pub no_problems : ConfigLog → Bool
no_problems [] = true
no_problems (_ ∷ _) = false

abbrev pub clear : ConfigLog → ConfigLog
clear log = []
