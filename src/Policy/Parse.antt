-- ===== src/Policy/Parse.antt =====
-- `FromTable` row by row.
use opkssh.Base.{
  List, [], ◌∷◌, ◌++◌, ◌≡◌, ◌∙◌, arith, Str, str_eq, append-nil, append_assoc, length, Bool-cases,
  inl, inr, ℕ, Bool, not, ◌&&◌, ◌==◌, nat_eq, if◌then◌else◌, none, some, get_elem?, str, All, ◌≢◌,
  str_beq_iff,
}
use opkssh.Table.{Shell, Row, new_table}
use opkssh.Text.{join}
use opkssh.ConfigLog.{ConfigProblem, ConfigLog, wrong_number, empty_identity, record_problem}
use opkssh.Policy.{User, Parsed, from_row, from_rows, from_table}

abbrev start : ConfigLog → Parsed
start log = record { policy = record { users = [] }; problems = []; log = log }

-- A row that stands for a user: it has three columns, and the second one, the identity
-- attribute, is not empty.
abbrev column : ℕ → Row → Str
column i row = elim (get_elem? row i) [ none ↦ [] | some c ↦ c ]

abbrev pub is_complete : Row → Bool
is_complete row = length row == 3 && not (column 1 row == [])

-- The user of a complete row, and the problem of another one.
abbrev pub user_of : Row → User
user_of row = record {
  identity_attribute = column 1 row;
  principals = column 0 row ∷ [];
  issuer = column 2 row;
}

abbrev pub row_problem_of : Str → Row → ConfigProblem
row_problem_of path row = record {
  filepath = path;
  offending_line = join row (str " ");
  error_message = if length row == 3 then empty_identity else wrong_number (length row);
  source = str "user policy file";
}

abbrev pub row_users : Row → List User
row_users row = if is_complete row then user_of row ∷ [] else []

abbrev pub row_problems : Str → Row → List ConfigProblem
row_problems path row = if is_complete row then [] else row_problem_of path row ∷ []

abbrev pub all_users : List Row → List User
all_users [] = []
all_users (row ∷ rows) = row_users row ++ all_users rows

abbrev pub all_problems : Str → List Row → List ConfigProblem
all_problems path [] = []
all_problems path (row ∷ rows) = row_problems path row ++ all_problems path rows

module _ (path : Str) where
  from_row-frame :
      (s : Parsed) (row : Row)
      → from_row path s row ≡ record {
        policy = record { users = s.policy.users ++ row_users row };
        problems = s.problems ++ row_problems path row;
        log = s.log ++ row_problems path row;
      }
  unfolding from_row record_problem
  from_row-frame s [] = ground (arith, append-nil s.policy.users)
  from_row-frame s (a ∷ []) = ground (arith, append-nil s.policy.users)
  from_row-frame s (a ∷ b ∷ []) = ground (arith, append-nil s.policy.users)
  from_row-frame s (a ∷ b ∷ c ∷ []) =
      ground (arith, append-nil s.policy.users, append-nil s.problems, append-nil s.log)
  from_row-frame s (a ∷ b ∷ c ∷ d ∷ row) = ground (arith, append-nil s.policy.users)

  pub from_rows-frame :
      (rows : List Row) (s : Parsed)
      → from_rows path s rows ≡ record {
        policy = record { users = s.policy.users ++ all_users rows };
        problems = s.problems ++ all_problems path rows;
        log = s.log ++ all_problems path rows;
      }
  unfolding from_rows
  from_rows-frame [] s =
      ground (arith, append-nil s.policy.users, append-nil s.problems, append-nil s.log)
  from_rows-frame (row ∷ rows) s =
      from_rows-frame rows (from_row path s row) ∙ rw from_row-frame (simp append_assoc)

  -- The users are those of the rows with three columns and an identity attribute, in their order.
  -- Every other row is skipped and reported, with its text and with what is wrong with it, and
  -- costs no other row. The process's log gets the same problems.
  pub from_table_lem :
      (sh : Shell) (input : Str) (log : ConfigLog)
      → from_table sh input path log ≡ record {
        policy = record { users = all_users (new_table sh input).rows };
        problems = all_problems path (new_table sh input).rows;
        log = log ++ all_problems path (new_table sh input).rows;
      }
  unfolding from_table
  from_table_lem sh input log = from_rows-frame (new_table sh input).rows (start log)

pub row_keeps_identity : (row : Row) → All (λ (u : User). u.identity_attribute ≢ []) (row_users row)
row_keeps_identity row = elim (Bool-cases (is_complete row)) [
  | inl e ↦ rw e ((λ h. ground (arith, str_beq_iff (column 1 row) [])), tt)
  | inr e ↦ rw e tt
]
