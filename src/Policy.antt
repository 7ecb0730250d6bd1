-- ===== src/Policy.antt =====
-- `User` and `Policy` of policy/policy.go.
pub mod Parse
pub mod Add
pub mod Grants
pub mod Encode
use opkssh.Base.{
  ℕ, zero, suc, ◌+◌, Bool, true, false, not, ◌&&◌, ◌||◌, List, [], ◌∷◌, ◌++◌, Option, none, some,
  Str, str, ◌==◌, str_eq, contains, if◌then◌else◌, length, any,
}
use opkssh.Text.{join}
use opkssh.Table.{Shell, Row, Table, new_table, add_row, to_string}
use opkssh.ConfigLog.{
  ConfigProblem, ConfigLog, Message, wrong_number, empty_identity, record_problem,
}

pub record User : Type 0 where
  pub identity_attribute : Str
  pub principals : List Str
  pub issuer : Str

pub record Policy : Type 0 where
  pub users : List User

-- What `FromTable` returns, with the process's log behind it.
pub record Parsed : Type 0 where
  pub policy : Policy
  pub problems : List ConfigProblem
  pub log : ConfigLog

abbrev problem : Str → Row → Message → ConfigProblem
problem path row message = record {
  filepath = path;
  offending_line = join row (str " ");
  error_message = message;
  source = str "user policy file";
}

abbrev report : ConfigProblem → Parsed → Parsed
report p s = record s { problems = s.problems ++ p ∷ []; log = record_problem p s.log }

abbrev append_user : User → Parsed → Parsed
append_user u s = record s { policy = record { users = s.policy.users ++ u ∷ [] } }

-- One round of the loop of `FromTable`.
pub from_row : Str → Parsed → Row → Parsed
from_row path s (principal ∷ identity ∷ issuer ∷ []) =
    if identity == []
    then report (problem path (principal ∷ identity ∷ issuer ∷ []) empty_identity) s
    else append_user
        (record { identity_attribute = identity; principals = principal ∷ []; issuer = issuer }) s
from_row path s row = report (problem path row (wrong_number (length row))) s

unfoldable pub from_rows : Str → Parsed → List Row → Parsed
unfolding from_row
from_rows path s [] = s
from_rows path s (row ∷ rows) = from_rows path (from_row path s row) rows

-- `FromTable(input, path)`
unfoldable pub from_table : Shell → Str → Str → ConfigLog → Parsed
unfolding from_rows
from_table sh input path log =
    from_rows path (record { policy = record { users = [] }; problems = []; log = log })
      (new_table sh input).rows

-- What the loop of `AddAllowedPrincipal` ends with: an entry that already has the principal, or
-- the index of `firstMatchingEntry`.
pub data Search : Type 0 where
  already : Search
  first_match : Option ℕ → Search

abbrev pub matches : Str → Str → User → Bool
matches email issuer u = u.identity_attribute == email && u.issuer == issuer

abbrev keep_first : Option ℕ → ℕ → Option ℕ
keep_first none i = some i
keep_first (some j) i = some j

pub search_users : Str → Str → Str → ℕ → Option ℕ → List User → Search
search_users principal email issuer i first [] = first_match first
search_users principal email issuer i first (u ∷ us) =
    let here = search_users principal email issuer (suc i) (keep_first first i) us in
    let past = search_users principal email issuer (suc i) first us in
    if matches email issuer u
    then if contains u.principals principal then already else here
    else past

-- `firstMatchingEntry.Principals = append(…)`, through the pointer into `p.Users`.
pub append_principal : Str → ℕ → List User → List User
append_principal principal i [] = []
append_principal principal zero (u ∷ us) =
    record u { principals = u.principals ++ principal ∷ [] } ∷ us
append_principal principal (suc i) (u ∷ us) = u ∷ append_principal principal i us

abbrev pub finish_add : Str → Str → Str → List User → Search → List User
finish_add principal email issuer us already = us
finish_add principal email issuer us (first_match (some i)) = append_principal principal i us
finish_add principal email issuer us (first_match none) =
    us ++ record { identity_attribute = email; principals = principal ∷ []; issuer = issuer } ∷ []

unfoldable pub add_allowed_principal : Str → Str → Str → Policy → Policy
unfolding search_users append_principal
add_allowed_principal principal email issuer p = record p {
  users =
      finish_add principal email issuer p.users
        (search_users principal email issuer 0 none p.users);
}

-- The inner and the outer loop of `ToTable`.
pub principal_rows : User → List Str → Table → Table
principal_rows u [] t = t
principal_rows u (principal ∷ ps) t =
    principal_rows u ps (add_row t (principal ∷ u.identity_attribute ∷ u.issuer ∷ []))

pub user_rows : List User → Table → Table
user_rows [] t = t
user_rows (u ∷ us) t = user_rows us (principal_rows u u.principals t)

unfoldable pub policy_rows : Policy → Table
unfolding user_rows principal_rows
policy_rows p = user_rows p.users (record { rows = [] })

-- `Policy.ToTable`
unfoldable pub to_table : Shell → Policy → Str
to_table sh p = to_string sh (policy_rows p)

-- The rows of a policy seen as a set: who may assume which principal. This is the specification
-- of the operations, and no function of the source.
abbrev pub user_grants : Str → Str → Str → User → Bool
user_grants principal identity issuer u =
    contains u.principals principal && matches identity issuer u

abbrev pub grants : Policy → Str → Str → Str → Bool
grants p principal identity issuer = any (user_grants principal identity issuer) p.users
