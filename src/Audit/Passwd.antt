-- ===== src/Audit/Passwd.antt =====
-- The home directories that `opkssh audit` finds in `/etc/passwd`.
use opkssh.Base.{
  false, List, [], ◌∷◌, ◌++◌, ◌≡◌, ◌≢◌, ◌∙◌, arith, Str, str, str_eq, str_beq_iff, All, append-nil,
  append_assoc,
}
use opkssh.Text.{has_prefix, join}
use opkssh.Text.Split.{Lacks, split-join}
use opkssh.Audit.{passwd_entry, passwd_entries, get_home_dirs_from_etc_passwd}

-- A line of the file.
pub record Account : Type 0 where
  pub name : Str
  pub passwd : Str
  pub uid : Str
  pub gid : Str
  pub gecos : Str
  pub dir : Str
  pub shell : Str

abbrev others : Account → List Str
others a = a.passwd ∷ a.uid ∷ a.gid ∷ a.gecos ∷ a.dir ∷ a.shell ∷ []

abbrev pub line_of : Account → Str
line_of a = join (a.name ∷ others a) (str ":")

abbrev pub lines_of : List Account → List Str
lines_of [] = []
lines_of (a ∷ bs) = line_of a ∷ lines_of bs

abbrev pub home_of : Account → Str × Str
home_of a = (a.name, a.dir)

abbrev pub homes_of : List Account → List (Str × Str)
homes_of [] = []
homes_of (a ∷ bs) = home_of a ∷ homes_of bs

-- An account whose line has seven fields, is no comment, and names a home directory.
pub record IsWritten (a : Account) : Type 0 where
  pub fields : All (Lacks b':') (a.name ∷ others a)
  pub one_line : Lacks b'\n' (line_of a)
  pub line_ne_nil : line_of a ≢ []
  pub no_comment : has_prefix (line_of a) (str "#") ≡ false
  pub dir_ne_nil : a.dir ≢ []

passwd_entry-line_of : (a : Account) → IsWritten a → passwd_entry (line_of a) ≡ home_of a ∷ []
unfolding passwd_entry
passwd_entry-line_of a w = ground (
  arith,
  w.no_comment,
  w.dir_ne_nil,
  w.line_ne_nil,
  str_beq_iff (line_of a) [],
  str_beq_iff a.dir [],
  split-join a.name (others a) b':' w.fields,
)

passwd_entries-lines_of :
    (bs : List Account) (out : List (Str × Str))
    → All IsWritten bs
    → passwd_entries out (lines_of bs) ≡ out ++ homes_of bs
unfolding passwd_entries
passwd_entries-lines_of [] out _ = rw append-nil
passwd_entries-lines_of (a ∷ bs) out (w, ws) =
    passwd_entries-lines_of bs _ ws
    ∙ rw (passwd_entry-line_of a w) (append_assoc out (home_of a ∷ []) (homes_of bs))

lines-Lacks : (bs : List Account) → All IsWritten bs → All (Lacks b'\n') (lines_of bs)
lines-Lacks [] _ = tt
lines-Lacks (a ∷ bs) (w, ws) = (w.one_line, lines-Lacks bs ws)

-- From a file of accounts, each on a line of seven fields that is no comment and with a home
-- directory, the audit gets the name and the home directory of each account, in their order.
pub get_home_dirs-join :
    (a : Account) (bs : List Account)
    → All IsWritten (a ∷ bs)
    → get_home_dirs_from_etc_passwd (join (lines_of (a ∷ bs)) (str "\n")) ≡ homes_of (a ∷ bs)
unfolding get_home_dirs_from_etc_passwd
get_home_dirs-join a bs ws =
    rw (split-join (line_of a) (lines_of bs) b'\n' (lines-Lacks (a ∷ bs) ws))
      (passwd_entries-lines_of (a ∷ bs) [] ws)
