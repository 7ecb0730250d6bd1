-- ===== src/Logout/Lines.antt =====
-- The lines of the configuration that `removeFromOpkSSHConfig` keeps.
use opkssh.Base.{not, ◌&&◌, List, [], ◌∷◌, Str, ◌==◌, nat_eq, str_eq, if◌then◌else◌, head_or}
use opkssh.Text.{split, join, trim_space}
use opkssh.Login.Keys.{identity_line}

-- `strings.ReplaceAll(s, "\r\n", "\n")`
unfoldable pub unix_lines : Str → Str
unix_lines [] = []
unix_lines (c ∷ s) =
    let rest = unix_lines s in if c == b'\r' && head_or 0 s == b'\n' then rest else c ∷ rest

-- The loop over the lines of the configuration.
unfoldable pub other_lines : Str → List Str → List Str
other_lines identity [] = []
other_lines identity (line ∷ lines) =
    let rest = other_lines identity lines in
    if not (trim_space line == identity) then line ∷ rest else rest

-- The configuration without the lines of a key.
unfoldable pub without_identity : Str → Str → Str
unfolding unix_lines other_lines
without_identity path content =
    join (other_lines (identity_line path) (split (unix_lines content) b'\n')) (b'\n' ∷ [])
