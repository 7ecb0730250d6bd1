-- ===== src/Providers/GitlabCi/Passes.antt =====
-- When the check of a GitLab CI/CD token passes.
use opkssh.Base.{str_eq}
