-- ===== src/Tests/Paths.antt =====
-- Globs and protected paths.
use opencode_workflows.Prelude.{◌≡◌, refl, none, some, [], ◌∷◌, codes}
use opencode_workflows.Authority.Rules.{default_secret_globs}
use opencode_workflows.Paths.Glob.{
  compile, any_dirs, segment_run, segment_char, literal, protected_path_reason, control_path,
  secret_path,
}

compiles : compile (codes "**/?*k") ≡ any_dirs ∷ segment_char ∷ segment_run ∷ literal b'k' ∷ []
unfolding compile
compiles = refl

control : protected_path_reason default_secret_globs (codes "a/.GIT/config") ≡ some control_path
unfolding protected_path_reason
control = refl

secret : protected_path_reason default_secret_globs (codes "./a\\b/.Env") ≡ some secret_path
unfolding protected_path_reason
secret = refl

plain : protected_path_reason default_secret_globs (codes "src/environment.js") ≡ none
unfolding protected_path_reason
plain = refl

-- `.` does not match a line end, so that a file below a directory with one in its name is no secret.
line_end : protected_path_reason default_secret_globs (b'x' ∷ 10 ∷ b'y' ∷ codes "/.env") ≡ none
unfolding protected_path_reason
line_end = refl
