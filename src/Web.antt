-- ===== src/Web.antt =====
-- internal/web/web.go: the embedded frontend behind the routes.
use starfighter_workflow.Common.{String, Bool, ◌==◌, if◌then◌else◌}

-- The embedded files through io/fs and net/http: whether `Open` finds a path, and what the file
-- server answers to it.
pub record Site (A : Type 0) : Type 0 where
  pub opens : String → Bool
  pub file_server : String → A

-- `Handler`: a path that is no file gets what "/" gets
unfoldable pub handler : {A : Type 0} → Site A → String → A
handler site path =
    if path == "/"
    then site.file_server path
    else if site.opens path
    then site.file_server path
    else site.file_server "/"
