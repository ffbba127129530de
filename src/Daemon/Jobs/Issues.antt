-- ===== src/Daemon/Jobs/Issues.antt =====
-- `check_issues` of crates/onedrive-daemon/src/jobs.rs: no job over data that needs a review. The issues
-- are given as what the JSON reader finds: the `path` of each issue of kind `availability` that has one.
use one_drive_hydration.Prelude.{
  List, [], ◌∷◌, ◌++◌, any, if◌then◌else◌, Result, ok, err, ErrorKind,
}
use one_drive_hydration.Text.{Text, codes, split}
use one_drive_hydration.Text.FilePath.{is_absolute, keep_components}
use one_drive_hydration.Daemon.Jobs.Paths.{PathParts, starts_at}

pub data IssueError : Type 0 where
  unresolved : ErrorKind → IssueError
  needs_review : Text → IssueError

-- `root.join(relative)`, as components.
issue_path : PathParts → Text → PathParts
unfolding is_absolute keep_components split
issue_path root relative =
    if is_absolute relative
    then codes "/" ∷ keep_components (split 47 relative)
    else root ++ keep_components (split 47 relative)

first_issue : PathParts → List PathParts → List Text → Result IssueError (Unit {0})
unfolding issue_path starts_at
first_issue root selected [] = ok tt
first_issue root selected (relative ∷ issues) =
    let rest = first_issue root selected issues in
    if any (starts_at (issue_path root relative)) selected
    then err (needs_review relative)
    else rest

module _ (canonicalize : Text → Result ErrorKind PathParts) where
  and_canonical :
      Result ErrorKind PathParts
      → Result ErrorKind (List PathParts)
      → Result ErrorKind (List PathParts)
  and_canonical (err e) rest = err e
  and_canonical (ok path) (err e) = err e
  and_canonical (ok path) (ok paths) = ok (path ∷ paths)

  canonical_all : List Text → Result ErrorKind (List PathParts)
  unfolding and_canonical
  canonical_all [] = ok []
  canonical_all (path ∷ paths) = and_canonical (canonicalize path) (canonical_all paths)

  issues_below :
      Result ErrorKind (List PathParts)
      → Result ErrorKind PathParts
      → List Text
      → Result IssueError (Unit {0})
  unfolding first_issue
  issues_below (err e) root issues = err (unresolved e)
  issues_below (ok selected) (err e) issues = err (unresolved e)
  issues_below (ok selected) (ok root) issues = first_issue root selected issues

  unfoldable pub check_issues : Text → List Text → List Text → Result IssueError (Unit {0})
  unfolding issues_below canonical_all
  check_issues root paths issues = issues_below (canonical_all paths) (canonicalize root) issues
