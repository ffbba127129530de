-- ===== src/Installer/Units/Scan.antt =====
-- The scan of crates/installer/src/units.rs for directives that give a unit its own mount namespace.
use one_drive_hydration.Prelude.{
  ℕ, ◌+◌, Bool, ◌&&◌, ◌||◌, Option, none, some, List, [], ◌∷◌, ◌++◌, leb, if◌then◌else◌, any,
  is_empty, map,
}
use one_drive_hydration.Text.{Text, codes, text_eq, starts_with, split_once}
use one_drive_hydration.Text.Words.{trim, trim_start, lines}

abbrev pub measured_namespace_directives : List Text
measured_namespace_directives = map codes (
    "PrivateTmp" ∷ "PrivateNetwork" ∷ "ProtectKernelTunables" ∷ "ProtectControlGroups"
    ∷ "ProtectKernelModules" ∷ [])

abbrev pub documented_namespace_directives : List Text
documented_namespace_directives = map codes (
    "PrivateMounts" ∷ "PrivateDevices" ∷ "PrivateUsers" ∷ "ProtectHome" ∷ "ProtectSystem"
    ∷ "ProtectProc" ∷ "ProcSubset" ∷ "ProtectKernelLogs" ∷ "ReadWritePaths" ∷ "ReadOnlyPaths"
    ∷ "InaccessiblePaths" ∷ "ExecPaths" ∷ "NoExecPaths" ∷ "BindPaths" ∷ "BindReadOnlyPaths"
    ∷ "TemporaryFileSystem" ∷ "MountAPIVFS" ∷ "MountFlags" ∷ "RootDirectory" ∷ "RootImage" ∷ [])

abbrev pub forbidden_directives : List Text
forbidden_directives = measured_namespace_directives ++ documented_namespace_directives

-- `eq_ignore_ascii_case`
ascii_lower : ℕ → ℕ
ascii_lower c = if leb 65 c && leb c 90 then c + 32 else c

unfoldable pub eq_ignore_ascii_case : Text → Text → Bool
unfolding ascii_lower text_eq
eq_ignore_ascii_case s t = text_eq (map ascii_lower s) (map ascii_lower t)

abbrev pub is_forbidden : Text → Bool
is_forbidden key = any (λ d. eq_ignore_ascii_case d key) forbidden_directives

abbrev is_comment : Text → Bool
is_comment line = is_empty line || starts_with line (codes "#") || starts_with line (codes ";")

-- The body of the loop: the key that a line sets, if that is forbidden.
unfoldable pub line_directive : Text → Option Text
line_directive raw =
    let line = trim_start raw in
    if is_comment line then none else elim (split_once (codes "=") line) [
      | none ↦ none
      | some (key, value) ↦ if is_forbidden (trim key) then some (trim key) else none
    ]

directives_from : ℕ → List Text → List (ℕ × Text)
directives_from n [] = []
directives_from n (raw ∷ rest) =
    let more = directives_from (n + 1) rest in
    elim (line_directive raw) [ some key ↦ (n, key) ∷ more | none ↦ more ]

unfoldable pub namespace_directives : Text → List (ℕ × Text)
unfolding directives_from
namespace_directives text = directives_from 1 (lines text)

unfoldable pub must_share_host_namespace : Text → Bool
must_share_host_namespace name = starts_with name (codes "hydrationd.")
