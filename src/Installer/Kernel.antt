-- ===== src/Installer/Kernel.antt =====
-- The kernel probe of crates/installer/src/probes.rs. What the system calls answer is an argument.
use one_drive_hydration.Prelude.{
  ℕ, ◌^◌, Bool, true, false, ◌&&◌, ◌||◌, Option, none, some, List, [], ◌∷◌, ◌++◌, ltb, leb,
  if◌then◌else◌, unwrap_or, Result, ok, err, ◌==◌,
}
use one_drive_hydration.Text.{Text, codes}
use one_drive_hydration.Text.Number.{is_digit, parse_unsigned}

-- A detail text of the source, with what it quotes.
pub data KernelDetail : Type 0 where
  no_release : KernelDetail
  unparsed_release : Text → KernelDetail
  init_failed : ℕ → KernelDetail
  mark_failed : ℕ → KernelDetail
  no_probe_file : Text → KernelDetail

pub data KernelSupport : Type 0 where
  measured inferred too_old_measured too_old_inferred : Text → KernelSupport
  unknown : KernelDetail → KernelSupport

abbrev pub supported : KernelSupport → Bool
supported (measured release) = true
supported (inferred release) = true
supported _ = false

-- `split(|c| !c.is_ascii_digit())`
digit_runs : Text → Text → List Text
digit_runs cur [] = cur ∷ []
digit_runs cur (c ∷ s) =
    let cut = digit_runs [] s in
    let more = digit_runs (cur ++ c ∷ []) s in if is_digit c then more else cur ∷ cut

version_of_runs : List Text → Option (ℕ × ℕ)
version_of_runs (major ∷ minor ∷ _) = elim (parse_unsigned (2 ^ 32) major) [
  | none ↦ none
  | some maj ↦ elim (parse_unsigned (2 ^ 32) minor) [ none ↦ none | some min ↦ some (maj, min) ]
]
version_of_runs _ = none

unfoldable pub parse_release : Text → Option (ℕ × ℕ)
unfolding digit_runs version_of_runs parse_unsigned
parse_release release = version_of_runs (digit_runs [] release)

-- `(maj, min) >= (6, 14)`
abbrev pub at_least_6_14 : ℕ → ℕ → Bool
at_least_6_14 maj min = ltb 6 maj || (maj == 6 && leb 14 min)

unfoldable pub support_from_release : Option Text → KernelSupport
support_from_release none = unknown no_release
support_from_release (some release) = elim (parse_release release) [
  | none ↦ unknown (unparsed_release release)
  | some (maj, min) ↦ if at_least_6_14 maj min then inferred release else too_old_inferred release
]

abbrev pub eperm : ℕ
eperm = 1

abbrev pub einval : ℕ
einval = 22

abbrev pub eopnotsupp : ℕ
eopnotsupp = 95

-- `kernel_precontent_support`, over the release that `uname` gives, the error number of
-- `fanotify_init`, if it fails, and the outcome of `mark_probe_file`.
unfoldable pub kernel_precontent_support :
    Option Text → Option ℕ → Result Text (Option ℕ) → KernelSupport
kernel_precontent_support release (some errno) mark =
    if errno == eperm then support_from_release release else unknown (init_failed errno)
kernel_precontent_support release none (err detail) = unknown (no_probe_file detail)
kernel_precontent_support release none (ok none) = measured (unwrap_or release (codes "unknown"))
kernel_precontent_support release none (ok (some errno)) =
    if errno == eopnotsupp
    then measured (unwrap_or release (codes "unknown"))
    else if errno == einval
    then too_old_measured (unwrap_or release (codes "unknown"))
    else unknown (mark_failed errno)
