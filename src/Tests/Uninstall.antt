-- ===== src/Tests/Uninstall.antt =====
-- The theorems on uninstalling and on running a plan, at concrete machines.
use one_drive_hydration.Prelude.{◌≡◌, refl, true, false, some, [], ok}
use one_drive_hydration.Text.{codes}
use one_drive_hydration.Text.FilePath.{path_eq}
use one_drive_hydration.Installer.Facts.{Facts}
use one_drive_hydration.Installer.Main.{planned_uninstall, planned_uninstall-HasWide}
use one_drive_hydration.Installer.Plan.{real}
use one_drive_hydration.Installer.Plan.Execute.{mode_of}
use one_drive_hydration.Installer.Plan.Execute.Perform.{execute}
use one_drive_hydration.Installer.Plan.Execute.Modes.{
  narration, execute-dry, AllFileEvents, execute-rehearsal, Accounts, execute-Accounts,
}
use one_drive_hydration.Installer.Plan.Uninstall.{uninstall, uninstall_checks, uninstall_actions}
use one_drive_hydration.Installer.Plan.Uninstall.Safety.{Guarded, uninstall-Guarded}
use one_drive_hydration.Tests.Machines.{
  ada, mounted_table, root_machine, willing, for_real, in_a_copy, for_show,
}

accepted :
    (uninstall root_machine ada true true for_real).actions
    ≡ some (uninstall_actions root_machine ada true for_real)
unfolding uninstall uninstall_checks real path_eq
accepted = refl

for_real_is : real for_real ≡ true
unfolding real path_eq
for_real_is = refl

elsewhere : path_eq in_a_copy.prefix (codes "/") ≡ false
unfolding path_eq
elsewhere = refl

uninstall-Guarded_example :
    Guarded
      (codes "/h/o")
      (execute willing
        (mode_of for_real)
        (uninstall_actions root_machine ada true for_real)
        []).history
uninstall-Guarded_example =
    uninstall-Guarded root_machine ada true for_real willing accepted for_real_is

execute-dry_example :
    execute willing (mode_of for_show) (uninstall_actions root_machine ada true for_show) []
    ≡ record {
      log = narration (uninstall_actions root_machine ada true for_show);
      result = ok tt;
      history = [];
    }
execute-dry_example =
    execute-dry willing for_show (uninstall_actions root_machine ada true for_show) [] refl

execute-rehearsal_example :
    AllFileEvents
      (execute willing
        (mode_of in_a_copy)
        (uninstall_actions root_machine ada true in_a_copy)
        []).history
execute-rehearsal_example =
    execute-rehearsal willing in_a_copy (uninstall_actions root_machine ada true in_a_copy)
      elsewhere

execute-Accounts_example :
    Accounts
      (mode_of for_real)
      (uninstall_actions root_machine ada true for_real)
      (execute willing (mode_of for_real) (uninstall_actions root_machine ada true for_real) []).log
      (execute willing
        (mode_of for_real)
        (uninstall_actions root_machine ada true for_real)
        []).result
execute-Accounts_example =
    execute-Accounts willing (mode_of for_real) (uninstall_actions root_machine ada true for_real)
      []

-- A sync root in a directory with a Chinese name.
abbrev wide_ada : Facts
wide_ada = record {
  user = codes "ada";
  uid = 1000;
  gid = 1000;
  home = codes "/h";
  mount = codes "/h/云";
  socket = codes "/run/user/1000/onedrive-hydration.sock";
  client_id = codes "id";
  bin_dir = codes "/b";
}

planned_uninstall-HasWide_example :
    planned_uninstall root_machine wide_ada mounted_table true for_real
    ≡ uninstall root_machine wide_ada false true for_real
planned_uninstall-HasWide_example =
    planned_uninstall-HasWide root_machine wide_ada mounted_table true for_real refl
