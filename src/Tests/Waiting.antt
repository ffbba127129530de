-- ===== src/Tests/Waiting.antt =====
-- The waiting for the secret store: it comes up at the third look.
use one_drive_hydration.Prelude.{ℕ, leb, if◌then◌else◌}
use one_drive_hydration.Text.{codes}
use one_drive_hydration.Daemon.Store.{StoreSight, present, absent, wait_for_store}
use one_drive_hydration.Daemon.Store.Deadline.{Ends, wait_for_store-Ends}

abbrev third_look : ℕ → StoreSight
third_look n = if leb 2 n then present (codes "owned") else absent (codes "no owner")

wait_for_store-Ends_example : Ends (wait_for_store 1000 third_look) third_look 1000 0 0
wait_for_store-Ends_example = wait_for_store-Ends third_look 1000
