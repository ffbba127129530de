-- ===== src/Tests/Panel.antt =====
-- The tray: what it shows for a running daemon, a click, and a new state from the service.
use one_drive_hydration.Prelude.{
  ℕ, suc, ◌≡◌, ◌≢◌, refl, ◌↔◌, true, false, none, some, List, [], ◌∷◌, any, err,
}
use one_drive_hydration.Text.{codes, text_eq}
use one_drive_hydration.Daemon.AuthState.{healthy, rejected, state_eq}
use one_drive_hydration.Daemon.Bus.{DaemonState, default_state}
use one_drive_hydration.Daemon.Surface.Signals.{publish_state, publish_credential}
use one_drive_hydration.Daemon.Tray.{
  icon_synced, needs_attention, present, present_running, with_rows,
}
use one_drive_hydration.Daemon.Tray.Desktop.{
  Json, no_desktop, present_with_desktop, with_excluded, runs_unexposed, overlaid,
}
use one_drive_hydration.Daemon.Tray.Honest.{AllIsWell, present_with_desktop-AllIsWell}
use one_drive_hydration.Daemon.Tray.Attention.{MustAct, MaySignIn, present_with_desktop-MustAct}
use one_drive_hydration.Daemon.Tray.Menu.{
  DbusMenu, panicked, menu_sign_in, get_layout, event, event_group, menu_item_properties,
}
use one_drive_hydration.Daemon.Tray.Menu.Serves.{
  IsServed, is_sign_in, get_layout-get_group_properties, event_group-MaySignIn,
}
use one_drive_hydration.Daemon.Tray.Show.{apply_presentation}
use one_drive_hydration.Daemon.Tray.Show.Host.{hear_all}
use one_drive_hydration.Daemon.Tray.Show.Told.{seen, apply_presentation-seen}
use one_drive_hydration.Daemon.Tray.Turn.{
  ColdRead, TrayEvent, state_event, download_event, service_gone, sign_in, quit, show, going, turns,
  all_events, served_first, unshown_tray, start_tray,
}
use one_drive_hydration.Daemon.Tray.Turn.Shown.{LoopShown, turns-start_tray}
use one_drive_hydration.Daemon.Tray.Turn.Service.{
  Knows, publish_state-Knows, publish_credential-turns,
}

abbrev running : DaemonState
running = record default_state { daemon_running = true; excluded = 5 }

abbrev busy : DaemonState
busy = record running { downloading = 2; uploading = codes "a" ∷ [] }

present_with_desktop-AllIsWell_example :
    ((present_with_desktop (some running) healthy no_desktop).headline ≡ codes "Up to date"
      ↔ AllIsWell (some running) healthy no_desktop)
    × ((present_with_desktop (some running) healthy no_desktop).icon ≡ icon_synced
        ↔ AllIsWell (some running) healthy no_desktop)
present_with_desktop-AllIsWell_example =
    present_with_desktop-AllIsWell (some running) healthy no_desktop

present_with_desktop-MustAct_example :
    (present_with_desktop (some busy) rejected no_desktop).sni_status ≡ needs_attention
    ↔ MustAct (some busy) rejected no_desktop
present_with_desktop-MustAct_example = present_with_desktop-MustAct (some busy) rejected no_desktop

abbrev rejected_menu : DbusMenu
rejected_menu = record {
  presentation = present_with_desktop (some busy) rejected no_desktop;
  has_mount = true;
  revision = 4;
}

sign_in_clicked :
    any is_sign_in (event_group rejected_menu ((menu_sign_in, codes "clicked") ∷ [])).1 ≡ true
unfolding event_group event menu_item_properties text_eq present_with_desktop with_excluded
    runs_unexposed overlaid present present_running with_rows state_eq
sign_in_clicked = refl

event_group-MaySignIn_example : MaySignIn (some busy) rejected
event_group-MaySignIn_example =
    event_group-MaySignIn (some busy) rejected no_desktop true 4
      ((menu_sign_in, codes "clicked") ∷ []) sign_in_clicked

get_layout-get_group_properties_example :
    ((parent depth : ℕ) → get_layout rejected_menu parent depth ≢ err panicked)
    × ((depth : ℕ) → IsServed rejected_menu (suc depth))
get_layout-get_group_properties_example = get_layout-get_group_properties rejected_menu

apply_presentation-seen_example :
    hear_all rejected_menu.presentation
      (apply_presentation rejected_menu.presentation (served_first true)).0
      (seen (served_first true))
    ≡ seen (apply_presentation rejected_menu.presentation (served_first true)).1
apply_presentation-seen_example =
    apply_presentation-seen rejected_menu.presentation (served_first true)

abbrev first_read : ColdRead
first_read = record {
  read_desktop = no_desktop;
  read_state = some running;
  read_credential = healthy;
}

abbrev events : List TrayEvent
events = download_event 1 ∷ service_gone ∷ state_event busy ∷ sign_in ∷ quit ∷ []

turns-start_tray_example : LoopShown true (turns events (start_tray true first_read))
turns-start_tray_example = turns-start_tray true first_read events

-- A JSON library that reads nothing.
abbrev mute : Json
mute = record {
  Node = Unit;
  from_str = λ t. none;
  index = λ v k. v;
  is_true = λ v. false;
  as_bool = λ v. none;
  as_array = λ v. none;
}

starts_running : (start_tray true first_read).daemon_state ≡ some running
unfolding start_tray unshown_tray show
starts_running = refl

publish_state-Knows_example :
    Knows
      (some busy)
      (turns (all_events mute (publish_state running busy)) (start_tray true first_read))
publish_state-Knows_example =
    publish_state-Knows mute running busy (start_tray true first_read) starts_running

publish_credential-turns_example :
    turns (all_events mute (publish_credential healthy rejected)) (start_tray true first_read)
    ≡ going (show (record (start_tray true first_read) { credential = rejected }))
publish_credential-turns_example =
    publish_credential-turns mute healthy rejected (start_tray true first_read)
