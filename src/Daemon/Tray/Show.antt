-- ===== src/Daemon/Tray/Show.antt =====
-- `StatusNotifierItem` and `apply_presentation` of crates/onedrive-daemon/src/tray.rs: the item, the menu
-- and the signals that a new presentation makes, none of which fails to be sent.
pub mod Host
pub mod Told
use one_drive_hydration.Prelude.{
  ℕ, ◌+◌, ◌%◌, ◌^◌, Bool, true, false, not, ◌&&◌, ◌||◌, bool_eq, Option, none, some, List, [], ◌∷◌,
  ◌++◌, is_empty, if◌then◌else◌,
}
use one_drive_hydration.Text.{Text, codes, text_eq}
use one_drive_hydration.Daemon.Tray.{
  Icon, icon_synced, icon_unsent, icon_syncing, icon_exposed, icon_stopped, SniStatus, active,
  needs_attention, Presentation,
}
use one_drive_hydration.Daemon.Tray.Menu.{
  MenuValue, text, flag, Properties, DbusMenu, dynamic_menu_items, menu_item_properties,
}

unfoldable pub icon_eq : Icon → Icon → Bool
icon_eq icon_synced icon_synced = true
icon_eq icon_unsent icon_unsent = true
icon_eq icon_syncing icon_syncing = true
icon_eq icon_exposed icon_exposed = true
icon_eq icon_stopped icon_stopped = true
icon_eq _ _ = false

unfoldable pub status_eq : SniStatus → SniStatus → Bool
status_eq active active = true
status_eq needs_attention needs_attention = true
status_eq _ _ = false

unfoldable pub value_eq : MenuValue → MenuValue → Bool
value_eq (text s) (text t) = text_eq s t
value_eq (flag a) (flag b) = bool_eq a b
value_eq _ _ = false

unfoldable pub properties_eq : Properties → Properties → Bool
unfolding value_eq
properties_eq [] [] = true
properties_eq ((k, v) ∷ a) ((l, w) ∷ b) = text_eq k l && value_eq v w && properties_eq a b
properties_eq _ _ = false

unfoldable pub item_eq : Option Properties → Option Properties → Bool
unfolding properties_eq
item_eq none none = true
item_eq (some a) (some b) = properties_eq a b
item_eq _ _ = false

pub record ToolTip : Type 0 where
  pub icon_name : Text
  pub title : Text
  pub tip : Text

pub record StatusNotifierItem : Type 0 where
  pub presentation : Presentation
  pub has_mount : Bool

abbrev pub tool_tip : Presentation → ToolTip
tool_tip p = record { icon_name = codes "onedrive-hydration"; title = p.headline; tip = p.detail }

abbrev pub item_is_menu : StatusNotifierItem → Bool
item_is_menu item = not item.has_mount

-- The two served objects.
pub record Served : Type 0 where
  pub item : StatusNotifierItem
  pub menu : DbusMenu

pub data TraySignal : Type 0 where
  new_icon new_attention_icon new_tool_tip : TraySignal
  new_status : SniStatus → TraySignal
  items_properties_updated : List (ℕ × Properties) → TraySignal

unfoldable pub item_signals : Presentation → Presentation → List TraySignal
unfolding icon_eq status_eq text_eq
item_signals previous p =
    (if not (icon_eq previous.icon p.icon) then new_icon ∷ new_attention_icon ∷ [] else [])
    ++ ((if not (status_eq previous.sni_status p.sni_status)
          then new_status p.sni_status ∷ []
          else [])
        ++ (if not (text_eq previous.headline p.headline) || not (text_eq previous.detail p.detail)
            then new_tool_tip ∷ []
            else []))

changed_item : ℕ → Option Properties → Bool → List (ℕ × Properties)
changed_item id none same = []
changed_item id (some props) same = if same then [] else (id, props) ∷ []

-- The loop over the items that can change.
unfoldable pub changed_items : Presentation → Presentation → Bool → List ℕ → List (ℕ × Properties)
unfolding changed_item item_eq menu_item_properties
changed_items previous p has_mount [] = []
changed_items previous p has_mount (id ∷ ids) =
    changed_item id (menu_item_properties p has_mount id)
      (item_eq (menu_item_properties previous has_mount id) (menu_item_properties p has_mount id))
    ++ changed_items previous p has_mount ids

-- The revision is a `u32`.
unfoldable pub apply_presentation : Presentation → Served → List TraySignal × Served
unfolding item_signals changed_items
apply_presentation p served =
    let updated =
      changed_items served.menu.presentation p served.menu.has_mount dynamic_menu_items in
    let unchanged = is_empty updated in
    (
      item_signals served.item.presentation p
          ++ (if unchanged then [] else items_properties_updated updated ∷ []),
      record {
        item = record served.item { presentation = p };
        menu = record served.menu {
          presentation = p;
          revision =
              if unchanged then served.menu.revision else (served.menu.revision + 1) % 2 ^ 32;
        };
      },
    )
