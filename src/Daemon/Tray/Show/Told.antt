-- ===== src/Daemon/Tray/Show/Told.antt =====
-- What a host shows after the signals of `apply_presentation`.
use one_drive_hydration.Prelude.{
  ℕ, ◌≡◌, refl, ◌∙◌, ap, sym, Bool, true, false, not, ◌||◌, Option, List, [], ◌∷◌, ◌++◌, is_empty,
  if◌then◌else◌,
}
use one_drive_hydration.Text.{text_eq, text_eq-eq}
use one_drive_hydration.Daemon.Tray.{Presentation}
use one_drive_hydration.Daemon.Tray.Menu.{Properties, dynamic_menu_items, menu_item_properties}
use one_drive_hydration.Daemon.Tray.Show.{
  icon_eq, status_eq, tool_tip, Served, TraySignal, new_icon, new_attention_icon, new_tool_tip,
  new_status, items_properties_updated, item_signals, changed_items, apply_presentation,
}
use one_drive_hydration.Daemon.Tray.Show.Host.{
  View, hear, hear_all, set_items, icon_eq-eq, status_eq-eq, changed_items-now,
}

-- What a host sees of the served objects.
abbrev pub seen : Served → View
seen served = record {
  icon = served.item.presentation.icon;
  attention_icon = served.item.presentation.icon;
  status = served.item.presentation.sni_status;
  tip = tool_tip served.item.presentation;
  menu = menu_item_properties served.menu.presentation served.menu.has_mount;
}

hear_all-append :
    (p : Presentation) (a b : List TraySignal) (v : View)
    → hear_all p (a ++ b) v ≡ hear_all p b (hear_all p a v)
unfolding hear_all
hear_all-append p [] b v = refl
hear_all-append p (signal ∷ a) b v = hear_all-append p a b (hear p signal v)

hear_part :
    (p : Presentation) (a b : List TraySignal) (v v' : View)
    → hear_all p a v ≡ v'
    → hear_all p (a ++ b) v ≡ hear_all p b v'
hear_part p a b v v' e = hear_all-append p a b v ∙ ap (hear_all p b) e

-- Signals that are left out when nothing changed.
hear_if :
    (p : Presentation) (same : Bool) (signals : List TraySignal) (v v' : View)
    → hear_all p signals v ≡ v'
    → (same ≡ true → v ≡ v')
    → hear_all p (if same then [] else signals) v ≡ v'
unfolding hear_all
hear_if p true signals v v' told stays = stays refl
hear_if p false signals v v' told stays = told

hear_if_not :
    (p : Presentation) (same : Bool) (signals : List TraySignal) (v v' : View)
    → hear_all p signals v ≡ v'
    → (same ≡ true → v ≡ v')
    → hear_all p (if not same then signals else []) v ≡ v'
unfolding hear_all
hear_if_not p true signals v v' told stays = stays refl
hear_if_not p false signals v v' told stays = told

hear_if_either :
    (p : Presentation) (same also : Bool) (signals : List TraySignal) (v v' : View)
    → hear_all p signals v ≡ v'
    → (same ≡ true → also ≡ true → v ≡ v')
    → hear_all p (if not same || not also then signals else []) v ≡ v'
unfolding hear_all
hear_if_either p true true signals v v' told stays = stays refl refl
hear_if_either p true false signals v v' told stays = told
hear_if_either p false also signals v v' told stays = told

no_items : (items : List (ℕ × Properties)) → is_empty items ≡ true → items ≡ []
no_items [] h = refl
no_items (i ∷ items) h = cc

module _ (previous p : Presentation) (menu : ℕ → Option Properties) where
  abbrev v0 : View
  v0 = record {
    icon = previous.icon;
    attention_icon = previous.icon;
    status = previous.sni_status;
    tip = tool_tip previous;
    menu = menu;
  }

  abbrev v1 : View
  v1 = record v0 { icon = p.icon; attention_icon = p.icon }

  abbrev v2 : View
  v2 = record v1 { status = p.sni_status }

  abbrev v3 : View
  v3 = record v2 { tip = tool_tip p }

  hear_all-item_signals : hear_all p (item_signals previous p) v0 ≡ v3
  unfolding item_signals hear_all hear
  hear_all-item_signals =
      let same_icon = icon_eq previous.icon p.icon in
      let same_status = status_eq previous.sni_status p.sni_status in
      let same_title = text_eq previous.headline p.headline in
      let same_text = text_eq previous.detail p.detail in
      let icons : List TraySignal =
        if not same_icon then new_icon ∷ new_attention_icon ∷ [] else [] in
      let statuses : List TraySignal =
        if not same_status then new_status p.sni_status ∷ [] else [] in
      let tips : List TraySignal =
        if not same_title || not same_text then new_tool_tip ∷ [] else [] in
      hear_part p icons (statuses ++ tips) v0 v1 (
        hear_if_not p same_icon (new_icon ∷ new_attention_icon ∷ []) v0 v1 refl (λ e.
          ap (λ i. record v0 { icon = i; attention_icon = i }) (icon_eq-eq previous.icon p.icon e)))
      ∙ hear_part p statuses tips v1 v2 (
          hear_if_not p same_status (new_status p.sni_status ∷ []) v1 v2 refl (λ e.
            ap (λ i. record v1 { status = i }) (status_eq-eq previous.sni_status p.sni_status e)))
      ∙ hear_if_either p same_title same_text (new_tool_tip ∷ []) v2 v3 refl (λ e f.
        ap (λ t. record v2 { tip = record (tool_tip previous) { title = t } })
          (text_eq-eq previous.headline p.headline e)
        ∙ ap (λ t. record v2 { tip = record (tool_tip p) { tip = t } })
            (text_eq-eq previous.detail p.detail f))

hear_all-menu :
    (p : Presentation) (served : Served) (v : View)
    → v.menu ≡ menu_item_properties served.menu.presentation served.menu.has_mount
    → hear_all p
        (if is_empty
            (changed_items served.menu.presentation p served.menu.has_mount dynamic_menu_items)
          then []
          else items_properties_updated
              (changed_items served.menu.presentation p served.menu.has_mount dynamic_menu_items)
            ∷ [])
        v
      ≡ record v { menu = menu_item_properties p served.menu.has_mount }
unfolding hear_all hear set_items
hear_all-menu p served v e =
    let items = changed_items served.menu.presentation p served.menu.has_mount dynamic_menu_items in
    let all_now : set_items items v.menu ≡ menu_item_properties p served.menu.has_mount =
      ap (set_items items) e ∙ changed_items-now served.menu.presentation p served.menu.has_mount in
    hear_if p (is_empty items) (items_properties_updated items ∷ []) v _
      (ap (λ m. record v { menu = m }) all_now)
      (λ none_changed.
        ap (λ m. record v { menu = m })
          (ap (λ i. set_items i v.menu) (sym (no_items items none_changed)) ∙ all_now))

-- A host that showed what it saw of the item and of the menu, and that reads the item again at its
-- signals and takes the items of the menu from their updates, shows after the signals of
-- `apply_presentation` exactly what it would see of them now.
pub apply_presentation-seen :
    (p : Presentation) (served : Served)
    → hear_all p (apply_presentation p served).0 (seen served)
      ≡ seen (apply_presentation p served).1
unfolding apply_presentation
apply_presentation-seen p served =
    let m = menu_item_properties served.menu.presentation served.menu.has_mount in
    hear_part p (item_signals served.item.presentation p) _ (seen served)
      (v3 served.item.presentation p m) (hear_all-item_signals served.item.presentation p m)
    ∙ hear_all-menu p served (v3 served.item.presentation p m) refl
