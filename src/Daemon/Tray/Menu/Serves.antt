-- ===== src/Daemon/Tray/Menu/Serves.antt =====
-- What the menu serves: its layout, and what a click can set off.
use one_drive_hydration.Prelude.{
  ℕ, suc, ◌≡◌, ◌≢◌, refl, ◌∙◌, ap, Bool, true, false, not, ◌&&◌, ◌||◌, Option, none, some, List, [],
  ◌∷◌, ◌++◌, is_some, ◌==◌, any, All, ok, err, Bool-cases, inl, inr, arith,
}
use one_drive_hydration.Text.{Text, codes}
use one_drive_hydration.Daemon.AuthState.{CredentialState}
use one_drive_hydration.Daemon.Bus.{DaemonState}
use one_drive_hydration.Daemon.Tray.{Presentation}
use one_drive_hydration.Daemon.Tray.Desktop.{DesktopStatus, present_with_desktop}
use one_drive_hydration.Daemon.Tray.Attention.{MaySignIn, present_with_desktop-MaySignIn}
use one_drive_hydration.Daemon.Tray.Menu.{
  text, panicked, DbusMenu, menu_root, item_ids, item_properties, layout_children, layout_of,
  get_layout, add_child, known, properties_of, get_group_properties, menu_item_properties, event,
  send_sign_in, Click, event_group, Properties,
}

abbrev Known : DbusMenu → List ℕ → Type 0
Known menu = All (λ id. is_some (item_properties menu id) ≡ true)

add_child-known :
    (id : ℕ) (props : Option Properties) (children : List (ℕ × Properties))
    → is_some props ≡ true
    → add_child id props (some children) ≡ some (known id props ++ children)
unfolding add_child known
add_child-known id none children h = cc
add_child-known id (some props) children h = refl

layout_children-properties_of :
    (menu : DbusMenu) (ids : List ℕ)
    → Known menu ids
    → layout_children menu ids ≡ some (properties_of menu ids)
unfolding layout_children properties_of
layout_children-properties_of menu [] h = refl
layout_children-properties_of menu (id ∷ ids) (here, there) =
    ap (add_child id (item_properties menu id)) (layout_children-properties_of menu ids there)
    ∙ add_child-known id (item_properties menu id) (properties_of menu ids) here

item_ids-Known :
    (p : Presentation) (has_mount : Bool)
    → All (λ id. is_some (menu_item_properties p has_mount id) ≡ true) (item_ids has_mount)
unfolding item_ids menu_item_properties
item_ids-Known p true =
    (refl, (refl, (refl, (refl, (refl, (refl, (refl, (refl, (refl, (refl, tt))))))))))
item_ids-Known p false = (refl, (refl, (refl, (refl, (refl, (refl, (refl, (refl, tt))))))))

layout_of_sound :
    (menu : DbusMenu) (parent : ℕ) (props : Option Properties) (children : List (ℕ × Properties))
    → layout_of menu parent props (some children) ≢ err panicked
unfolding layout_of
layout_of_sound menu parent none children h = cc
layout_of_sound menu parent (some props) children h = cc

item_ids-children :
    (menu : DbusMenu)
    → layout_children menu (item_ids menu.has_mount)
      ≡ some (properties_of menu (item_ids menu.has_mount))
item_ids-children menu =
    layout_children-properties_of menu (item_ids menu.has_mount)
      (item_ids-Known menu.presentation menu.has_mount)

never_panics : (menu : DbusMenu) (parent depth : ℕ) → get_layout menu parent depth ≢ err panicked
unfolding get_layout
never_panics menu parent depth = elim (Bool-cases (parent == menu_root && not (depth == 0))) [
  | inl e ↦
      rw (e, item_ids-children menu) (layout_of_sound menu parent (item_properties menu parent) _)
  | inr e ↦ rw e (layout_of_sound menu parent (item_properties menu parent) [])
]

abbrev pub IsServed : DbusMenu → ℕ → Type 0
IsServed menu depth =
    (props : Properties) × (children : List (ℕ × Properties)) × (get_layout menu menu_root depth
      ≡ ok (menu.revision, menu_root, props, children))
    × (get_group_properties menu [] ≡ (menu_root, props) ∷ children)

suc_some : (n : ℕ) → (suc n == 0) ≡ false
suc_some n = ground arith

root_layout : (menu : DbusMenu) (depth : ℕ) → IsServed menu (suc depth)
unfolding get_layout get_group_properties properties_of menu_item_properties known layout_of
root_layout menu depth = (
  (codes "children-display", text (codes "submenu")) ∷ [],
  properties_of menu (item_ids menu.has_mount),
  rw (item_ids-children menu, suc_some depth) refl,
  refl,
)

-- The `expect` in `get_layout` never panics, whatever the parent and the depth are. The layout of the
-- root has, at every depth but 0, the items of the menu with the properties that
-- `get_group_properties` gives for no ids, the root first.
pub get_layout-get_group_properties :
    (menu : DbusMenu)
    → ((parent depth : ℕ) → get_layout menu parent depth ≢ err panicked)
      × ((depth : ℕ) → IsServed menu (suc depth))
get_layout-get_group_properties menu = (never_panics menu, root_layout menu)

abbrev pub is_sign_in : Click → Bool
is_sign_in send_sign_in = true
is_sign_in _ = false

any-append : (a b : List Click) → any is_sign_in (a ++ b) ≡ (any is_sign_in a || any is_sign_in b)
any-append [] b = refl
any-append (c ∷ a) b = ground (arith, any-append a b)

event-sign_in :
    (menu : DbusMenu) (id : ℕ) (event_id : Text)
    → any is_sign_in (event menu id event_id) ≡ true
    → menu.presentation.offer_sign_in ≡ true
unfolding event
event-sign_in menu id event_id h = ground arith

event_group-offered :
    (menu : DbusMenu) (events : List (ℕ × Text))
    → any is_sign_in (event_group menu events).1 ≡ true
    → menu.presentation.offer_sign_in ≡ true
unfolding event_group
event_group-offered menu [] h = cc
event_group-offered menu ((id, event_id) ∷ events) h = ground (
  arith,
  event_group-offered menu events,
  event-sign_in menu id event_id,
  any-append (event menu id event_id) (event_group menu events).1,
)

-- No batch of events on a menu that shows a state starts a sign-in, unless that state is of a running
-- daemon whose sign-in is rejected.
pub event_group-MaySignIn :
    (state : Option DaemonState) (credential : CredentialState) (desktop : DesktopStatus)
    (has_mount : Bool) (revision : ℕ) (events : List (ℕ × Text))
    → any is_sign_in
        (event_group
          (record {
            presentation = present_with_desktop state credential desktop;
            has_mount = has_mount;
            revision = revision;
          })
          events).1
      ≡ true
    → MaySignIn state credential
event_group-MaySignIn state credential desktop has_mount revision events h =
    (present_with_desktop-MaySignIn state credential desktop).0 (event_group-offered _ events h)
