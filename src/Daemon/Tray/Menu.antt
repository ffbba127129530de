-- ===== src/Daemon/Tray/Menu.antt =====
-- `DBusMenu` of crates/onedrive-daemon/src/tray.rs: the items of the menu and the methods of the object
-- that serves them. An id is the 32 bits of an `i32`. The conversions into owned values, which fail
-- for no text and no flag, are left out.
pub mod Serves
use one_drive_hydration.Prelude.{
  ℕ, ◌+◌, ◌%◌, ◌^◌, Bool, true, false, not, ◌&&◌, Option, none, some, List, [], ◌∷◌, ◌++◌, is_some,
  is_empty, unwrap_or, ◌==◌, if◌then◌else◌, Result, ok, err,
}
use one_drive_hydration.Text.{Text, codes, text_eq}
use one_drive_hydration.Daemon.Tray.{Presentation}

abbrev pub menu_root : ℕ
menu_root = 0

abbrev pub menu_status : ℕ
menu_status = 1

abbrev pub menu_separator_a : ℕ
menu_separator_a = 2

abbrev pub menu_folder : ℕ
menu_folder = 3

abbrev pub menu_separator_b : ℕ
menu_separator_b = 4

abbrev pub menu_quit : ℕ
menu_quit = 5

abbrev pub menu_downloading : ℕ
menu_downloading = 6

abbrev pub menu_indexing : ℕ
menu_indexing = 7

abbrev pub menu_uploads : ℕ
menu_uploads = 8

abbrev pub menu_sign_in : ℕ
menu_sign_in = 9

abbrev pub menu_placeholders : ℕ
menu_placeholders = 10

pub data MenuValue : Type 0 where
  text : Text → MenuValue
  flag : Bool → MenuValue

abbrev pub Properties : Type 0
Properties = List (Text × MenuValue)

unfoldable pub statement_row : Option Text → Properties
statement_row label =
    (codes "label", text (unwrap_or label []))
    ∷ (codes "enabled", flag false)
    ∷ (codes "visible", flag (is_some label))
    ∷ []

abbrev pub indexing_label : Bool → Option Text
indexing_label true = some (codes "Checking for changes…")
indexing_label false = none

abbrev pub separator : Properties
separator = (codes "type", text (codes "separator")) ∷ []

unfoldable pub menu_item_properties : Presentation → Bool → ℕ → Option Properties
unfolding statement_row
menu_item_properties p has_mount id =
    if id == menu_root
    then some ((codes "children-display", text (codes "submenu")) ∷ [])
    else if id == menu_status
    then some ((codes "label", text p.headline) ∷ (codes "enabled", flag false) ∷ [])
    else if id == menu_placeholders
    then some (statement_row p.placeholders_row)
    else if id == menu_downloading
    then some (statement_row p.downloading_row)
    else if id == menu_indexing
    then some (statement_row (indexing_label p.indexing_row))
    else if id == menu_uploads
    then some (statement_row p.uploading_row)
    else if id == menu_separator_a
    then some separator
    else if id == menu_sign_in
    then some (
        (codes "label", text (codes "Sign In…"))
        ∷ (codes "icon-name", text (codes "dialog-password"))
        ∷ (codes "enabled", flag p.offer_sign_in)
        ∷ (codes "visible", flag p.offer_sign_in)
        ∷ [])
    else if id == menu_folder && has_mount
    then some (
        (codes "label", text (codes "Open OneDrive Folder"))
        ∷ (codes "icon-name", text (codes "folder"))
        ∷ [])
    else if id == menu_separator_b && has_mount
    then some separator
    else if id == menu_quit
    then some (
        (codes "label", text (codes "Hide tray icon (sync continues)"))
        ∷ (codes "icon-name", text (codes "application-exit"))
        ∷ [])
    else none

abbrev pub dynamic_menu_items : List ℕ
dynamic_menu_items =
    menu_status ∷ menu_placeholders ∷ menu_downloading ∷ menu_indexing ∷ menu_uploads ∷ menu_sign_in
    ∷ []

pub record DbusMenu : Type 0 where
  pub presentation : Presentation
  pub has_mount : Bool
  pub revision : ℕ

unfoldable pub item_ids : Bool → List ℕ
item_ids has_mount =
    menu_status
    ∷ menu_placeholders
    ∷ menu_downloading
    ∷ menu_indexing
    ∷ menu_uploads
    ∷ menu_separator_a
    ∷ menu_sign_in
    ∷ ((if has_mount then menu_folder ∷ menu_separator_b ∷ [] else []) ++ menu_quit ∷ [])

abbrev pub item_properties : DbusMenu → ℕ → Option Properties
item_properties menu id = menu_item_properties menu.presentation menu.has_mount id

pub data MenuError : Type 0 where
  no_item : ℕ → MenuError
  no_property : ℕ → Text → MenuError
  panicked : MenuError

abbrev pub Layout : Type 0
Layout = ℕ × ℕ × Properties × List (ℕ × Properties)

add_child : ℕ → Option Properties → Option (List (ℕ × Properties)) → Option (List (ℕ × Properties))
add_child id (some props) (some children) = some ((id, props) ∷ children)
add_child id _ _ = none

-- The loop over the items; `none` is the panic of the `expect`.
unfoldable pub layout_children : DbusMenu → List ℕ → Option (List (ℕ × Properties))
unfolding add_child
layout_children menu [] = some []
layout_children menu (id ∷ ids) = add_child id (item_properties menu id) (layout_children menu ids)

layout_of :
    DbusMenu → ℕ → Option Properties → Option (List (ℕ × Properties)) → Result MenuError Layout
layout_of menu parent none children = err (no_item parent)
layout_of menu parent (some props) none = err panicked
layout_of menu parent (some props) (some children) = ok (menu.revision, parent, props, children)

unfoldable pub get_layout : DbusMenu → ℕ → ℕ → Result MenuError Layout
unfolding layout_of layout_children item_ids menu_item_properties
get_layout menu parent depth = layout_of menu parent (item_properties menu parent) (
    if parent == menu_root && not (depth == 0)
    then layout_children menu (item_ids menu.has_mount)
    else some [])

known : ℕ → Option Properties → List (ℕ × Properties)
known id none = []
known id (some props) = (id, props) ∷ []

unfoldable pub properties_of : DbusMenu → List ℕ → List (ℕ × Properties)
unfolding known
properties_of menu [] = []
properties_of menu (id ∷ ids) = known id (item_properties menu id) ++ properties_of menu ids

unfoldable pub get_group_properties : DbusMenu → List ℕ → List (ℕ × Properties)
unfolding properties_of item_ids
get_group_properties menu ids =
    properties_of menu (if is_empty ids then menu_root ∷ item_ids menu.has_mount else ids)

find_property : Text → Properties → Option MenuValue
unfolding text_eq
find_property name [] = none
find_property name ((key, value) ∷ props) =
    let rest = find_property name props in if text_eq key name then some value else rest

property_of : ℕ → Text → Option Properties → Result MenuError MenuValue
unfolding find_property
property_of id name none = err (no_property id name)
property_of id name (some props) = elim (find_property name props) [
  | some v ↦ ok v
  | none ↦ err (no_property id name)
]

unfoldable pub get_property : DbusMenu → ℕ → Text → Result MenuError MenuValue
unfolding property_of menu_item_properties
get_property menu id name = property_of id name (item_properties menu id)

-- What a click does: open the folder, or send an event to the loop.
pub data Click : Type 0 where
  open_mount send_sign_in send_quit : Click

unfoldable pub event : DbusMenu → ℕ → Text → List Click
unfolding text_eq
event menu id event_id =
    if not (text_eq event_id (codes "clicked"))
    then []
    else if id == menu_folder
    then (if menu.has_mount then open_mount ∷ [] else [])
    else if id == menu_sign_in && menu.presentation.offer_sign_in
    then send_sign_in ∷ []
    else if id == menu_quit
    then send_quit ∷ []
    else []

-- The ids that are not in the menu, and what the other events do.
unfoldable pub event_group : DbusMenu → List (ℕ × Text) → List ℕ × List Click
unfolding event menu_item_properties
event_group menu [] = ([], [])
event_group menu ((id, event_id) ∷ events) =
    let (unknown, clicks) = event_group menu events in
    if is_some (item_properties menu id)
    then (unknown, event menu id event_id ++ clicks)
    else (id ∷ unknown, clicks)
