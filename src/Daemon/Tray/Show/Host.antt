-- ===== src/Daemon/Tray/Show/Host.antt =====
-- A host that shows what it was told last: it reads the item again at its signals, and takes the menu
-- from the updates.
use one_drive_hydration.Prelude.{
  ℕ, ◌≡◌, refl, ◌∙◌, ap, sym, Bool, true, false, bool_eq, Option, none, some, List, [], ◌∷◌, ◌++◌,
  is_some, any, ◌==◌, ==_iff, All, if◌then◌else◌, Bool-cases, inl, inr, arith, fun_ext,
}
use one_drive_hydration.Text.{text_eq-eq}
use one_drive_hydration.Daemon.Tray.{Icon, SniStatus, Presentation}
use one_drive_hydration.Daemon.Tray.Menu.{
  MenuValue, text, flag, Properties, dynamic_menu_items, menu_item_properties,
}
use one_drive_hydration.Daemon.Tray.Show.{
  icon_eq, status_eq, value_eq, properties_eq, item_eq, ToolTip, tool_tip, TraySignal, new_icon,
  new_attention_icon, new_tool_tip, new_status, items_properties_updated, changed_item,
  changed_items,
}

pub record View : Type 0 where
  pub icon : Icon
  pub attention_icon : Icon
  pub status : SniStatus
  pub tip : ToolTip
  pub menu : ℕ → Option Properties

-- What the host reads from the objects.
abbrev pub view_of : Presentation → Bool → View
view_of p has_mount = record {
  icon = p.icon;
  attention_icon = p.icon;
  status = p.sni_status;
  tip = tool_tip p;
  menu = menu_item_properties p has_mount;
}

set_item : ℕ → Properties → (ℕ → Option Properties) → ℕ → Option Properties
set_item id props menu i = if i == id then some props else menu i

unfoldable pub set_items : List (ℕ × Properties) → (ℕ → Option Properties) → ℕ → Option Properties
unfolding set_item
set_items [] menu = menu
set_items ((id, props) ∷ items) menu = set_items items (set_item id props menu)

-- What a signal does to the view of a host that can read the presentation.
unfoldable pub hear : Presentation → TraySignal → View → View
unfolding set_items
hear p new_icon v = record v { icon = p.icon }
hear p new_attention_icon v = record v { attention_icon = p.icon }
hear p (new_status status) v = record v { status = status }
hear p new_tool_tip v = record v { tip = tool_tip p }
hear p (items_properties_updated items) v = record v { menu = set_items items v.menu }

unfoldable pub hear_all : Presentation → List TraySignal → View → View
unfolding hear
hear_all p [] v = v
hear_all p (signal ∷ signals) v = hear_all p signals (hear p signal v)

pub icon_eq-eq : (a b : Icon) → icon_eq a b ≡ true → a ≡ b
unfolding icon_eq
icon_eq-eq a b h = ground arith

pub status_eq-eq : (a b : SniStatus) → status_eq a b ≡ true → a ≡ b
unfolding status_eq
status_eq-eq a b h = ground arith

bool_eq-eq : (a b : Bool) → bool_eq a b ≡ true → a ≡ b
bool_eq-eq a b h = ground arith

value_eq-eq : (a b : MenuValue) → value_eq a b ≡ true → a ≡ b
unfolding value_eq
value_eq-eq (text s) (text t) h = ap text (text_eq-eq s t h)
value_eq-eq (text s) (flag b) h = cc
value_eq-eq (flag a) (text t) h = cc
value_eq-eq (flag a) (flag b) h = ap flag (bool_eq-eq a b h)

properties_eq-eq : (a b : Properties) → properties_eq a b ≡ true → a ≡ b
unfolding properties_eq
properties_eq-eq [] [] h = refl
properties_eq-eq [] (y ∷ b) h = cc
properties_eq-eq (x ∷ a) [] h = cc
properties_eq-eq ((k, v) ∷ a) ((l, w) ∷ b) h =
    ground (arith, text_eq-eq k l, value_eq-eq v w, properties_eq-eq a b)

item_eq-eq : (a b : Option Properties) → item_eq a b ≡ true → a ≡ b
unfolding item_eq
item_eq-eq none none h = refl
item_eq-eq none (some b) h = cc
item_eq-eq (some a) none h = cc
item_eq-eq (some a) (some b) h = ap some (properties_eq-eq a b h)

set_items-append :
    (a b : List (ℕ × Properties)) (menu : ℕ → Option Properties)
    → set_items (a ++ b) menu ≡ set_items b (set_items a menu)
unfolding set_items
set_items-append [] b menu = refl
set_items-append ((id, props) ∷ a) b menu = set_items-append a b (set_item id props menu)

-- An update that is already in the view stays.
changed_item-keeps :
    (now : ℕ → Option Properties) (id i : ℕ) (props : Option Properties) (same : Bool)
    (menu : ℕ → Option Properties)
    → now id ≡ props
    → menu i ≡ now i
    → set_items (changed_item id props same) menu i ≡ now i
unfolding set_items set_item changed_item
changed_item-keeps now id i none same menu e h = h
changed_item-keeps now id i (some props) true menu e h = h
changed_item-keeps now id i (some props) false menu e h = elim (Bool-cases (i == id)) [
  | inl q ↦ rw q (sym e ∙ ap now (sym ((==_iff i id).0 q)))
  | inr q ↦ rw q h
]

changed_item-other :
    (id i : ℕ) (props : Option Properties) (same : Bool) (menu : ℕ → Option Properties)
    → (i == id) ≡ false
    → set_items (changed_item id props same) menu i ≡ menu i
unfolding set_items set_item changed_item
changed_item-other id i none same menu q = refl
changed_item-other id i (some props) true menu q = refl
changed_item-other id i (some props) false menu q = rw q refl

changed_item-sets :
    (id : ℕ) (before props : Option Properties) (menu : ℕ → Option Properties)
    → is_some props ≡ true
    → menu id ≡ before
    → set_items (changed_item id props (item_eq before props)) menu id ≡ props
unfolding set_items set_item changed_item
changed_item-sets id before none menu there h = cc
changed_item-sets id before (some props) menu there h =
    elim (Bool-cases (item_eq before (some props))) [
      | inl e ↦ rw e (h ∙ item_eq-eq before (some props) e)
      | inr e ↦ rw e (let r : (id == id) ≡ true = (==_iff id id).1 refl in rw r refl)
    ]

module _ (previous p : Presentation) (has_mount : Bool) where
  abbrev pub before : ℕ → Option Properties
  before = menu_item_properties previous has_mount

  abbrev pub now : ℕ → Option Properties
  now = menu_item_properties p has_mount

  changed_items-keeps :
      (ids : List ℕ) (i : ℕ) (menu : ℕ → Option Properties)
      → menu i ≡ now i
      → set_items (changed_items previous p has_mount ids) menu i ≡ now i
  unfolding set_items changed_items
  changed_items-keeps [] i menu h = h
  changed_items-keeps (id ∷ ids) i menu h =
      ap (λ f. f i)
        (set_items-append (changed_item id (now id) (item_eq (before id) (now id))) _ menu)
      ∙ changed_items-keeps ids i _ (changed_item-keeps now id i (now id) _ menu refl h)

  changed_items-sets :
      (ids : List ℕ) (i : ℕ) (menu : ℕ → Option Properties)
      → All (λ id. is_some (now id) ≡ true) ids
      → any (λ id. i == id) ids ≡ true
      → menu i ≡ before i
      → set_items (changed_items previous p has_mount ids) menu i ≡ now i
  unfolding set_items changed_items
  changed_items-sets [] i menu known there h = cc
  changed_items-sets (id ∷ ids) i menu (here, known) there h =
      ap (λ f. f i)
        (set_items-append (changed_item id (now id) (item_eq (before id) (now id))) _ menu)
      ∙ (elim (Bool-cases (i == id)) [
        | inl q ↦
            let e : i ≡ id = (==_iff i id).0 q in
            changed_items-keeps ids i _ (
              ap (set_items (changed_item id (now id) (item_eq (before id) (now id))) menu) e
              ∙ changed_item-sets id (before id) (now id) menu here
                  (ap menu (sym e) ∙ h ∙ ap before e)
              ∙ ap now (sym e))
        | inr q ↦
            changed_items-sets ids i _ known (ground arith)
              (changed_item-other id i (now id) _ menu q ∙ h)
      ])

  dynamic-known : All (λ id. is_some (now id) ≡ true) dynamic_menu_items
  unfolding menu_item_properties
  dynamic-known = (refl, (refl, (refl, (refl, (refl, (refl, tt))))))

  -- The other items do not depend on the presentation.
  static_item : (i : ℕ) → any (λ id. i == id) dynamic_menu_items ≡ false → before i ≡ now i
  unfolding menu_item_properties
  static_item i h = ground arith

  pub changed_items-now :
      set_items (changed_items previous p has_mount dynamic_menu_items) before ≡ now
  changed_items-now = fun_ext (λ i. elim (Bool-cases (any (λ id. i == id) dynamic_menu_items)) [
    | inl e ↦ changed_items-sets dynamic_menu_items i before dynamic-known e refl
    | inr e ↦ changed_items-keeps dynamic_menu_items i before (static_item i e)
  ])
