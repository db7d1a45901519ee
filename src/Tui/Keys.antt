-- ===== src/Tui/Keys.antt =====
-- crates/mandala-tui/src/keymap.rs: the keys of every context, with the codes of crossterm that the
-- source names. The hints of the footer are not
-- modelled.
use mandala.Base.{ℕ, Bool, true, false, ◌&&◌, List, if◌then◌else◌, ◌==◌}

pub data Context : Type 0 where
  global explorer confirm_context reboot_context task attached_log deploy_context deploy_kill_armed
        runs :
      Context

pub data Action : Type 0 where
  quit suspend to_next_tab to_previous_tab tab_one tab_two tab_three move_up move_down extend_up
        extend_down skip_up skip_down page_up page_down half_page_up half_page_down top bottom
        toggle_selection clear_selection reload_inventory refresh_drift ping reboot_rows
        deploy_target_rows open_runs toggle_mcp toggle_halt toggle_boot confirm cancel order_one
        order_two order_three toggle_drain close arm_terminate confirm_terminate build_tab
        playbook_tab summary_tab refresh_runs activate terminal_selection_help :
      Action

-- The codes of crossterm that the source names, and the others by a number.
pub data KeyCode : Type 0 where
  up down left right home end_key page_up_key page_down_key tab back_tab esc enter : KeyCode
  char other : ℕ → KeyCode

-- `others` holds the modifiers beside shift and control.
pub record KeyModifiers : Type 0 where
  pub has_shift : Bool
  pub has_control : Bool
  pub others : ℕ

pub record KeyPattern : Type 0 where
  pub code : KeyCode
  pub modifiers : KeyModifiers

-- `KeyEvent`, of which only the code and the modifiers are read.
abbrev pub KeyEvent : Type 0
KeyEvent = KeyPattern

abbrev no_modifiers : KeyModifiers
no_modifiers = record { has_shift = false; has_control = false; others = 0 }

abbrev pub shift : KeyModifiers
shift = record no_modifiers { has_shift = true }

abbrev pub control : KeyModifiers
control = record no_modifiers { has_control = true }

abbrev pub modified : KeyCode → KeyModifiers → KeyPattern
modified code modifiers = record { code = code; modifiers = modifiers }

abbrev pub plain : KeyCode → KeyPattern
plain code = modified code no_modifiers

-- A code as two numbers, for its equality test.
abbrev code_number : KeyCode → ℕ × ℕ
code_number up = (0, 0)
code_number down = (0, 1)
code_number left = (0, 2)
code_number right = (0, 3)
code_number home = (0, 4)
code_number end_key = (0, 5)
code_number page_up_key = (0, 6)
code_number page_down_key = (0, 7)
code_number tab = (0, 8)
code_number back_tab = (0, 9)
code_number esc = (0, 10)
code_number enter = (0, 11)
code_number (char c) = (1, c)
code_number (other n) = (2, n)

abbrev bool_number : Bool → ℕ
bool_number true = 1
bool_number false = 0

-- What `==` compares of a key, as numbers.
abbrev pub code_eq : KeyCode → KeyCode → Bool
code_eq a b = (code_number a).0 == (code_number b).0 && (code_number a).1 == (code_number b).1

abbrev pub modifiers_eq : KeyModifiers → KeyModifiers → Bool
modifiers_eq a b =
    bool_number a.has_shift == bool_number b.has_shift
    && (bool_number a.has_control == bool_number b.has_control && a.others == b.others)

abbrev hides_shift : KeyCode → Bool
hides_shift (char c) = true
hides_shift back_tab = true
hides_shift _ = false

unfoldable pub normalized_modifiers : KeyEvent → KeyModifiers
normalized_modifiers event =
    if hides_shift event.code
    then record (event.modifiers) { has_shift = false }
    else event.modifiers

unfoldable pub matches : KeyEvent → KeyPattern → Bool
unfolding normalized_modifiers
matches event key =
    code_eq key.code event.code && modifiers_eq key.modifiers (normalized_modifiers event)

pub record Binding : Type 0 where
  pub context : Context
  pub keys : List KeyPattern
  pub action : Action

abbrev pub binding : Context → List KeyPattern → Action → Binding
binding context keys action = record { context = context; keys = keys; action = action }

abbrev context_number : Context → ℕ
context_number global = 0
context_number explorer = 1
context_number confirm_context = 2
context_number reboot_context = 3
context_number task = 4
context_number attached_log = 5
context_number deploy_context = 6
context_number deploy_kill_armed = 7
context_number runs = 8

abbrev pub context_eq : Context → Context → Bool
context_eq a b = context_number a == context_number b
