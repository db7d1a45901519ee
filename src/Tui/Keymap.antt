-- ===== src/Tui/Keymap.antt =====
-- crates/mandala-tui/src/keymap.rs: the table of the bindings, and the lookup in it.
use mandala.Base.{Bool, ◌&&◌, Option, none, some, List, [], ◌∷◌, ◌++◌, if◌then◌else◌, any}
use mandala.Tui.Keys.{
  Context, global, explorer, confirm_context, reboot_context, task, attached_log, deploy_context,
  deploy_kill_armed, runs, Action, quit, suspend, to_next_tab, to_previous_tab, tab_one, tab_two,
  tab_three, move_up, move_down, extend_up, extend_down, skip_up, skip_down, page_up, page_down,
  half_page_up, half_page_down, top, bottom, toggle_selection, clear_selection, reload_inventory,
  refresh_drift, ping, reboot_rows, deploy_target_rows, open_runs, toggle_mcp, toggle_halt,
  toggle_boot, confirm, cancel, order_one, order_two, order_three, toggle_drain, close,
  arm_terminate, confirm_terminate, build_tab, playbook_tab, summary_tab, refresh_runs, activate,
  terminal_selection_help, up, down, left, right, home, end_key, page_up_key, page_down_key, tab,
  back_tab, esc, enter, char, KeyPattern, KeyEvent, shift, control, modified, plain, matches,
  Binding, binding, context_eq,
}

abbrev up_keys : List KeyPattern
up_keys = plain up ∷ plain (char b'k') ∷ []

abbrev down_keys : List KeyPattern
down_keys = plain down ∷ plain (char b'j') ∷ []

abbrev up_with_modifiers_keys : List KeyPattern
up_with_modifiers_keys = plain up ∷ modified up shift ∷ modified up control ∷ plain (char b'k') ∷ []

abbrev down_with_modifiers_keys : List KeyPattern
down_with_modifiers_keys =
    plain down ∷ modified down shift ∷ modified down control ∷ plain (char b'j') ∷ []

abbrev previous_tab_keys : List KeyPattern
previous_tab_keys = plain left ∷ plain (char b'h') ∷ plain back_tab ∷ []

abbrev next_tab_keys : List KeyPattern
next_tab_keys = plain right ∷ plain (char b'l') ∷ plain tab ∷ []

abbrev page_up_keys : List KeyPattern
page_up_keys = plain page_up_key ∷ []

abbrev page_down_keys : List KeyPattern
page_down_keys = plain page_down_key ∷ []

abbrev half_up_keys : List KeyPattern
half_up_keys = modified (char b'u') control ∷ []

abbrev half_down_keys : List KeyPattern
half_down_keys = modified (char b'd') control ∷ []

abbrev top_keys : List KeyPattern
top_keys = plain home ∷ plain (char b'g') ∷ []

abbrev bottom_keys : List KeyPattern
bottom_keys = plain end_key ∷ plain (char b'G') ∷ []

abbrev close_keys : List KeyPattern
close_keys = plain esc ∷ plain (char b'q') ∷ []

abbrev cancel_keys : List KeyPattern
cancel_keys = plain esc ∷ plain (char b'n') ∷ []

abbrev pub global_bindings : List Binding
global_bindings =
    binding global (modified (char b'c') control ∷ []) quit
    ∷ binding global (modified (char b'z') control ∷ []) suspend
    ∷ []

abbrev pub explorer_bindings : List Binding
explorer_bindings =
    binding explorer (plain (char b'q') ∷ []) quit
    ∷ binding explorer previous_tab_keys to_previous_tab
    ∷ binding explorer next_tab_keys to_next_tab
    ∷ binding explorer (plain (char b'1') ∷ []) tab_one
    ∷ binding explorer (plain (char b'2') ∷ []) tab_two
    ∷ binding explorer (plain (char b'3') ∷ []) tab_three
    ∷ binding explorer up_keys move_up
    ∷ binding explorer down_keys move_down
    ∷ binding explorer (modified up shift ∷ []) extend_up
    ∷ binding explorer (modified down shift ∷ []) extend_down
    ∷ binding explorer (modified up control ∷ []) skip_up
    ∷ binding explorer (modified down control ∷ []) skip_down
    ∷ binding explorer page_up_keys page_up
    ∷ binding explorer page_down_keys page_down
    ∷ binding explorer half_up_keys half_page_up
    ∷ binding explorer half_down_keys half_page_down
    ∷ binding explorer top_keys top
    ∷ binding explorer bottom_keys bottom
    ∷ binding explorer (plain (char b' ') ∷ []) toggle_selection
    ∷ binding explorer (plain esc ∷ []) clear_selection
    ∷ binding explorer (plain (char b'r') ∷ []) reload_inventory
    ∷ binding explorer (plain (char b'S') ∷ []) refresh_drift
    ∷ binding explorer (plain (char b'p') ∷ []) ping
    ∷ binding explorer (plain (char b'R') ∷ []) reboot_rows
    ∷ binding explorer (plain (char b'D') ∷ []) deploy_target_rows
    ∷ binding explorer (plain (char b'a') ∷ []) open_runs
    ∷ binding explorer (plain (char b'm') ∷ []) toggle_mcp
    ∷ binding explorer ([]) terminal_selection_help
    ∷ []

abbrev pub confirm_bindings : List Binding
confirm_bindings =
    binding confirm_context (plain (char b'h') ∷ []) toggle_halt
    ∷ binding confirm_context (plain (char b'b') ∷ []) toggle_boot
    ∷ binding confirm_context (plain (char b'y') ∷ []) confirm
    ∷ binding confirm_context cancel_keys cancel
    ∷ []

abbrev pub reboot_bindings : List Binding
reboot_bindings =
    binding reboot_context (plain (char b'1') ∷ []) order_one
    ∷ binding reboot_context (plain (char b'2') ∷ []) order_two
    ∷ binding reboot_context (plain (char b'3') ∷ []) order_three
    ∷ binding reboot_context (plain (char b'd') ∷ []) toggle_drain
    ∷ binding reboot_context (plain (char b'y') ∷ []) confirm
    ∷ binding reboot_context cancel_keys cancel
    ∷ []

abbrev pub task_bindings : List Binding
task_bindings =
    binding task up_with_modifiers_keys move_up
    ∷ binding task down_with_modifiers_keys move_down
    ∷ binding task page_up_keys page_up
    ∷ binding task page_down_keys page_down
    ∷ binding task half_up_keys half_page_up
    ∷ binding task half_down_keys half_page_down
    ∷ binding task top_keys top
    ∷ binding task bottom_keys bottom
    ∷ binding task close_keys close
    ∷ []

abbrev pub attached_log_bindings : List Binding
attached_log_bindings =
    binding attached_log up_with_modifiers_keys move_up
    ∷ binding attached_log down_with_modifiers_keys move_down
    ∷ binding attached_log page_up_keys page_up
    ∷ binding attached_log page_down_keys page_down
    ∷ binding attached_log half_up_keys half_page_up
    ∷ binding attached_log half_down_keys half_page_down
    ∷ binding attached_log top_keys top
    ∷ binding attached_log bottom_keys bottom
    ∷ binding attached_log close_keys close
    ∷ []

abbrev pub deploy_bindings : List Binding
deploy_bindings =
    binding deploy_context (modified (char b'k') control ∷ []) arm_terminate
    ∷ binding deploy_context up_with_modifiers_keys move_up
    ∷ binding deploy_context down_with_modifiers_keys move_down
    ∷ binding deploy_context page_up_keys page_up
    ∷ binding deploy_context page_down_keys page_down
    ∷ binding deploy_context half_up_keys half_page_up
    ∷ binding deploy_context half_down_keys half_page_down
    ∷ binding deploy_context top_keys top
    ∷ binding deploy_context bottom_keys bottom
    ∷ binding deploy_context previous_tab_keys to_previous_tab
    ∷ binding deploy_context next_tab_keys to_next_tab
    ∷ binding deploy_context (plain (char b'b') ∷ []) build_tab
    ∷ binding deploy_context (plain (char b'p') ∷ []) playbook_tab
    ∷ binding deploy_context (plain (char b's') ∷ []) summary_tab
    ∷ binding deploy_context close_keys close
    ∷ []

abbrev pub deploy_kill_armed_bindings : List Binding
deploy_kill_armed_bindings =
    binding deploy_kill_armed (plain (char b'y') ∷ []) confirm_terminate
    ∷ binding deploy_kill_armed ([]) cancel
    ∷ []

abbrev pub runs_bindings : List Binding
runs_bindings =
    binding runs up_with_modifiers_keys move_up
    ∷ binding runs down_with_modifiers_keys move_down
    ∷ binding runs page_up_keys page_up
    ∷ binding runs page_down_keys page_down
    ∷ binding runs half_up_keys half_page_up
    ∷ binding runs half_down_keys half_page_down
    ∷ binding runs top_keys top
    ∷ binding runs bottom_keys bottom
    ∷ binding runs (plain (char b'r') ∷ []) refresh_runs
    ∷ binding runs (plain enter ∷ []) activate
    ∷ binding runs close_keys close
    ∷ []

-- `BINDINGS`.
unfoldable pub bindings : List Binding
bindings =
    global_bindings
    ++ (explorer_bindings
        ++ (confirm_bindings
            ++ (reboot_bindings
                ++ (task_bindings
                    ++ (attached_log_bindings
                        ++ (deploy_bindings ++ (deploy_kill_armed_bindings ++ (runs_bindings))))))))

abbrev pub applies : Context → KeyEvent → Binding → Bool
applies context event b = context_eq b.context context && any (matches event) b.keys

unfoldable pub find_action : Context → KeyEvent → List Binding → Option Action
find_action context event [] = none
find_action context event (b ∷ bs) =
    let rest = find_action context event bs in
    if applies context event b then some b.action else rest

-- `resolve`.
abbrev pub resolve_key : Context → KeyEvent → Option Action
resolve_key context event = find_action context event bindings
