-- ===== src/Ui.antt =====
-- The terminal output of pkg/ui/ui.go. What goes to the writer is a text.
pub mod Network
pub mod Modes
mod Tests
use Prim.Native.String.{String, ◌++◌}
use go_connect.Base.{Bool, true, false, not, ◌&&◌, List, [], ◌∷◌, if◌then◌else◌}

abbrev pub color_reset : String
color_reset = "\u{1b}[0m"

abbrev pub color_red : String
color_red = "\u{1b}[31m"

abbrev pub color_green : String
color_green = "\u{1b}[32m"

abbrev pub color_yellow : String
color_yellow = "\u{1b}[33m"

abbrev pub color_cyan : String
color_cyan = "\u{1b}[36m"

abbrev pub color_gray : String
color_gray = "\u{1b}[90m"

abbrev pub color_bold : String
color_bold = "\u{1b}[1m"

-- Without the writer, which gets what each method returns.
pub record Ui : Type 0 where
  pub color : Bool
  pub is_verbose : Bool
  pub is_quiet : Bool

-- `NewDefaultUI`: whether standard output is a terminal is an argument.
unfoldable pub new_default_ui : Bool → Bool → Bool → Bool → Ui
new_default_ui is_terminal use_color is_verbose is_quiet = record {
  color = use_color && is_terminal;
  is_verbose = is_verbose;
  is_quiet = is_quiet;
}

colorize : Ui → String → String → String
colorize u code text = if u.color then code ++ (text ++ color_reset) else text

unfoldable pub success : Ui → String → String
unfolding colorize
success u msg = if u.is_quiet then "" else "  " ++ (colorize u color_green ("✓ " ++ msg) ++ "\n")

unfoldable pub error : Ui → String → String
unfolding colorize
error u msg = "  " ++ (colorize u color_red ("✗ " ++ msg) ++ "\n")

unfoldable pub warning : Ui → String → String
unfolding colorize
warning u msg = if u.is_quiet then "" else "  " ++ (colorize u color_yellow ("⚠ " ++ msg) ++ "\n")

unfoldable pub info : Ui → String → String
info u msg = if u.is_quiet then "" else "  " ++ (msg ++ "\n")

unfoldable pub hint : Ui → String → String
unfolding colorize
hint u msg =
    if u.is_quiet then "" else "\n  " ++ (colorize u color_cyan "Hint:" ++ (" " ++ (msg ++ "\n")))

unfoldable pub debug : Ui → String → String
unfolding colorize
debug u msg =
    if not u.is_verbose then "" else "  " ++ (colorize u color_gray ("[DEBUG] " ++ msg) ++ "\n")

unfoldable pub header : Ui → String → String
unfolding colorize
header u msg = if u.is_quiet then "" else "\n  " ++ (colorize u color_bold msg ++ "\n")

unfoldable pub bullet : Ui → String → String
bullet u msg = if u.is_quiet then "" else "    • " ++ (msg ++ "\n")

unfoldable pub raw : Ui → String → String
raw u msg = msg ++ "\n"

unfoldable pub blank_line : Ui → String
blank_line u = "\n"
