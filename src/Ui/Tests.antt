-- ===== src/Ui/Tests.antt =====
-- A run of messages in quiet mode.
use go_connect.Base.{◌≡◌, refl, true, false, List, [], ◌∷◌}
use go_connect.Ui.{Ui, error, info, raw}
use go_connect.Ui.Modes.{Message, informed, bare, failed, show, show_all, keep, loud, show_all-keep}

abbrev quiet_ui : Ui
quiet_ui = record { color = true; is_verbose = false; is_quiet = true }

abbrev messages : List Message
messages = informed "Connection ID: 7" ∷ bare "7" ∷ failed "no" ∷ []

quiet_output : show_all quiet_ui messages ≡ "7\n  \u{1b}[31m✗ no\u{1b}[0m\n"
unfolding show_all show info raw error
quiet_output = refl

show_all-keep_example :
    show_all quiet_ui messages ≡ show_all (loud quiet_ui) (keep quiet_ui messages)
show_all-keep_example = show_all-keep quiet_ui messages
