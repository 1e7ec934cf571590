-- ===== src/Cmd/Sessions/Quiet.antt =====
-- What the commands print in quiet mode.
use Prim.Native.String.{String, ◌++◌}
use text.Mathlib.TextLemmas.{nil-append, append-nil}
use go_connect.Base.{◌≡◌, ◌⊎◌, ◌∙◌, refl, ap, true, inl, inr}
use go_connect.Ui.{Ui, success, info, raw, blank_line}
use go_connect.Ui.Modes.{show, show_all}
use go_connect.Cmd.Sessions.{Session, Command, listen, connect, greet}

Command-cases : (c : Command) → (c ≡ listen) ⊎ (c ≡ connect)
Command-cases listen = inl refl
Command-cases connect = inr refl

unpadded : (id : String) → "" ++ ("" ++ ("\n" ++ ((id ++ "\n") ++ ""))) ≡ "\n" ++ (id ++ "\n")
unpadded id =
    nil-append ("" ++ ("\n" ++ ((id ++ "\n") ++ "")))
    ∙ nil-append ("\n" ++ ((id ++ "\n") ++ ""))
    ∙ ap (λ z. "\n" ++ z) (append-nil (id ++ "\n"))

-- In quiet mode the first success of `listen` prints an empty line, then the connection ID and the
-- end of its line, and nothing else; `connect` prints one empty line.
pub show_all-greet_quiet :
    (u : Ui) (s : Session)
    → u.is_quiet ≡ true
    → show_all u (greet u s true)
      ≡ elim s.command [ listen ↦ "\n" ++ (s.connection_id ++ "\n") | connect ↦ "\n" ]
unfolding greet show_all show success info raw blank_line
show_all-greet_quiet u s q = elim (Command-cases s.command) [
  | inl e ↦ rw (e, greet) (rw q (unpadded s.connection_id))
  | inr e ↦ rw (e, greet) (rw q refl)
]
