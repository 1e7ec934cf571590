-- ===== src/Ui/Modes.antt =====
-- What quiet and verbose mode show of a program's output.
use Prim.Native.String.{String, ◌++◌}
use text.Mathlib.TextLemmas.{nil-append}
use go_connect.Base.{
  ◌∙◌, ◌≡◌, refl, Bool, true, false, not, List, [], ◌∷◌, if◌then◌else◌, ap, arith, Bool-cases, inl,
  inr,
}
use go_connect.Ui.{Ui, success, error, warning, info, hint, debug, header, bullet, raw, blank_line}

-- The calls of the methods.
pub data Message : Type 0 where
  successful failed warned informed hinted debugged headed listed bare : String → Message
  blank : Message

unfoldable pub show : Ui → Message → String
show u (successful msg) = success u msg
show u (failed msg) = error u msg
show u (warned msg) = warning u msg
show u (informed msg) = info u msg
show u (hinted msg) = hint u msg
show u (debugged msg) = debug u msg
show u (headed msg) = header u msg
show u (listed msg) = bullet u msg
show u (bare msg) = raw u msg
show u blank = blank_line u

unfoldable pub show_all : Ui → List Message → String
show_all u [] = ""
show_all u (m ∷ ms) = show u m ++ show_all u ms

-- What the comments of the methods say is shown in each mode.
unfoldable pub passes : Ui → Message → Bool
passes u (failed msg) = true
passes u (bare msg) = true
passes u blank = true
passes u (debugged msg) = u.is_verbose
passes u m = not u.is_quiet

unfoldable pub keep : Ui → List Message → List Message
keep u [] = []
keep u (m ∷ ms) = let rest = keep u ms in if passes u m then m ∷ rest else rest

abbrev pub loud : Ui → Ui
loud u = record u { is_verbose = true; is_quiet = false }

-- Each message is shown as it is with all output on, or not at all.
show_lem : (u : Ui) (m : Message) → show u m ≡ (if passes u m then show (loud u) m else "")
unfolding show passes success error warning info hint debug header bullet raw blank_line
show_lem u m = ground arith

-- The output of any run of messages is that of those which the mode lets through, shown as with
-- all output on: errors, raw text and blank lines always, debugging text in verbose mode, and
-- everything else unless the mode is quiet.
pub show_all-keep : (u : Ui) (ms : List Message) → show_all u ms ≡ show_all (loud u) (keep u ms)
unfolding show_all keep
show_all-keep u [] = refl
show_all-keep u (m ∷ ms) = elim (Bool-cases (passes u m)) [
  | inl e ↦ rw e (
      ap (λ z. z ++ show_all u ms) (rw e at (show_lem u m))
      ∙ ap (λ z. show (loud u) m ++ z) (show_all-keep u ms))
  | inr e ↦ rw e (
      ap (λ z. z ++ show_all u ms) (rw e at (show_lem u m))
      ∙ nil-append (show_all u ms)
      ∙ show_all-keep u ms)
]
