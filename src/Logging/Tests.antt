-- ===== src/Logging/Tests.antt =====
-- Two entries of one day, and a disk that is full at the second.
use Prim.Native.String.{String, ◌++◌ as join_text}
use go_connect.Base.{ℕ, ◌≡◌, ◌++◌, refl, [], ◌∷◌, List, true, ok, err, string_key, lookup, insert}
use go_connect.Logging.{Logger, write_failed, codes, content, log}
use go_connect.Logging.Appends.{Call, log_all, parts, outcomes, log_all_appends}

abbrev join : String → String → String
join dir name = join_text dir (join_text "/" name)

abbrev logs : Logger
logs = record { dir = "logs" }

abbrev with_room : ℕ → Call
with_room room = record {
  clock = record { date = "20260301"; stamp = "20260301 10:00:00.000" };
  os = record { opens = true; room = room };
  tag = "AUTH";
  severity = "WARN";
  message = 104 ∷ 105 ∷ [];
}

abbrev two_calls : List Call
two_calls = with_room 100 ∷ with_room 5 ∷ []

second_cut_short : log_all join logs two_calls [] ≡ (
  ok tt ∷ err write_failed ∷ [],
  ("logs/20260301.logs.txt", codes "[20260301 10:00:00.000] [AUTH] [WARN]\thi\n[2026") ∷ [],
)
unfolding log_all log codes lookup insert
second_cut_short = refl

log_all_appends_example :
    (content "logs/20260301.logs.txt" (log_all join logs two_calls []).1
      ≡ content "logs/20260301.logs.txt" [] ++ parts join logs "logs/20260301.logs.txt" two_calls)
    × ((log_all join logs two_calls []).0 ≡ outcomes two_calls)
log_all_appends_example = log_all_appends join logs two_calls "logs/20260301.logs.txt" []
