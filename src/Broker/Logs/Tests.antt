-- ===== src/Broker/Logs/Tests.antt =====
-- A connection ID with a line break in it.
use Prim.Native.String.{String, ◌++◌ as join_text}
use go_connect.Base.{
  ◌+◌, ◌≡◌, refl, [], ◌∷◌, List, true, All, ◌==◌, if◌then◌else◌, string_key, arith,
}
use go_connect.Bytes.{Bytes}
use go_connect.Logging.{Logger, codes, content, log_line}
use go_connect.Logging.Appends.{log_all}
use go_connect.Broker.State.{LogEntry, invalid_connection_id, blocked_ip}
use go_connect.Broker.Logs.{Formats, log_tag, log_message}
use go_connect.Broker.Logs.Lines.{
  newlines, IsFlat, Report, IsGood, calls_of, reports_for, newlines-log_all,
}

-- Line breaks become `n` after a backslash.
unfoldable escape : Bytes → Bytes
escape [] = []
escape (x ∷ xs) = let rest = escape xs in if x == b'\n' then b'\\' ∷ b'n' ∷ rest else x ∷ rest

newlines-escape : (xs : Bytes) → newlines (escape xs) ≡ 0
unfolding escape newlines
newlines-escape [] = refl
newlines-escape (x ∷ xs) = ground (arith, newlines-escape xs)

abbrev plain_formats : Formats
plain_formats = record { quoted = λ s. escape (codes s); decimal = λ n. []; base64 = λ xs. [] }

plain_formats-IsFlat : IsFlat plain_formats
unfolding newlines
plain_formats-IsFlat = record {
  quoted = λ s. newlines-escape (codes s);
  decimal = λ n. refl;
  base64 = λ xs. refl;
}

abbrev join : String → String → String
join dir name = join_text dir (join_text "/" name)

abbrev logs : Logger
logs = record { dir = "logs" }

abbrev report_of : LogEntry → Report
report_of entry = record {
  clock = record { date = "20260301"; stamp = "20260301 10:00:00.000" };
  os = record { opens = true; room = 200 };
  entry = entry;
}

abbrev two_reports : List Report
two_reports =
    report_of (invalid_connection_id "a\n[x] [AUTH]" "10.0.0.7:99")
    ∷ report_of (blocked_ip "10.0.0.8:17" 4)
    ∷ []

two_reports-IsGood : All (IsGood plain_formats join logs) two_reports
unfolding newlines codes log_line log_tag log_message escape
two_reports-IsGood = ((refl, refl, refl), ((refl, refl, refl), tt))

newlines-log_all_example :
    newlines (
      content "logs/20260301.logs.txt"
        (log_all join logs (calls_of plain_formats join logs two_reports) []).1)
    ≡ newlines (content "logs/20260301.logs.txt" [])
      + reports_for plain_formats join logs "logs/20260301.logs.txt" two_reports
newlines-log_all_example =
    newlines-log_all plain_formats join logs "logs/20260301.logs.txt" two_reports []
      plain_formats-IsFlat two_reports-IsGood
