-- ===== src/Broker/Logs/Lines.antt =====
-- A log entry is one line, whatever a client sent.
use Prim.Native.String.{String}
use go_connect.Base.{
  All, ◌&&◌, Bool-cases, inl, inr, leb, length, take, string_key, ℕ, ◌+◌, ◌≡◌, ◌∙◌, refl, ap, [],
  ◌∷◌, ◌++◌, List, true, ◌==◌, if◌then◌else◌, arith,
}
use go_connect.Bytes.{Bytes}
use go_connect.Files.{Files}
use go_connect.Logging.{codes, Clock, Os, Logger, log_line, severity_warn, content, filename}
use go_connect.Logging.Appends.{Call, log_all, parts, written, take_all, log_all_appends}
use go_connect.Broker.State.{
  LogEntry, invalid_auth_payload, passphrase_mismatch, invalid_connection_id, blocked_ip,
  geo_blocked_ip,
}
use go_connect.Broker.Logs.{Formats, log_tag, log_message}

-- How many newlines a text has.
unfoldable pub newlines : Bytes → ℕ
newlines [] = 0
newlines (x ∷ xs) = (if x == b'\n' then 1 else 0) + newlines xs

newlines-append : (xs ys : Bytes) → newlines (xs ++ ys) ≡ newlines xs + newlines ys
unfolding newlines
newlines-append [] ys = omega arith
newlines-append (x ∷ xs) ys = omega (arith, newlines-append xs ys)

-- Texts on one line.
abbrev pub IsPlain : String → Type 0
IsPlain s = newlines (codes s) ≡ 0

-- What Go documents of `%q`, base64 and `%d`: no newline comes out.
pub record IsFlat (fmt : Formats) : Type 0 where
  pub quoted : (s : String) → newlines (fmt.quoted s) ≡ 0
  pub decimal : (n : ℕ) → newlines (fmt.decimal n) ≡ 0
  pub base64 : (xs : Bytes) → newlines (fmt.base64 xs) ≡ 0

-- The parts of an entry that come from the network's address and from the country database; what a
-- client sends may be anything.
abbrev pub HasPlainOrigin : LogEntry → Type 0
HasPlainOrigin (invalid_auth_payload remote raw) = IsPlain remote
HasPlainOrigin (passphrase_mismatch remote) = IsPlain remote
HasPlainOrigin (invalid_connection_id id remote) = IsPlain remote
HasPlainOrigin (blocked_ip remote count) = IsPlain remote
HasPlainOrigin (geo_blocked_ip remote country) = IsPlain remote × IsPlain country

flat : (xs ys : Bytes) → newlines xs ≡ 0 → newlines ys ≡ 0 → newlines (xs ++ ys) ≡ 0
flat xs ys e f = omega (arith, newlines-append xs ys)

abbrev pub entry_line : Formats → Clock → LogEntry → Bytes
entry_line fmt clock entry = log_line clock (log_tag entry) severity_warn (log_message fmt entry)

module _ (fmt : Formats) (laws : IsFlat fmt) where
  newlines-log_message :
      (entry : LogEntry) → HasPlainOrigin entry → newlines (log_message fmt entry) ≡ 0
  unfolding log_message newlines codes
  newlines-log_message (invalid_auth_payload remote raw) h =
      flat (codes "invalid auth payload from ") _ refl
        (flat (codes remote) _ h (flat (codes ": ") _ refl (laws.base64 raw)))
  newlines-log_message (passphrase_mismatch remote) h =
      flat (codes "passphrase mismatch from ") _ refl h
  newlines-log_message (invalid_connection_id id remote) h =
      flat (codes "invalid connection ID ") _ refl
        (flat (fmt.quoted id) _ (laws.quoted id) (flat (codes " from ") _ refl h))
  newlines-log_message (blocked_ip remote count) h =
      flat (codes "blocked connection from ") _ refl (
        flat (codes remote) _ h (
          flat (codes " (ipsum count=") _ refl
            (flat (fmt.decimal count) _ (laws.decimal count) refl)))
  newlines-log_message (geo_blocked_ip remote country) h =
      flat (codes "blocked connection from ") _ refl (
        flat (codes remote) _ h.0
          (flat (codes " (country=") _ refl (flat (codes country) _ h.1 refl)))

  newlines-log_tag : (entry : LogEntry) → newlines (codes (log_tag entry)) ≡ 0
  unfolding newlines codes log_tag
  newlines-log_tag (invalid_auth_payload remote raw) = refl
  newlines-log_tag (passphrase_mismatch remote) = refl
  newlines-log_tag (invalid_connection_id id remote) = refl
  newlines-log_tag (blocked_ip remote count) = refl
  newlines-log_tag (geo_blocked_ip remote country) = refl

  newlines-entry_line :
      (clock : Clock) (entry : LogEntry)
      → IsPlain clock.stamp
      → HasPlainOrigin entry
      → newlines (entry_line fmt clock entry) ≡ 1
  unfolding log_line newlines codes
  newlines-entry_line clock entry p h = omega (
    arith,
    newlines-append (codes clock.stamp) (
        codes "] ["
        ++ (codes (log_tag entry)
            ++ (codes "] ["
                ++ (codes severity_warn
                    ++ (codes "]\t" ++ (log_message fmt entry ++ codes "\n")))))),
    newlines-append (codes (log_tag entry)) (
        codes "] ["
        ++ (codes severity_warn ++ (codes "]\t" ++ (log_message fmt entry ++ codes "\n")))),
    newlines-append (log_message fmt entry) (codes "\n"),
    newlines-log_tag entry,
    newlines-log_message entry h,
    p,
  )

-- An entry, with what the clock and the disk say to it.
pub record Report : Type 0 where
  pub clock : Clock
  pub os : Os
  pub entry : LogEntry

module _ (fmt : Formats) (join : String → String → String) (l : Logger) where
  abbrev pub calls_of : List Report → List Call
  calls_of [] = []
  calls_of (r ∷ reports) =
      record {
        clock = r.clock;
        os = r.os;
        tag = log_tag r.entry;
        severity = severity_warn;
        message = log_message fmt r.entry;
      }
      ∷ calls_of reports

  -- A report on one line, and a disk that has room for it.
  abbrev pub IsGood : Report → Type 0
  IsGood r =
      IsPlain r.clock.stamp
      × HasPlainOrigin r.entry
      × (leb (length (entry_line fmt r.clock r.entry)) r.os.room ≡ true)

  -- The reports for one file, where it could be opened.
  unfoldable pub reports_for : String → List Report → ℕ
  reports_for path [] = 0
  reports_for path (r ∷ reports) =
      (if string_key.same (filename join l r.clock) path && r.os.opens then 1 else 0)
      + reports_for path reports

  newlines-parts :
      (path : String) (reports : List Report)
      → IsFlat fmt
      → All IsGood reports
      → newlines (parts join l path (calls_of reports)) ≡ reports_for path reports
  unfolding parts reports_for newlines written
  newlines-parts path [] laws good = refl
  newlines-parts path (r ∷ reports) laws good =
      let ih = newlines-parts path reports laws good.1 in
      let line = entry_line fmt r.clock r.entry in
      let one = newlines-entry_line fmt laws r.clock r.entry good.0.0 good.0.1 in
      let whole = take_all r.os.room line good.0.2 in
      elim (Bool-cases (string_key.same (filename join l r.clock) path)) [
        | inr e ↦ rw e (omega (arith, ih))
        | inl e ↦ elim (Bool-cases r.os.opens) [
          | inr f ↦ rw e (rw f (omega (arith, ih)))
          | inl f ↦ rw e (
              rw f (
                newlines-append (take r.os.room line) (parts join l path (calls_of reports))
                ∙ omega (arith, ap newlines whole, one, ih)))
        ]
      ]

  -- The log is not open to injection: on a disk with room, each entry of the broker adds exactly one
  -- line to the file of its date, whatever bytes or connection ID a client sent. The texts that come
  -- from elsewhere, which are the clock's, remote addresses and country codes, have no newline, and
  -- neither has what `%q`, `%d` and base64 give.
  pub newlines-log_all :
      (path : String) (reports : List Report) (f : Files)
      → IsFlat fmt
      → All IsGood reports
      → newlines (content path (log_all join l (calls_of reports) f).1)
        ≡ newlines (content path f) + reports_for path reports
  newlines-log_all path reports f laws good =
      ap newlines (log_all_appends join l (calls_of reports) path f).0
      ∙ newlines-append (content path f) (parts join l path (calls_of reports))
      ∙ ap (λ n. newlines (content path f) + n) (newlines-parts path reports laws good)
