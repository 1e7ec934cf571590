-- ===== src/Logging/Appends.antt =====
-- A log file only grows, by whole lines where the calls succeed.
use Prim.Native.String.{String}
use go_connect.Base.{
  ℕ, zero, suc, ◌≡◌, ◌∙◌, refl, sym, ap, [], ◌∷◌, ◌++◌, append-nil, append_assoc, List, Bool, true,
  false, Result, ok, err, if◌then◌else◌, arith, leb, length, take, string_key, insert,
  lookup-insert, Bool-cases, inl, inr,
}
use go_connect.Bytes.{Bytes}
use go_connect.Files.{Files}
use go_connect.Logging.{
  Logger, LogError, Clock, Os, open_failed, write_failed, log_line, content, open_file, append_to,
  filename, log,
}

-- A call of `Log`, with what the clock and the disk say to it.
pub record Call : Type 0 where
  pub clock : Clock
  pub os : Os
  pub tag : String
  pub severity : String
  pub message : Bytes

-- The part of the line that reaches the disk, and the error.
abbrev pub line_of : Call → Bytes
line_of c = log_line c.clock c.tag c.severity c.message

unfoldable pub written : Call → Bytes
written c = if c.os.opens then take c.os.room (line_of c) else []

unfoldable pub outcome : Call → Result LogError (Unit {0})
outcome c =
    if c.os.opens
    then (if leb (length (line_of c)) c.os.room then ok tt else err write_failed)
    else err open_failed

pub take_all : (n : ℕ) (xs : Bytes) → leb (length xs) n ≡ true → take n xs ≡ xs
take_all zero [] e = refl
take_all (suc n) [] e = refl
take_all zero (x ∷ xs) e = absurd (ground arith)
take_all (suc n) (x ∷ xs) e = ap (◌∷◌ x) (take_all n xs (ground arith))

content-insert :
    (p q : String) (xs : Bytes) (f : Files)
    → content q (insert p xs f) ≡ (if string_key.same p q then xs else content q f)
content-insert p q xs f = ground (arith, lookup-insert p q xs f)

-- What opening the file and writing at its end add to a file.
abbrev added : String → String → Bytes → Bytes
added p q xs = if string_key.same p q then xs else []

content-open_file :
    (opens : Bool) (p q : String) (f : Files) → content q (open_file opens p f).1 ≡ content q f
unfolding open_file
content-open_file false p q f = refl
content-open_file true p q f =
    ground (arith, content-insert p q (content p f) f, string_key.same_iff p q)

content-append_to :
    (room : ℕ) (p q : String) (xs : Bytes) (f : Files)
    → content q (append_to room p xs f).1 ≡ content q f ++ added p q (take room xs)
unfolding append_to
content-append_to room p q xs f = elim (Bool-cases (string_key.same p q)) [
  | inl e ↦ ground (
    arith,
    e,
    take_all room xs,
    content-insert p q (content p f ++ xs) f,
    content-insert p q (content p f ++ take room xs) f,
    (string_key.same_iff p q).0 e,
  )
  | inr e ↦ ground (
    arith,
    e,
    append-nil (content q f),
    content-insert p q (content p f ++ xs) f,
    content-insert p q (content p f ++ take room xs) f,
  )
]

unfoldable pub outcomes : List Call → List (Result LogError (Unit {0}))
outcomes [] = []
outcomes (c ∷ calls) = outcome c ∷ outcomes calls

module _ (join : String → String → String) (l : Logger) where
  abbrev pub call : Call → Files → Result LogError (Unit {0}) × Files
  call c f = log join l c.clock c.os c.tag c.severity c.message f

  -- The results of the calls, one after the other, and the files after the last.
  unfoldable pub log_all : List Call → Files → List (Result LogError (Unit {0})) × Files
  log_all [] f = ([], f)
  log_all (c ∷ calls) f = let (r, g) = call c f in let (rs, h) = log_all calls g in (r ∷ rs, h)

  -- What the calls add to one file.
  unfoldable pub parts : String → List Call → Bytes
  parts path [] = []
  parts path (c ∷ calls) =
      let rest = parts path calls in
      if string_key.same (filename join l c.clock) path then written c ++ rest else rest

  content-call :
      (c : Call) (q : String) (f : Files)
      → content q (call c f).1 ≡ content q f ++ added (filename join l c.clock) q (written c)
  unfolding log written open_file
  content-call c q f = elim (Bool-cases c.os.opens) [
    | inl e ↦
        let p = filename join l c.clock in
        rw e (
          content-append_to c.os.room p q (line_of c) (insert p (content p f) f)
          ∙ ap (λ z. z ++ added p q (take c.os.room (line_of c))) (content-open_file true p q f))
    | inr e ↦ rw e (ground (arith, append-nil (content q f)))
  ]

  call_lem : (c : Call) (f : Files) → (call c f).0 ≡ outcome c
  unfolding log outcome open_file append_to
  call_lem c f = ground arith

  -- Whatever calls come, and however the disk answers, each file has in the end what it had before and
  -- then, in the order of the calls, the lines of those whose date is the file's: a line whole where
  -- its call succeeds, its first bytes where a write fails, and nothing where the file cannot be
  -- opened. Each call reports what happened to its own line.
  pub log_all_appends :
      (calls : List Call) (path : String) (f : Files)
      → (content path (log_all calls f).1 ≡ content path f ++ parts path calls)
        × ((log_all calls f).0 ≡ outcomes calls)
  unfolding log_all parts outcomes
  log_all_appends [] path f = (sym (append-nil (content path f)), refl)
  log_all_appends (c ∷ calls) path f =
      let w = log_all_appends calls path (call c f).1 in
      let grows : content path (call c f).1 ++ parts path calls
          ≡ content path f ++ parts path (c ∷ calls) =
        ap (λ z. z ++ parts path calls) (content-call c path f)
        ∙ append_assoc (content path f) (added (filename join l c.clock) path (written c))
            (parts path calls)
        ∙ ap (λ z. content path f ++ z) (ground arith) in
      (w.0 ∙ grows, ground (arith, call_lem c f, w.1))
