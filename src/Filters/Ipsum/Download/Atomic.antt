-- ===== src/Filters/Ipsum/Download/Atomic.antt =====
-- At every moment of a download the feed is the old one or the whole new one.
use Prim.Native.String.{String, count}
use text.Mathlib.TextLemmas.{length-append}
use go_connect.Base.{
  ℕ, ◌-◌, ◌≡◌, ◌≢◌, ◌∙◌, refl, sym, ap, [], ◌∷◌, ◌++◌, append-nil, append_assoc, List, Bool, true,
  false, not, Option, none, some, Result, ok, err, and_then, fail_if, ◌>>◌, ◌==◌, if◌then◌else◌,
  arith, leb, length, take, All, string_key, lookup, insert, delete, lookup-insert, lookup-delete,
  if_cases, Bool-cases, Result-cases, inl, inr, ◌⊎◌,
}
use go_connect.Bytes.{Bytes}
use go_connect.Files.{Files, Disk, change, rename}
use go_connect.Filters.Ipsum.Download.{
  Response, Fetch, Os, DownloadError, tmp_path, write_chunks, or_remove, put_in_place, save,
  receive, download_to_file, write_failed, close_failed, rename_failed,
}

abbrev pub concat : List Bytes → Bytes
concat [] = []
concat (xs ∷ xss) = xs ++ concat xss

tmp_path-ne : (path : String) → tmp_path path ≢ path
unfolding tmp_path
tmp_path-ne path e = absurd (omega (arith, ap count e, length-append path ".tmp"))

module _ (path : String) (before : Files) where
  -- Only the temporary file may differ.
  abbrev Kept : Files → Type 0
  Kept f = (q : String) → q ≢ tmp_path path → lookup q f ≡ lookup q before

  -- The feed is the old one or the new one, and all other files are as before.
  abbrev pub IsSafe : Bytes → Files → Type 0
  IsSafe body f =
      ((lookup path f ≡ lookup path before) ⊎ (lookup path f ≡ some body))
      × ((q : String) → q ≢ tmp_path path → q ≢ path → lookup q f ≡ lookup q before)

  abbrev KeptAlways : Disk → Type 0
  KeptAlways d = All Kept (d.files ∷ d.seen)

  Kept-IsSafe : (body : Bytes) (f : Files) → Kept f → IsSafe body f
  Kept-IsSafe body f k = (inl (k path (λ e. tmp_path-ne path (sym e))), λ q n m. k q n)

  All-IsSafe : (body : Bytes) (fs : List Files) → All Kept fs → All (IsSafe body) fs
  All-IsSafe body [] k = tt
  All-IsSafe body (f ∷ fs) k = (Kept-IsSafe body f k.0, All-IsSafe body fs k.1)

  insert-KeptAlways :
      (xs : Bytes) (d : Disk) → KeptAlways d → KeptAlways (change (insert (tmp_path path) xs) d)
  insert-KeptAlways xs d k = (
    λ q n. ground (
      arith,
      lookup-insert (tmp_path path) q xs d.files,
      string_key.same_iff (tmp_path path) q,
      k.0 q,
    ),
    k,
  )

  delete-KeptAlways : (d : Disk) → KeptAlways d → KeptAlways (change (delete (tmp_path path)) d)
  delete-KeptAlways d k = (
    λ q n. ground (
      arith,
      lookup-delete (tmp_path path) q d.files,
      string_key.same_iff (tmp_path path) q,
      k.0 q,
    ),
    k,
  )

  write_chunks-KeptAlways :
      (done : Bytes) (room : ℕ) (chunks : List Bytes) (d : Disk)
      → KeptAlways d
      → KeptAlways (write_chunks (tmp_path path) done room chunks d).1
  unfolding write_chunks
  write_chunks-KeptAlways done room [] d k = k
  write_chunks-KeptAlways done room (xs ∷ chunks) d k = elim (Bool-cases (leb (length xs) room)) [
    | inl e ↦ rw e (
        write_chunks-KeptAlways (done ++ xs) (room - length xs) chunks _
          (insert-KeptAlways (done ++ xs) d k))
    | inr e ↦ rw e (insert-KeptAlways (done ++ take room xs) d k)
  ]

  lookup-insert_self :
      (xs : Bytes) (f : Files) → lookup (tmp_path path) (insert (tmp_path path) xs f) ≡ some xs
  lookup-insert_self xs f = ground (
    arith,
    lookup-insert (tmp_path path) (tmp_path path) xs f,
    string_key.same_iff (tmp_path path) (tmp_path path),
  )

  lookup-write_chunks :
      (done : Bytes) (room : ℕ) (chunks : List Bytes) (d : Disk)
      → lookup (tmp_path path) d.files ≡ some done
      → (write_chunks (tmp_path path) done room chunks d).0 ≡ ok tt
      → lookup (tmp_path path) (write_chunks (tmp_path path) done room chunks d).1.files
        ≡ some (done ++ concat chunks)
  unfolding write_chunks
  lookup-write_chunks done room [] d k e = k ∙ ap some (sym (append-nil done))
  lookup-write_chunks done room (xs ∷ chunks) d k e = elim (Bool-cases (leb (length xs) room)) [
    | inl f ↦ rw f (
        lookup-write_chunks (done ++ xs) (room - length xs) chunks _
          (lookup-insert_self (done ++ xs) d.files) (rw f at e)
        ∙ ap some (append_assoc done xs (concat chunks)))
    | inr f ↦ absurd (ground arith)
  ]

  -- What a download leaves behind.
  pub record Outcome (body : Bytes) (removes : Bool) (r : Result DownloadError (Unit {0}))
      (d : Disk) : Type 0 where
    pub always : All (IsSafe body) (d.files ∷ d.seen)
    pub saved :
        r ≡ ok tt → (lookup path d.files ≡ some body) × (lookup (tmp_path path) d.files ≡ none)
    pub failed : (e : DownloadError) → r ≡ err e → lookup path d.files ≡ lookup path before
    pub cleaned :
        (e : DownloadError)
        → r ≡ err e
        → removes ≡ true
        → (lookup (tmp_path path) d.files ≡ none)
          ⊎ (lookup (tmp_path path) d.files ≡ lookup (tmp_path path) before)

  Kept-path : (f : Files) → Kept f → lookup path f ≡ lookup path before
  Kept-path f k = k path (λ e. tmp_path-ne path (sym e))

  or_remove-Outcome :
      (body : Bytes) (removes : Bool) (e : DownloadError) (d : Disk)
      → KeptAlways d
      → let (r, d') = or_remove removes (tmp_path path) (err e, d) in Outcome body removes r d'
  unfolding or_remove
  or_remove-Outcome body true e d k =
      let k' = delete-KeptAlways d k in
      record {
        always =
            let d' = change (delete (tmp_path path)) d in All-IsSafe body (d'.files ∷ d'.seen) k';
        saved = λ f. cc;
        failed = λ e' f. Kept-path _ k'.0;
        cleaned = λ e' f g. inl (
            ground (
              arith,
              lookup-delete (tmp_path path) (tmp_path path) d.files,
              string_key.same_iff (tmp_path path) (tmp_path path),
            ));
      }
  or_remove-Outcome body false e d k = record {
    always = All-IsSafe body (d.files ∷ d.seen) k;
    saved = λ f. cc;
    failed = λ e' f. Kept-path _ k.0;
    cleaned = λ e' f g. absurd (cc);
  }

  put_in_place-Outcome :
      (body : Bytes) (removes : Bool) (d : Disk)
      → KeptAlways d
      → lookup (tmp_path path) d.files ≡ some body
      → let (r, d') = put_in_place path d in Outcome body removes r d'
  unfolding put_in_place rename
  put_in_place-Outcome body removes d k e =
      let f = rename (tmp_path path) path d.files in
      let moved : (q : String)
          → lookup q f ≡ (
              if string_key.same path q
              then some body
              else if string_key.same (tmp_path path) q
              then none
              else lookup q d.files) =
        λ q. ground (
          arith,
          e,
          lookup-insert path q body (delete (tmp_path path) d.files),
          lookup-delete (tmp_path path) q d.files,
        ) in
      let here : lookup path f ≡ some body =
        ground (arith, moved path, string_key.same_iff path path) in
      record {
        always = (
          (
            inr here,
            λ q n m. ground (
              arith,
              moved q,
              k.0 q,
              string_key.same_iff path q,
              string_key.same_iff (tmp_path path) q,
            ),
          ),
          All-IsSafe body (d.files ∷ d.seen) k,
        );
        saved = λ g. (
          here,
          ground (
            arith,
            moved (tmp_path path),
            string_key.same_iff path (tmp_path path),
            tmp_path-ne path,
            string_key.same_iff (tmp_path path) (tmp_path path),
          ),
        );
        failed = λ e' g. cc;
        cleaned = λ e' g h. cc;
      }

  -- Once the chunks are written, or a write has failed.
  finish-Outcome :
      (body : Bytes) (removes complete closes renames : Bool) (r : Result DownloadError (Unit {0}))
      (d : Disk)
      → KeptAlways d
      → (r ≡ ok tt → lookup (tmp_path path) d.files ≡ some body)
      → let (r', d') = or_remove removes (tmp_path path) (
          and_then
            (r, d)
            (λ _.
              fail_if (not complete) write_failed
              >> (fail_if (not closes) close_failed
                  >> (fail_if (not renames) rename_failed >> put_in_place path)))) in
        Outcome body removes r' d'
  unfolding or_remove put_in_place
  finish-Outcome body removes complete closes renames (err e) d k w =
      or_remove-Outcome body removes e d k
  finish-Outcome body removes false closes renames (ok u) d k w =
      or_remove-Outcome body removes write_failed d k
  finish-Outcome body removes true false renames (ok u) d k w =
      or_remove-Outcome body removes close_failed d k
  finish-Outcome body removes true true false (ok u) d k w =
      or_remove-Outcome body removes rename_failed d k
  finish-Outcome body removes true true true (ok u) d k w =
      put_in_place-Outcome body removes d k (w refl)

  save-Outcome :
      (resp : Response) (os : Os) (d : Disk)
      → KeptAlways d
      → lookup (tmp_path path) d.files ≡ some []
      → let (r, d') = or_remove os.removes (tmp_path path) (save path resp os d) in
        Outcome (concat resp.chunks) os.removes r d'
  unfolding save
  save-Outcome resp os d k e =
      let (r, d') = write_chunks (tmp_path path) [] os.room resp.chunks d in
      finish-Outcome (concat resp.chunks) os.removes resp.complete os.closes os.renames r d'
        (write_chunks-KeptAlways [] os.room resp.chunks d k)
        (lookup-write_chunks [] os.room resp.chunks d e)

  -- An error before the temporary file is opened.
  untouched-Outcome :
      (body : Bytes) (removes : Bool) (e : DownloadError)
      → Outcome body removes (err e) (record { files = before; seen = [] })
  untouched-Outcome body removes e = record {
    always = (Kept-IsSafe body before (λ q n. refl), tt);
    saved = λ f. cc;
    failed = λ e' f. refl;
    cleaned = λ e' f g. inr refl;
  }

  receive-Outcome :
      (resp : Response) (os : Os)
      → let (r, d) = receive path resp os (record { files = before; seen = [] }) in
        Outcome (concat resp.chunks) os.removes r d
  unfolding receive
  receive-Outcome resp os =
      let start : Disk = record { files = before; seen = [] } in
      let P : Result DownloadError (Unit {0}) × Disk → Type 0 =
        λ z. Outcome (concat resp.chunks) os.removes z.0 z.1 in
      if_cases P (not (resp.status == 200)) _ _ (λ _. untouched-Outcome _ os.removes _)
        (λ _.
          if_cases P (not os.opens) _ _ (λ _. untouched-Outcome _ os.removes _)
            (λ _.
              save-Outcome resp os (change (insert (tmp_path path) []) start)
                (insert-KeptAlways [] start ((λ q n. refl), tt)) (lookup-insert_self [] before)))

-- The body of the answer, if there is one.
abbrev pub body_of : Option Response → Bytes
body_of none = []
body_of (some r) = concat r.chunks

download_to_file-Outcome :
    (path : String) (fetch : Fetch) (os : Os) (files : Files)
    → let (r, d) = download_to_file path fetch os (record { files = files; seen = [] }) in
      Outcome path files (body_of fetch.answer) os.removes r d
unfolding download_to_file
download_to_file-Outcome path fetch os files = by_answer fetch.builds fetch.answer
  where
    by_answer :
        (builds : Bool) (answer : Option Response)
        → let (r, d) =
            download_to_file path
              (record { builds = builds; answer = answer })
              os
              (record { files = files; seen = [] }) in
          Outcome path files (body_of answer) os.removes r d
    by_answer false answer = untouched-Outcome path files (body_of answer) os.removes _
    by_answer true none = untouched-Outcome path files [] os.removes _
    by_answer true (some resp) = receive-Outcome path files resp os

pub download_to_file_atomic :
    (path : String) (fetch : Fetch) (os : Os) (files : Files)
    → let (r, d) = download_to_file path fetch os (record { files = files; seen = [] }) in
      All (IsSafe path files (body_of fetch.answer)) (d.files ∷ d.seen)
      × (((r ≡ ok tt)
            × (lookup path d.files ≡ some (body_of fetch.answer))
            × (lookup (tmp_path path) d.files ≡ none))
          ⊎ ((e : DownloadError) × (r ≡ err e)
              × (lookup path d.files ≡ lookup path files)
              × ((os.removes ≡ false)
                  ⊎ (lookup (tmp_path path) d.files ≡ none)
                  ⊎ (lookup (tmp_path path) d.files ≡ lookup (tmp_path path) files))))
download_to_file_atomic path fetch os files =
    let (r, d) = download_to_file path fetch os (record { files = files; seen = [] }) in
    let o = download_to_file-Outcome path fetch os files in
    (
      o.always,
      elim (Result-cases r) [
        | inl (u, e) ↦ let w = o.saved e in inl (e, w.0, w.1)
        | inr (e, f) ↦ inr (
          e,
          f,
          o.failed e f,
          elim (Bool-cases os.removes) [ inr g ↦ inl g | inl g ↦ inr (o.cleaned e f g) ],
        )
      ],
    )
