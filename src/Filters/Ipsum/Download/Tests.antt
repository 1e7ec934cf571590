-- ===== src/Filters/Ipsum/Download/Tests.antt =====
-- A download over an old feed, and one that the disk cuts short.
use go_connect.Base.{
  ℕ, ◌≡◌, refl, [], ◌∷◌, true, false, none, some, ok, err, ◌⊎◌, All, string_key, lookup, insert,
  delete,
}
use go_connect.Files.{Files}
use go_connect.Filters.Ipsum.Download.{
  Fetch, Os, DownloadError, tmp_path, download_to_file, write_failed,
}
use go_connect.Filters.Ipsum.Download.Atomic.{IsSafe, body_of, download_to_file_atomic}

abbrev old_feed : Files
old_feed = ("feed", 1 ∷ []) ∷ []

abbrev fetched : Fetch
fetched = record {
  builds = true;
  answer = some (record { status = 200; chunks = (7 ∷ 8 ∷ []) ∷ (9 ∷ []) ∷ []; complete = true });
}

abbrev disk_with : ℕ → Os
disk_with room = record { opens = true; room = room; closes = true; renames = true; removes = true }

new_feed :
    lookup "feed"
      (download_to_file "feed" fetched
        (disk_with 3)
        (record { files = old_feed; seen = [] })).1.files
    ≡ some (7 ∷ 8 ∷ 9 ∷ [])
unfolding download_to_file lookup insert delete
new_feed = refl

disk_full :
    (download_to_file "feed" fetched (disk_with 2) (record { files = old_feed; seen = [] })).0
    ≡ err write_failed
unfolding download_to_file
disk_full = refl

download_to_file_atomic_example :
    let (r, d) =
      download_to_file "feed" fetched (disk_with 2) (record { files = old_feed; seen = [] }) in
    All (IsSafe "feed" old_feed (body_of fetched.answer)) (d.files ∷ d.seen)
    × (((r ≡ ok tt)
          × (lookup "feed" d.files ≡ some (body_of fetched.answer))
          × (lookup (tmp_path "feed") d.files ≡ none))
        ⊎ ((e : DownloadError) × (r ≡ err e)
            × (lookup "feed" d.files ≡ lookup "feed" old_feed)
            × ((true ≡ false)
                ⊎ (lookup (tmp_path "feed") d.files ≡ none)
                ⊎ (lookup (tmp_path "feed") d.files ≡ lookup (tmp_path "feed") old_feed))))
download_to_file_atomic_example = download_to_file_atomic "feed" fetched (disk_with 2) old_feed
