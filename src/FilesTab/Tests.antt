-- ===== src/FilesTab/Tests.antt =====
-- The editor on concrete runs; a file's bytes are not decoded.
use embervm.Prelude.{
  Text, codes, text_eq, if◌then◌else◌, ℕ, zero, suc, ◌<◌, min, String, true, false, none, some,
  List, [], ◌∷◌, length, ◌≡◌, ◌⊎◌, inl, refl, arith,
}
use embervm.FilesTab.Tree.{DirEntry, Children, opened, end, child, rows_of, toggle, is_open}
use embervm.FilesTab.Tree.Shown.{has, is_shown, has-rows_of}
use embervm.Files.{
  join_path, normalize_path, segments, visit_all, visit, looks_binary, has_nul, edit_max_bytes,
}
use embervm.FilesTab.{
  Event, polled, poll, clicked, cancelled, read_answered, typed, save_pressed, save_key,
  write_answered, initial, run, step, open_file, file_read, file_of, set_file, editor_for,
  type_text, pick, press_save, save,
}
use embervm.FilesTab.Saves.{Shows, run-IsMirrored}
use embervm.FilesTab.Lost.{
  editable, editing, shown_text, sent, edit_lost, resumed_text, large_file_emptied,
}

abbrev decode : List ℕ → String
decode bytes = "text"

abbrev size_of : String → ℕ
size_of text = 4

abbrev session : List Event
session =
    polled false
    ∷ polled true
    ∷ clicked "/a"
    ∷ read_answered 0 (some (116 ∷ []))
    ∷ typed "new"
    ∷ clicked "/b"
    ∷ cancelled
    ∷ save_pressed
    ∷ typed "newer"
    ∷ []

sent-session : sent (run decode size_of initial session).writes ≡ ("/a", "new") ∷ []
unfolding run step poll open_file file_read file_of set_file editor_for type_text pick press_save
    save looks_binary has_nul
sent-session = refl

run-IsMirrored_example :
    ((run decode size_of initial session).dirty ≡ false)
    ⊎ Shows
        (run decode size_of initial session).editor
        (run decode size_of initial session).latest_text
unfolding step poll
run-IsMirrored_example =
    run-IsMirrored decode size_of session
      (tt, (inl refl, (tt, (tt, (tt, (tt, (tt, (tt, (tt, tt)))))))))

looks_binary-plain : looks_binary (116 ∷ []) ≡ false
unfolding looks_binary has_nul
looks_binary-plain = refl

edit_lost_example :
    let f = editable "/a" "" 0 1 in
    let edited = run decode size_of (editing f) (typed "x" ∷ save_key ∷ typed "xy" ∷ []) in
    let clean = run decode size_of edited (write_answered 0 true ∷ clicked "/b" ∷ []) in
    let after = run decode size_of clean (read_answered 0 (some (116 ∷ [])) ∷ []) in
    (sent edited.writes ≡ ("/a", "x") ∷ [])
    × (shown_text clean.editor ≡ some "xy")
    × (clean.dirty ≡ false)
    × (clean.pending_open ≡ none)
    × (sent clean.writes ≡ [])
    × (shown_text after.editor ≡ some (decode (116 ∷ [])))
    × (sent after.writes ≡ [])
edit_lost_example =
    edit_lost decode size_of "/a" "" 0 1 "x" "xy" "/b" (116 ∷ []) (looks_binary-plain) (omega arith)

resumed_text_example :
    let f = editable "/a" "" 0 1 in
    let resumed = run decode size_of (editing f) (typed "x" ∷ polled false ∷ polled true ∷ []) in
    (shown_text resumed.editor ≡ some "")
    × (resumed.dirty ≡ true)
    × (sent (run decode size_of resumed (save_pressed ∷ [])).writes ≡ ("/a", "x") ∷ [])
resumed_text_example = resumed_text decode size_of "/a" "" 0 1 "x" refl

abbrev ones : ℕ → List ℕ
ones zero = []
ones (suc n) = 1 ∷ ones n

length-ones : (n : ℕ) → length (ones n) ≡ n
length-ones zero = refl
length-ones (suc n) = omega (arith, length-ones n)

has_nul-ones : (k n : ℕ) → has_nul k (ones n) ≡ false
unfolding has_nul
has_nul-ones zero n = refl
has_nul-ones (suc k) zero = refl
has_nul-ones (suc k) (suc n) = has_nul-ones k n

looks_binary-ones : (n : ℕ) → looks_binary (ones n) ≡ false
unfolding looks_binary
looks_binary-ones n = has_nul-ones (min (length (ones n)) 8192) n

large : (n : ℕ) → edit_max_bytes < n → edit_max_bytes < length (ones n)
large n h = omega (arith, length-ones n)

large_file_emptied_example :
    sent
      (run decode size_of (editing (editable "/a" "" 0 1)) (
        clicked "/b"
        ∷ typed "x"
        ∷ read_answered 0 (some (ones 9000000))
        ∷ save_pressed
        ∷ [])).writes
    ≡ ("/b", "") ∷ []
large_file_emptied_example =
    large_file_emptied decode size_of "/a" "" 0 1 "x" "/b" (ones 9000000) refl
      (looks_binary-ones 9000000) (large 9000000 (omega arith))

-- A guest whose root has a directory and a file.
abbrev listing : Text → List DirEntry
listing path =
    if text_eq path (codes "/")
    then record { name = codes "etc"; is_dir = true }
      ∷ record { name = codes "a.txt"; is_dir = false }
      ∷ []
    else if text_eq path (codes "/etc")
    then record { name = codes "hosts"; is_dir = false } ∷ []
    else []

abbrev etc_open : Children
etc_open = child (codes "etc") (opened end) end

three_rows : length (rows_of listing (opened etc_open) (codes "/")) ≡ 3
unfolding rows_of join_path normalize_path segments visit_all visit embervm.Files.split text_eq
three_rows = refl

closes_again : toggle (codes "etc" ∷ []) (toggle (codes "etc" ∷ []) end) ≡ end
unfolding toggle text_eq
closes_again = refl

etc_closed : is_open (codes "etc" ∷ []) end ≡ false
unfolding is_open
etc_closed = refl

has-rows_of_example :
    has (codes "etc" ∷ codes "hosts" ∷ []) (rows_of listing (opened etc_open) (codes "/"))
    ≡ is_shown listing (codes "etc" ∷ codes "hosts" ∷ []) (opened etc_open) (codes "/")
has-rows_of_example =
    has-rows_of listing (opened etc_open) (codes "etc" ∷ codes "hosts" ∷ []) (codes "/")
