-- ===== src/FilesTab/Lost.antt =====
-- What the editor loses.
use embervm.Prelude.{
  ℕ, suc, String, true, false, ◌&&◌, ◌==◌, Option, none, some, List, [], ◌∷◌, ◌<◌, ◌≤◌, length, ltb,
  str_eq, str_eq_refl, ==_refl, ◌≡◌, refl, arith,
}
use embervm.Files.{looks_binary, edit_max_bytes}
use embervm.FilesTab.{
  Tab, Editor, OpenFile, Write, polled, poll, clicked, read_answered, typed, save_pressed, save_key,
  write_answered, created, create_answered, create_file, file_created, initial, open_file,
  file_read, file_of, set_file, editor_for, same_key, save, saved, type_text, press_save,
  save_by_key, step, run, pick, mounted,
}

-- A file that can be edited.
abbrev pub editable : String → String → ℕ → ℕ → OpenFile
editable path text size generation = record {
  path = path;
  text = text;
  size = size;
  binary = false;
  too_large = false;
  read_only = false;
  generation = generation;
}

-- The tab with a file, and nothing under way.
abbrev pub editing : OpenFile → Tab
editing f = record initial {
  file = some f;
  editor = some (mounted f);
  next_generation = suc f.generation;
  latest_text = f.text;
}

abbrev pub shown_text : Option Editor → Option String
shown_text none = none
shown_text (some e) = some e.doc

abbrev pub sent : List Write → List (String × String)
sent [] = []
sent (w ∷ ws) = (w.file.path, w.text) ∷ sent ws

module _ (decode : List ℕ → String) (size_of : String → ℕ) where
  -- An edit, Mod-S, and a second edit before the save is answered: the answer drops the mark of unsaved
  -- changes, although only the first edit was sent; another file that can be edited is then opened without
  -- a question, and once it is read its text is shown, and nothing was sent for the second edit.
  pub edit_lost :
      (path text : String) (size generation : ℕ) (first second other : String) (bytes : List ℕ)
      → looks_binary bytes ≡ false
      → length bytes ≤ edit_max_bytes
      → let f = editable path text size generation in
        let edited = run decode size_of (editing f) (typed first ∷ save_key ∷ typed second ∷ []) in
        let clean = run decode size_of edited (write_answered 0 true ∷ clicked other ∷ []) in
        let after = run decode size_of clean (read_answered 0 (some bytes) ∷ []) in
        (sent edited.writes ≡ (path, first) ∷ [])
        × (shown_text clean.editor ≡ some second)
        × (clean.dirty ≡ false)
        × (clean.pending_open ≡ none)
        × (sent clean.writes ≡ [])
        × (shown_text after.editor ≡ some (decode bytes))
        × (sent after.writes ≡ [])
  unfolding run step type_text save_by_key save saved pick set_file editor_for same_key open_file
      file_read file_of
  edit_lost path text size generation first second other bytes b l =
      let small : ltb edit_max_bytes (length bytes) ≡ false = ground (arith, l) in
      let k : (str_eq path other && generation == suc generation) ≡ false = ground arith in
      rw (str_eq_refl path, ==_refl generation, b, small, k)
        (refl, refl, refl, refl, refl, refl, refl)

  -- An edit, and the sandbox is paused and resumed: the editor comes back with the file's text, but the
  -- edit is still marked as unsaved, and the button Save sends it although it is not shown.
  pub resumed_text :
      (path text : String) (size generation : ℕ) (change : String)
      → str_eq change text ≡ false
      → let f = editable path text size generation in
        let resumed =
          run decode size_of (editing f) (typed change ∷ polled false ∷ polled true ∷ []) in
        (shown_text resumed.editor ≡ some text)
        × (resumed.dirty ≡ true)
        × (sent (run decode size_of resumed (save_pressed ∷ [])).writes ≡ (path, change) ∷ [])
  unfolding run step poll type_text press_save save editor_for
  resumed_text path text size generation change c = rw c (refl, refl, refl)

  -- A file is opened that is too large to edit, and a key reaches the editor of the file before while it
  -- is read: then the button Save is enabled, and sends an empty text for the large file.
  pub large_file_emptied :
      (path text : String) (size generation : ℕ) (change big : String) (bytes : List ℕ)
      → str_eq change text ≡ false
      → looks_binary bytes ≡ false
      → edit_max_bytes < length bytes
      → sent
          (run decode size_of
            (editing (editable path text size generation))
            (clicked big ∷ typed change ∷ read_answered 0 (some bytes) ∷ save_pressed ∷ [])).writes
        ≡ (big, "") ∷ []
  unfolding run step type_text press_save save pick set_file open_file file_read file_of
  large_file_emptied path text size generation change big bytes c b l =
      let large : ltb edit_max_bytes (length bytes) ≡ true = ground arith in rw (c, b, large) refl

  -- An edit, and a new file that is created from the dialog: the new file is shown without a question,
  -- nothing was sent for the edited file, and the edit is lost.
  pub create_discards :
      (path text : String) (size generation : ℕ) (change new : String)
      → str_eq change text ≡ false
      → let before =
          run decode size_of (editing (editable path text size generation)) (typed change ∷ []) in
        let after =
          run decode size_of before
            (created new ∷ create_answered 0 true ∷ read_answered 0 (some []) ∷ []) in
        (before.dirty ≡ true)
        × (after.pending_open ≡ none)
        × (sent after.writes ≡ [])
        × (after.dirty ≡ false)
        × (shown_text after.editor ≡ some (decode []))
  unfolding run step type_text pick set_file open_file create_file file_created file_read file_of
      editor_for same_key looks_binary
  create_discards path text size generation change new c =
      let k : (str_eq path new && generation == suc generation) ≡ false = ground arith in
      rw (c, k) (refl, refl, refl, refl, refl)
