-- ===== src/FilesTab.antt =====
-- The editor of guest files, web/src/pages/workspace/FilesTab.tsx, with the part of Editor.tsx that
-- keeps the document: opening, editing, saving and creating, while reads and writes are under way and the
-- sandbox stops and resumes running. While it does not run, a note is rendered in place of the tree, the
-- editor and the dialogs, and requests that are under way are still answered.
-- FilesTab/NewFile has the paths of new and uploaded files.
pub mod Tree
pub mod Saves
pub mod Lost
pub mod NewFile
pub mod Tests
use embervm.Prelude.{
  ℕ, zero, suc, ◌+◌, String, Bool, true, false, not, ◌&&◌, ◌||◌, Option, none, some, List, [], ◌∷◌,
  ◌==◌, ltb, length, str_eq, if◌then◌else◌,
}
use embervm.Files.{looks_binary, edit_warn_bytes, edit_max_bytes}

pub record OpenFile : Type 0 where
  pub path : String
  pub text : String
  pub size : ℕ
  pub binary : Bool
  pub too_large : Bool
  pub read_only : Bool
  pub generation : ℕ

-- The mounted `Editor`: its key, the text that it was mounted with and its document.
pub record Editor : Type 0 where
  pub path : String
  pub generation : ℕ
  pub read_only : Bool
  pub start_text : String
  pub doc : String

-- A read of a file that has not been answered, and a write, with the file that `save` saw.
pub record Write : Type 0 where
  pub file : OpenFile
  pub text : String

pub record Tab : Type 0 where
  pub running : Bool
  pub file : Option OpenFile
  pub editor : Option Editor
  pub dirty : Bool
  pub busy : Bool
  pub saving : Bool
  pub pending_open : Option String
  pub next_generation : ℕ
  pub latest_text : String
  pub reads : List String
  pub writes : List Write
  pub creates : List String

-- The answers name a request by its place among those that are under way, the newest first.
pub data Event : Type 0 where
  polled : (running : Bool) → Event
  clicked : String → Event
  confirmed cancelled : Event
  read_answered : ℕ → Option (List ℕ) → Event
  typed : String → Event
  save_pressed save_key : Event
  write_answered : ℕ → Bool → Event
  created : String → Event
  create_answered : ℕ → Bool → Event

abbrev pub initial : Tab
initial = record {
  running = true;
  file = none;
  editor = none;
  dirty = false;
  busy = false;
  saving = false;
  pending_open = none;
  next_generation = 1;
  latest_text = "";
  reads = [];
  writes = [];
  creates = [];
}

abbrev pub mounted : OpenFile → Editor
mounted f = record {
  path = f.path;
  generation = f.generation;
  read_only = f.read_only;
  start_text = f.text;
  doc = f.text;
}

-- Whether the mounted editor has the key of the file.
unfoldable pub same_key : Editor → OpenFile → Bool
same_key e f = str_eq e.path f.path && e.generation == f.generation

-- `setFile` and what it renders: an editor for a file that can be edited, the mounted one if the key is
-- the same.
unfoldable pub editor_for : Option Editor → OpenFile → Option Editor
editor_for none f = if f.binary || f.too_large then none else some (mounted f)
editor_for (some e) f =
    if f.binary || f.too_large
    then none
    else if same_key e f
    then some (record e { read_only = f.read_only })
    else some (mounted f)

unfoldable pub set_file : Tab → OpenFile → Tab
set_file s f = record s {
  file = some f;
  editor = if s.running then editor_for s.editor f else none;
}

-- `sb.state` is read again: the editor goes when the sandbox stops running, and when it runs again an
-- editor is mounted afresh for the file, with the file's text.
unfoldable pub poll : Tab → Bool → Tab
unfolding editor_for
poll s false = record s { running = false; editor = none }
poll s true = if s.running then s else record s {
  running = true;
  editor = elim s.file [ none ↦ none | some f ↦ editor_for none f ];
}

-- `openFile`, up to the request.
unfoldable pub open_file : Tab → String → Bool → Tab
open_file s path force =
    if s.dirty && not force
    then record s { pending_open = some path }
    else record s { busy = true; dirty = false; reads = path ∷ s.reads }

-- `createFile`, whose request writes an empty text to the path, and its rest.
unfoldable pub create_file : Tab → String → Tab
create_file s path = record s { creates = path ∷ s.creates }

unfoldable pub file_created : Tab → String → Bool → Tab
unfolding open_file
file_created s path false = s
file_created s path true = open_file s path true

-- An element of a list by its place, and the others.
unfoldable pub pick {ℓ} : {A : Type ℓ} → ℕ → List A → Option (A × List A)
pick n [] = none
pick zero (x ∷ xs) = some (x, xs)
pick (suc n) (x ∷ xs) = elim (pick n xs) [ none ↦ none | some (y, ys) ↦ some (y, x ∷ ys) ]

-- `decode` is `TextDecoder`, and `size_of` the length of what `TextEncoder` gives.
module _ (decode : List ℕ → String) (size_of : String → ℕ) where
  -- The file that `openFile` shows for the bytes that it read.
  unfoldable pub file_of : ℕ → String → List ℕ → OpenFile
  file_of generation path bytes =
      let binary = looks_binary bytes in
      let too_large = ltb edit_max_bytes (length bytes) in
      record {
        path = path;
        text = if binary || too_large then "" else decode bytes;
        size = length bytes;
        binary = binary;
        too_large = too_large;
        read_only = not binary && not too_large && ltb edit_warn_bytes (length bytes);
        generation = generation;
      }

  -- The rest of `openFile`, with the bytes or without any after a failure, whose toast is left out.
  unfoldable pub file_read : Tab → String → Option (List ℕ) → Tab
  file_read s path none = record s { busy = false }
  file_read s path (some bytes) =
      let f : OpenFile = file_of s.next_generation path bytes in
      let opened : Tab = record s {
        latest_text = f.text;
        next_generation = suc s.next_generation;
        busy = false;
      } in
      set_file opened f

  -- `save`, up to the request.
  unfoldable pub save : Tab → String → Tab
  save s text = elim s.file [
    | none ↦ s
    | some f ↦
        if f.read_only || f.binary
        then s
        else record s { saving = true; writes = record { file = f; text = text } ∷ s.writes }
  ]

  -- The rest of `save`.
  unfoldable pub saved : Tab → Write → Bool → Tab
  saved s w false = record s { saving = false }
  saved s w true =
      let shown : Tab = set_file s (record w.file { text = w.text; size = size_of w.text }) in
      record shown { dirty = false; saving = false }

  -- The listener of the document: `onDirty` and `onChange`.
  unfoldable pub type_text : Tab → String → Tab
  type_text s text = elim s.editor [
    | none ↦ s
    | some e ↦ if e.read_only then s else record s {
      editor = some (record e { doc = text });
      dirty = not (str_eq text e.start_text);
      latest_text = text;
    }
  ]

  -- The button is disabled unless `dirty`, and by a file that is read-only or binary, and while busy.
  unfoldable pub press_save : Tab → Tab
  press_save s = if s.running && (s.dirty && not s.saving) then save s s.latest_text else s

  -- Mod-S in the editor.
  unfoldable pub save_by_key : Tab → Tab
  save_by_key s = elim s.editor [ none ↦ s | some e ↦ save s e.doc ]

  -- The confirmation of "Discard unsaved changes?".
  unfoldable pub confirm : Tab → Tab
  confirm s = elim s.pending_open [
    | none ↦ s
    | some next ↦ open_file (record s { pending_open = none }) next true
  ]

  unfoldable pub step : Tab → Event → Tab
  step s (polled running) = poll s running
  step s (clicked path) = if s.running then open_file s path false else s
  step s confirmed = if s.running then confirm s else s
  step s cancelled = if s.running then record s { pending_open = none } else s
  step s (read_answered n bytes) = elim (pick n s.reads) [
    | none ↦ s
    | some (path, others) ↦ file_read (record s { reads = others }) path bytes
  ]
  step s (typed text) = type_text s text
  step s save_pressed = press_save s
  step s save_key = save_by_key s
  step s (write_answered n success) = elim (pick n s.writes) [
    | none ↦ s
    | some (w, others) ↦ saved (record s { writes = others }) w success
  ]
  step s (created path) = if s.running then create_file s path else s
  step s (create_answered n success) = elim (pick n s.creates) [
    | none ↦ s
    | some (path, others) ↦ file_created (record s { creates = others }) path success
  ]

  unfoldable pub run : Tab → List Event → Tab
  run s [] = s
  run s (e ∷ es) = run (step s e) es
