-- ===== src/FilesTab/Saves.antt =====
-- What the button Save sends.
use embervm.Prelude.{
  ℕ, suc, String, Bool, true, false, not, ◌&&◌, ◌||◌, Option, none, some, List, [], ◌∷◌, if-intro,
  ◌≡◌, ◌⊎◌, inl, inr, refl, Option-cases, zero, All, All-imp, subst, some-injective, arith, ◌<◌,
  ◌==◌, str_eq,
}
use embervm.FilesTab.{
  Tab, Editor, OpenFile, Write, Event, polled, poll, clicked, confirmed, cancelled, read_answered,
  typed, save_pressed, save_key, write_answered, created, create_answered, create_file,
  file_created, initial, open_file, file_read, set_file, editor_for, same_key, save, saved,
  type_text, press_save, save_by_key, confirm, step, run, pick, file_of,
}

-- The editor, if one is mounted, shows this text.
abbrev pub Shows : Option Editor → String → Type 0
Shows none text = Unit
Shows (some e) text = text ≡ e.doc

abbrev Older : ℕ → Option Editor → Type 0
Older n none = Unit
Older n (some e) = e.generation < n

abbrev OlderFile : ℕ → Option OpenFile → Type 0
OlderFile n none = Unit
OlderFile n (some f) = f.generation < n

abbrev OlderWrites : ℕ → List Write → Type 0
OlderWrites n ws = All (λ w. w.file.generation < n) ws

-- Where there are unsaved changes, the text that the button would save is the one that is shown; and
-- the generation that comes next has not been used.
abbrev pub IsMirrored : Tab → Type 0
IsMirrored s =
    ((s.dirty ≡ false) ⊎ Shows s.editor s.latest_text)
    × Older s.next_generation s.editor
    × OlderFile s.next_generation s.file
    × OlderWrites s.next_generation s.writes

All-pick {ℓ κ} :
    {A : Type ℓ} (P : A → Type κ) (n : ℕ) (xs : List A) {y : A} {ys : List A}
    → All P xs
    → pick n xs ≡ some (y, ys)
    → P y × All P ys
unfolding pick
All-pick P n [] h e = absurd (cc e)
All-pick P zero (x ∷ xs) h e = subst (λ (p : _ × _). P p.0 × All P p.1) (some-injective _ _ e) h
All-pick P (suc n) (x ∷ xs) h e = elim (Option-cases (pick n xs)) [
  | inl q ↦ absurd (cc (rw q at e))
  | inr ((z, zs), q) ↦
      let (here, others) = All-pick P n xs h.1 q in
      subst (λ (p : _ × _). P p.0 × All P p.1) (some-injective _ _ (rw q at e))
        (here, (h.0, others))
]

-- The editor of a file keeps the key of that file or that of the one before.
editor_for-Older :
    (n : ℕ) (o : Option Editor) (f : OpenFile)
    → Older n o
    → f.generation < n
    → Older n (editor_for o f)
unfolding editor_for
editor_for-Older n none f h k = if-intro (Older n) (f.binary || f.too_large) (λ _. tt) (λ _. k)
editor_for-Older n (some e) f h k =
    if-intro (Older n) (f.binary || f.too_large) (λ _. tt)
      λ _. if-intro (Older n) (same_key e f) (λ _. h) (λ _. k)

-- The editor of a file with a generation of its own shows the file's text.
editor_for-Shows :
    (o : Option Editor) (f : OpenFile) → Older f.generation o → Shows (editor_for o f) f.text
unfolding editor_for same_key
editor_for-Shows none f h =
    if-intro (λ e. Shows e f.text) (f.binary || f.too_large) (λ _. tt) (λ _. refl)
editor_for-Shows (some e) f h =
    if-intro (λ e. Shows e f.text) (f.binary || f.too_large) (λ _. tt)
      λ _.
        if-intro (λ e. Shows e f.text) (str_eq e.path f.path && e.generation == f.generation)
          (λ k. absurd (ground arith)) (λ _. refl)

Older-suc : (n : ℕ) (o : Option Editor) → Older n o → Older (suc n) o
Older-suc n none h = tt
Older-suc n (some e) h = omega arith

-- The sandbox does not come back to running while there are unsaved changes.
abbrev pub IsCalm : Tab → Event → Type 0
IsCalm s (polled true) = (s.dirty ≡ false) ⊎ (s.running ≡ true)
IsCalm s e = Unit

module _ (decode : List ℕ → String) (size_of : String → ℕ) where
  abbrev pub AreCalm : Tab → List Event → Type 0
  AreCalm s [] = Unit
  AreCalm s (e ∷ es) = IsCalm s e × AreCalm (step decode size_of s e) es

  mounted-Older :
      (n : ℕ) (o : Option OpenFile)
      → OlderFile n o
      → Older n (elim o [ none ↦ none | some f ↦ editor_for none f ])
  mounted-Older n none h = tt
  mounted-Older n (some f) h = editor_for-Older n none f tt h

  poll-IsMirrored :
      (s : Tab) (running : Bool)
      → IsCalm s (polled running)
      → IsMirrored s
      → IsMirrored (poll s running)
  unfolding poll
  poll-IsMirrored s false c h = (inr tt, tt, h.2, h.3)
  poll-IsMirrored s true (inl c) h =
      if-intro IsMirrored s.running (λ _. h)
        (λ _. (inl c, mounted-Older s.next_generation s.file h.2, h.2, h.3))
  poll-IsMirrored s true (inr c) h = if-intro IsMirrored s.running (λ _. h) (λ e. absurd (cc))

  open_file-IsMirrored :
      (s : Tab) (path : String) (force : Bool) → IsMirrored s → IsMirrored (open_file s path force)
  unfolding open_file
  open_file-IsMirrored s path force h =
      if-intro IsMirrored (s.dirty && not force) (λ _. h) (λ _. (inl refl, h.1, h.2, h.3))

  file_created-IsMirrored :
      (s : Tab) (path : String) (success : Bool)
      → IsMirrored s
      → IsMirrored (file_created s path success)
  unfolding file_created
  file_created-IsMirrored s path false h = h
  file_created-IsMirrored s path true h = open_file-IsMirrored s path true h

  save-IsMirrored :
      (s : Tab) (f : Option OpenFile) (text : String)
      → s.file ≡ f
      → IsMirrored s
      → IsMirrored (save decode size_of s text)
  unfolding save
  save-IsMirrored s none text e h = rw e (rw e at h)
  save-IsMirrored s (some f) text e h =
      let older : f.generation < s.next_generation = rw e at h.2 in
      rw e (
        if-intro IsMirrored (f.read_only || f.binary) (λ _. rw e at h)
          (λ _. (h.0, h.1, older, (older, h.3))))

  file_read-IsMirrored :
      (s : Tab) (path : String) (bytes : Option (List ℕ))
      → IsMirrored s
      → IsMirrored (file_read decode size_of s path bytes)
  unfolding file_read set_file file_of
  file_read-IsMirrored s path none h = h
  file_read-IsMirrored s path (some bytes) h =
      let f : OpenFile = file_of decode size_of s.next_generation path bytes in
      (
        inr (
            if-intro (λ e. Shows e f.text) s.running (λ _. editor_for-Shows s.editor f h.1)
              (λ _. tt)),
        if-intro (Older (suc s.next_generation)) s.running
            (λ _.
              editor_for-Older (suc s.next_generation) s.editor f
                (Older-suc s.next_generation s.editor h.1) (omega arith))
            (λ _. tt),
        omega arith,
        All-imp (λ w k. omega arith) s.writes h.3,
      )

  saved-IsMirrored :
      (s : Tab) (w : Write) (success : Bool)
      → w.file.generation < s.next_generation
      → IsMirrored s
      → IsMirrored (saved decode size_of s w success)
  unfolding saved set_file
  saved-IsMirrored s w false k h = h
  saved-IsMirrored s w true k h = (
    inl refl,
    if-intro (Older s.next_generation) s.running
        (λ _.
          editor_for-Older s.next_generation s.editor
            (record w.file { text = w.text; size = size_of w.text }) h.1 k)
        (λ _. tt),
    k,
    h.3,
  )

  type_text-IsMirrored :
      (s : Tab) (o : Option Editor) (text : String)
      → s.editor ≡ o
      → IsMirrored s
      → IsMirrored (type_text decode size_of s text)
  unfolding type_text
  type_text-IsMirrored s none text e h = rw e (rw e at h)
  type_text-IsMirrored s (some ed) text e h =
      let older : ed.generation < s.next_generation = rw e at h.1 in
      rw e (if-intro IsMirrored ed.read_only (λ _. rw e at h) (λ _. (inr refl, older, h.2, h.3)))

  confirm-IsMirrored :
      (s : Tab) (o : Option String)
      → s.pending_open ≡ o
      → IsMirrored s
      → IsMirrored (confirm decode size_of s)
  unfolding confirm
  confirm-IsMirrored s none e h = rw e h
  confirm-IsMirrored s (some next) e h =
      rw e (open_file-IsMirrored (record s { pending_open = none }) next true h)

  step-IsMirrored :
      (s : Tab) (e : Event) → IsCalm s e → IsMirrored s → IsMirrored (step decode size_of s e)
  unfolding step confirm press_save save_by_key create_file
  step-IsMirrored s (polled running) c h = poll-IsMirrored s running c h
  step-IsMirrored s (clicked path) c h =
      if-intro IsMirrored s.running (λ _. open_file-IsMirrored s path false h) (λ _. h)
  step-IsMirrored s confirmed c h =
      if-intro IsMirrored s.running (λ _. confirm-IsMirrored s s.pending_open refl h) (λ _. h)
  step-IsMirrored s cancelled c h = if-intro IsMirrored s.running (λ _. h) (λ _. h)
  step-IsMirrored s (read_answered n bytes) c h = elim (Option-cases (pick n s.reads)) [
    | inl e ↦ rw (step, e) h
    | inr ((path, others), e) ↦
        rw (step, e) (file_read-IsMirrored (record s { reads = others }) path bytes h)
  ]
  step-IsMirrored s (typed text) c h = type_text-IsMirrored s s.editor text refl h
  step-IsMirrored s save_pressed c h =
      if-intro IsMirrored (s.running && (s.dirty && not s.saving))
        (λ _. save-IsMirrored s s.file s.latest_text refl h) (λ _. h)
  step-IsMirrored s save_key c h = elim (Option-cases s.editor) [
    | inl e ↦ rw e (rw e at h)
    | inr (ed, e) ↦ let k = save-IsMirrored s s.file ed.doc refl h in rw e (rw e at k)
  ]
  step-IsMirrored s (write_answered n success) c h = elim (Option-cases (pick n s.writes)) [
    | inl e ↦ rw (step, e) h
    | inr ((w, others), e) ↦
        let (older, rest) =
          All-pick (λ v. v.file.generation < s.next_generation) n s.writes h.3 e in
        rw (step, e)
          (saved-IsMirrored (record s { writes = others }) w success older (h.0, h.1, h.2, rest))
  ]
  step-IsMirrored s (created path) c h = if-intro IsMirrored s.running (λ _. h) (λ _. h)
  step-IsMirrored s (create_answered n success) c h = elim (Option-cases (pick n s.creates)) [
    | inl e ↦ rw (step, e) h
    | inr ((path, others), e) ↦
        rw (step, e) (file_created-IsMirrored (record s { creates = others }) path success h)
  ]

  run-IsMirrored_from :
      (s : Tab) (es : List Event)
      → AreCalm s es
      → IsMirrored s
      → IsMirrored (run decode size_of s es)
  unfolding run
  run-IsMirrored_from s [] c h = h
  run-IsMirrored_from s (e ∷ es) c h =
      run-IsMirrored_from (step decode size_of s e) es c.1 (step-IsMirrored s e c.0 h)

  -- After every sequence of clicks, keys, answers and changes of the sandbox's state, in whatever order
  -- the reads and writes are answered, if the sandbox never comes back to running while there are unsaved
  -- changes: if there are unsaved changes and an editor is shown, then the text that the button Save would
  -- send is the one that the editor shows.
  pub run-IsMirrored :
      (es : List Event)
      → AreCalm initial es
      → ((run decode size_of initial es).dirty ≡ false)
        ⊎ Shows (run decode size_of initial es).editor (run decode size_of initial es).latest_text
  run-IsMirrored es c = (run-IsMirrored_from initial es c (inl refl, tt, tt, tt)).0
