-- ===== src/FilesTab/Tree/Keys.antt =====
-- What the arrow keys and clicks of the file tree do.
use embervm.Prelude.{
  ℕ, zero, suc, ◌+◌, ◌-◌, ◌<◌, ltb, true, false, Option, none, some, List, [], ◌∷◌, Text, text_eq,
  text_eq_iff, is_some, Bool-cases, inl, inr, ◌≡◌, refl, ap, ◌∙◌, arith,
}
use embervm.FilesTab.Tree.{
  Opened, opened, Children, end, child, child_of, without, at_child, toggle, is_open, on_arrow,
}

-- ArrowDown, pressed a number of times.
abbrev pub press_down : ℕ → ℕ → Option ℕ → Option ℕ
press_down zero count focus = focus
press_down (suc k) count focus = press_down k count (on_arrow true count focus)

press_down-next : (k i count : ℕ) → i + k < count → press_down k count (some i) ≡ some (i + k)
unfolding on_arrow
press_down-next zero i count h = ap (λ n. some n) (omega arith)
press_down-next (suc k) i count h =
    let e : ltb (suc i) count ≡ true = ground (arith, h) in
    rw e (press_down-next k (suc i) count (omega arith) ∙ ap (λ n. some n) (omega arith))

-- Every row can be reached with ArrowDown from the tree without a focussed row, and from there ArrowUp
-- goes back to the row before.
pub press_down-reaches :
    (i count : ℕ)
    → i < count
    → (press_down (suc i) count none ≡ some i) × (on_arrow false count (some i) ≡ some (i - 1))
unfolding on_arrow
press_down-reaches i count h =
    let e : ltb 0 count ≡ true = ground (arith, h) in
    (
      rw e (press_down-next i 0 count (omega arith) ∙ ap (λ n. some n) (omega arith)),
      ground (arith, h),
    )

without-fixed :
    (name : Text) (cs : Children) → is_some (child_of name cs) ≡ false → without name cs ≡ cs
without-fixed name end h = refl
without-fixed name (child k o cs) h = elim (Bool-cases (text_eq name k)) [
  | inl t ↦ absurd (cc (rw t at h))
  | inr f ↦ rw f (ap (λ z. child k o z) (without-fixed name cs (rw f at h)))
]

text_eq_refl : (s : Text) → text_eq s s ≡ true
text_eq_refl s = (text_eq_iff s s).1 refl

at_child-twice :
    (name : Text) (f : Children → Children) (cs : Children)
    → ((ds : Children) → child_of name cs ≡ some (opened ds) → f (f ds) ≡ ds)
    → at_child name f (at_child name f cs) ≡ cs
at_child-twice name f end h = refl
at_child-twice name f (child k (opened ds) cs) h = elim (Bool-cases (text_eq name k)) [
  | inl t ↦ rw t (rw t (ap (λ z. child k (opened z) cs) (h ds (rw t refl))))
  | inr n ↦
      rw n
        (rw n (ap (λ z. child k (opened ds) z) (at_child-twice name f cs (λ es e. h es (rw n e)))))
]

closed_leaf :
    (name : Text) (cs : Children)
    → is_open (name ∷ []) cs ≡ false
    → is_some (child_of name cs) ≡ false
unfolding is_open
closed_leaf name cs h = go (child_of name cs) refl
  where
    go : (o : Option Opened) → child_of name cs ≡ o → is_some (child_of name cs) ≡ false
    go none e = rw e refl
    go (some (opened ds)) e = absurd (cc (rw (is_open, e) at h))

-- Opening a directory that is closed and closing it again leaves the tree as it was.
pub toggle-toggle :
    (trail : List Text) (cs : Children)
    → is_open trail cs ≡ false
    → toggle trail (toggle trail cs) ≡ cs
unfolding toggle is_open
toggle-toggle [] cs h = refl
toggle-toggle (name ∷ []) cs h =
    let closed : is_some (child_of name cs) ≡ false = closed_leaf name cs h in
    rw (closed, text_eq_refl name) (without-fixed name cs closed)
toggle-toggle (name ∷ next ∷ trail) cs h =
    at_child-twice name (λ x. toggle (next ∷ trail) x) cs
      (λ ds e. toggle-toggle (next ∷ trail) ds (rw (is_open, e) at h))
