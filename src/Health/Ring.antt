-- ===== src/Health/Ring.antt =====
-- The ring of samples: what the chart of a sandbox shows of the history of its reports.
use embervm.Prelude.{
  ◌+◌, ◌-◌, ◌≤◌, Bool, true, false, Option, none, some, List, [], ◌∷◌, ◌++◌, length, drop, last_n,
  get_last?, ◌≡◌, refl, ap, sym, ◌∙◌, arith, length-append, length-drop, last_n-drop-append,
  last_n_of_le, append_assoc, append-nil,
}
use embervm.Health.{HealthSample, Entry, capacity, add_sample, answer, succeed, fail, blank}

module _ {H : Type 0} where
  abbrev pub add_all : List (HealthSample H) → List (HealthSample H) → List (HealthSample H)
  add_all ring [] = ring
  add_all ring (s ∷ ss) = add_all (add_sample ring s) ss

  length-add_sample :
      (ring : List (HealthSample H)) (s : HealthSample H) → length (add_sample ring s) ≤ capacity
  unfolding add_sample
  length-add_sample ring s = omega (
    arith,
    length-append {0} (drop (length ring + 1 - 240) ring) (s ∷ []),
    length-drop {0} (length ring + 1 - 240) ring,
  )

  add_all_from :
      (ring ss : List (HealthSample H))
      → last_n capacity (add_all ring ss) ≡ last_n capacity (ring ++ ss)
  unfolding add_sample
  add_all_from ring [] = rw append-nil
  add_all_from ring (s ∷ ss) =
      add_all_from (add_sample ring s) ss
      ∙ ap (last_n capacity) (append_assoc (drop (length ring + 1 - 240) ring) (s ∷ []) ss)
      ∙ last_n-drop-append 240 (length ring + 1 - 240) ring (s ∷ ss) (omega arith) (omega arith)

  length-add_all :
      (ring ss : List (HealthSample H))
      → length ring ≤ capacity
      → length (add_all ring ss) ≤ capacity
  length-add_all ring [] h = h
  length-add_all ring (s ∷ ss) h = length-add_all (add_sample ring s) ss (length-add_sample ring s)

  -- The samples of an entry are the last 240 of all reports since it was made, oldest first.
  pub add_all-eq-last_n : (ss : List (HealthSample H)) → add_all [] ss ≡ last_n capacity ss
  add_all-eq-last_n ss =
      sym (last_n_of_le capacity _ (length-add_all [] ss (omega arith))) ∙ add_all_from [] ss

  -- The answers to the polls of one entry, in order; `none` is a failed request.
  abbrev pub answers : Entry H → List (Option (HealthSample H)) → Entry H
  answers e [] = e
  answers e (r ∷ rs) = answers (answer r e) rs

  abbrev pub reports : List (Option (HealthSample H)) → List (HealthSample H)
  reports [] = []
  reports (none ∷ rs) = reports rs
  reports (some s ∷ rs) = s ∷ reports rs

  samples-answers :
      (e : Entry H) (rs : List (Option (HealthSample H)))
      → (answers e rs).samples ≡ add_all e.samples (reports rs)
  samples-answers e [] = refl
  samples-answers e (none ∷ rs) = samples-answers (fail e) rs
  samples-answers e (some s ∷ rs) = samples-answers (succeed s e) rs

  abbrev pub is_failure : Option (HealthSample H) → Bool
  is_failure none = true
  is_failure (some s) = false

  answers-append :
      (e : Entry H) (rs : List (Option (HealthSample H))) (r : Option (HealthSample H))
      → answers e (rs ++ r ∷ []) ≡ answer r (answers e rs)
  answers-append e [] r = refl
  answers-append e (x ∷ rs) r = answers-append (answer x e) rs r

  snapshot-answer :
      (e : Entry H) (r : Option (HealthSample H))
      → ((answer r e).snapshot.samples ≡ (answer r e).samples)
        × ((answer r e).snapshot.latest ≡ get_last? (answer r e).samples)
        × ((answer r e).snapshot.unreachable ≡ is_failure r)
  snapshot-answer e none = (refl, refl, refl)
  snapshot-answer e (some s) = (refl, refl, refl)

  samples-answer :
      (rs : List (Option (HealthSample H))) (r : Option (HealthSample H))
      → (answer r (answers blank rs)).samples ≡ last_n capacity (reports (rs ++ r ∷ []))
  samples-answer rs r =
      ap (λ (e : Entry H). e.samples) (sym (answers-append blank rs r))
      ∙ samples-answers blank (rs ++ r ∷ [])
      ∙ add_all-eq-last_n (reports (rs ++ r ∷ []))

  -- Whatever answers the polls of a new entry get, its snapshot after the last of them, `r`, shows the
  -- last 240 reports, the newest of these as the latest, and is unreachable exactly if that last poll
  -- failed; failed polls leave no sample.
  pub snapshot-answers :
      (rs : List (Option (HealthSample H))) (r : Option (HealthSample H))
      → ((answer r (answers blank rs)).snapshot.samples ≡ last_n capacity (reports (rs ++ r ∷ [])))
        × ((answer r (answers blank rs)).snapshot.latest
            ≡ get_last? (last_n capacity (reports (rs ++ r ∷ []))))
        × ((answer r (answers blank rs)).snapshot.unreachable ≡ is_failure r)
  snapshot-answers rs r =
      let (shown, latest, unreachable) = snapshot-answer (answers blank rs) r in
      (shown ∙ samples-answer rs r, latest ∙ ap get_last? (samples-answer rs r), unreachable)
