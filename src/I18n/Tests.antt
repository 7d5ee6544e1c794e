-- ===== src/I18n/Tests.antt =====
-- The language on a concrete run.
use embervm.Prelude.{none, some, true, [], ◌∷◌, ◌≡◌, refl}
use embervm.I18n.{en, load, set_all, set_locale, initial_locale}

saved-switch : (set_all (load none true) (en ∷ [])).saved ≡ some "en"
unfolding set_all set_locale load initial_locale
saved-switch = refl
