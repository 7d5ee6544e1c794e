-- ===== src/I18n.antt =====
-- The language of the console, web/src/lib/i18n.ts: the module-level locale, what is kept of it and the
-- translation that components get.
pub mod Tests
use embervm.Prelude.{
  ℕ, suc, String, Bool, true, false, Option, none, some, str_eq, str_eq_refl, if◌then◌else◌, List,
  [], ◌∷◌, ◌≡◌, ◌⊎◌, inl, inr, sym, ◌∙◌, ap, refl,
}

pub data Locale : Type 0 where
  en zh : Locale

abbrev pub name_of : Locale → String
name_of en = "en"
name_of zh = "zh"

-- `saved` is what localStorage holds, `lang` the attribute of the document, and `published` counts the
-- runs of the listeners.
pub record World : Type 0 where
  pub locale : Locale
  pub saved : Option String
  pub lang : String
  pub published : ℕ

abbrev pub lang_of : Locale → String
lang_of zh = "zh-CN"
lang_of en = "en"

-- `initialLocale`; `browser_is_zh` tells whether `navigator.language` starts with "zh".
unfoldable pub initial_locale : Option String → Bool → Locale
initial_locale none browser_is_zh = if browser_is_zh then zh else en
initial_locale (some saved) browser_is_zh =
    if str_eq saved "en"
    then en
    else if str_eq saved "zh"
    then zh
    else if browser_is_zh
    then zh
    else en

-- The module once it is loaded.
unfoldable pub load : Option String → Bool → World
load saved browser_is_zh =
    let locale : Locale = initial_locale saved browser_is_zh in
    record { locale = locale; saved = saved; lang = lang_of locale; published = 0 }

-- `setLocale`
unfoldable pub set_locale : World → Locale → World
set_locale w en = elim w.locale [
  | en ↦ w
  | zh ↦ record w { locale = en; saved = some "en"; lang = lang_of en; published = suc w.published }
]
set_locale w zh = elim w.locale [
  | zh ↦ w
  | en ↦ record w { locale = zh; saved = some "zh"; lang = lang_of zh; published = suc w.published }
]

unfoldable pub set_all : World → List Locale → World
set_all w [] = w
set_all w (l ∷ ls) = set_all (set_locale w l) ls

-- `t` of `useI18n`, in the locale that is current.
abbrev pub text_in : Locale → String → String → String
text_in zh en_text zh_text = zh_text
text_in en en_text zh_text = en_text

unfoldable pub translate : World → String → String → String
translate w en_text zh_text = text_in w.locale en_text zh_text

abbrev pub last_or : Locale → List Locale → Locale
last_or l [] = l
last_or l (m ∷ ls) = last_or m ls

Locale-cases : (l : Locale) → (l ≡ en) ⊎ (l ≡ zh)
Locale-cases en = inl refl
Locale-cases zh = inr refl

-- The locale is shown as chosen, the document says so, and a reload in the same browser finds it again.
abbrev IsKept : Bool → World → Locale → Type 0
IsKept browser_is_zh w l =
    (w.locale ≡ l) × (w.lang ≡ lang_of l) × (initial_locale w.saved browser_is_zh ≡ l)

set_locale-IsKept :
    (b : Bool) (w : World) (now next : Locale) → IsKept b w now → IsKept b (set_locale w next) next
unfolding set_locale initial_locale
set_locale-IsKept b w now en h = elim (Locale-cases w.locale) [
  | inl e ↦ let s = sym h.0 ∙ e in rw e (refl, h.1 ∙ ap lang_of s, h.2 ∙ s)
  | inr e ↦ rw e (refl, refl, refl)
]
set_locale-IsKept b w now zh h = elim (Locale-cases w.locale) [
  | inl e ↦ rw e (refl, refl, refl)
  | inr e ↦ let s = sym h.0 ∙ e in rw e (refl, h.1 ∙ ap lang_of s, h.2 ∙ s)
]

set_all-IsKept :
    (b : Bool) (w : World) (l : Locale) (ls : List Locale)
    → IsKept b w l
    → IsKept b (set_all w ls) (last_or l ls)
unfolding set_all
set_all-IsKept b w l [] h = h
set_all-IsKept b w l (m ∷ ls) h =
    set_all-IsKept b (set_locale w m) m ls (set_locale-IsKept b w l m h)

-- However often the language is switched, to the one that is shown or to another: the console shows the
-- one that was chosen last, or the initial one if none was; the document's language is that one; and a
-- reload in the same browser starts with it.
pub set_all-load :
    (saved : Option String) (browser_is_zh : Bool) (ls : List Locale)
    → let l = last_or (initial_locale saved browser_is_zh) ls in
      let w = set_all (load saved browser_is_zh) ls in
      ((en_text zh_text : String) → translate w en_text zh_text ≡ text_in l en_text zh_text)
      × (w.lang ≡ lang_of l)
      × (initial_locale w.saved browser_is_zh ≡ l)
unfolding translate load
set_all-load saved b ls =
    let (shown, said, found) =
      set_all-IsKept b (load saved b) (initial_locale saved b) ls (refl, refl, refl) in
    (λ en_text zh_text. ap (λ l. text_in l en_text zh_text) shown, said, found)
