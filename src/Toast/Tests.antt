-- ===== src/Toast/Tests.antt =====
-- The toast store on concrete runs.
use embervm.Prelude.{ℕ, arith, String, none, List, [], ◌∷◌, ◌≡◌, refl, map}
use embervm.Toast.{
  Kind, success, error, info, Op, pushed, dismissed, expired, run, push, dismiss, initial, expire,
}
use embervm.Toast.Invariant.{IsSound, run-IsSound}
use embervm.Toast.Expiry.{Request, expire_all, queue-expire_all}

abbrev plain : Kind → String → Op ℕ
plain kind title = pushed kind title none none

abbrev session : List (Op ℕ)
session =
    plain success "a"
    ∷ plain error "b"
    ∷ dismissed 1
    ∷ plain info "c"
    ∷ plain info "d"
    ∷ plain error "e"
    ∷ expired 2
    ∷ []

ids-run : map (λ t. t.id) (run initial session).queue ≡ 4 ∷ 5 ∷ []
unfolding push dismiss expire
ids-run = refl

run-IsSound_example : IsSound (run initial session)
run-IsSound_example = run-IsSound session

abbrev request : String → Request ℕ
request title = record { kind = info; title = title; detail = none; action = none }

-- Four timers are pending; the last one fires first.
queue-expire_all_example : (expire_all (3 ∷ 0 ∷ 1 ∷ 0 ∷ []) (run initial session)).queue ≡ []
unfolding push dismiss expire
queue-expire_all_example =
    queue-expire_all session (3 ∷ 0 ∷ 1 ∷ 0 ∷ [])
      (omega arith, (omega arith, (omega arith, (omega arith, tt))))
