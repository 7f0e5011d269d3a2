-- ===== src/Startup/Phases.antt =====
-- The order in which the modules are initialised, and what is logged in between.
use karg.Base.{
  ◌≡◌, refl, inl, inr, sym, subst, true, false, ℕ, List, [], ◌∷◌, ◌++◌, map, ℤ, is_neg, Bool-cases,
  Option, none, some,
}
use karg.Log.{str, log_as, klogf, kvprintf, conversion, finish}
use karg.Startup.{
  Module, Logging, Phase, panicked, finished, log_info, init_phase, init_modules, and_phase,
  enter_phase, pre, post, entering, initialized,
}

module _ {ℓ} (S : Type ℓ) where
  -- What is done, in order: a phase is announced, or an initialiser is called.
  pub data Item : Type ℓ where
    enters : (which : List ℕ) → Item
    calls : Module S → Item

  -- How a sequence of these may end, from a state and its log. Each is done with what the one before it
  -- left; an initialiser that succeeds is logged, and after one that fails nothing else is done.
  pub data Runs : List Item → Logging S → Phase S → Type ℓ where
    all_done : {s : Logging S} → Runs [] s (finished s)
    announces :
        {which : List ℕ} {is : List Item} {s s' : Logging S} {p : Phase S}
        → log_info S (entering which) [] s ≡ some s'
        → Runs is s' p
        → Runs (enters which ∷ is) s p
    fails :
        {m : Module S} {is : List Item} {s s' : Logging S} {res : ℤ}
        → m.init s ≡ (res, s')
        → is_neg res ≡ true
        → Runs (calls m ∷ is) s (panicked m.name res s')
    goes_on :
        {m : Module S} {is : List Item} {s s' s'' : Logging S} {res : ℤ} {p : Phase S}
        → m.init s ≡ (res, s')
        → is_neg res ≡ false
        → log_info S initialized (str m.name ∷ []) s' ≡ some s''
        → Runs is s'' p
        → Runs (calls m ∷ is) s p

  -- The three tables, each behind the line that announces it.
  abbrev pub script : (pre_init init post_init : List (Module S)) → List Item
  script pre_init init post_init =
      (enters pre ∷ map calls pre_init)
      ++ ((enters [] ∷ map calls init) ++ ((enters post ∷ map calls post_init) ++ []))

  abbrev Ends : List Item → Logging S → Option (Phase S) → Type ℓ
  Ends is s o = (p : Phase S) × (o ≡ some p) × Runs is s p

  -- The lines have no argument but the names of modules, so the formatter is defined on them.
  logs_initialized :
      (name : List ℕ) (s : Logging S)
      → (s' : Logging S) × (log_info S initialized (str name ∷ []) s ≡ some s')
  unfolding log_info log_as klogf kvprintf conversion finish
  logs_initialized name s = (_, refl)

  logs_pre : (s : Logging S) → (s' : Logging S) × (log_info S (entering pre) [] s ≡ some s')
  unfolding log_info log_as klogf kvprintf conversion finish
  logs_pre s = (_, refl)

  logs_plain : (s : Logging S) → (s' : Logging S) × (log_info S (entering []) [] s ≡ some s')
  unfolding log_info log_as klogf kvprintf conversion finish
  logs_plain s = (_, refl)

  logs_post : (s : Logging S) → (s' : Logging S) × (log_info S (entering post) [] s ≡ some s')
  unfolding log_info log_as klogf kvprintf conversion finish
  logs_post s = (_, refl)

  -- A phase, and what follows it.
  init_phase-Runs :
      (ms : List (Module S)) (rest : List Item) (k : Logging S → Option (Phase S)) (s : Logging S)
      → ((s' : Logging S) → Ends rest s' (k s'))
      → Ends (map calls ms ++ rest) s (and_phase S (init_phase S ms s) k)
  unfolding init_phase
  init_phase-Runs [] rest k s then = then s
  init_phase-Runs (m ∷ ms) rest k s then =
      let (s₁, log) = logs_initialized m.name (m.init s).1 in
      let (p, is, runs) = init_phase-Runs ms rest k s₁ then in
      elim (Bool-cases (is_neg (m.init s).0)) [
        | inl q ↦ rw q (_, refl, fails refl q)
        | inr q ↦ rw q (rw log (p, is, goes_on refl q log runs))
      ]

  enter-Runs :
      (which : List ℕ) (ms : List (Module S)) (rest : List Item) (k : Logging S → Option (Phase S))
      (s s' : Logging S)
      → log_info S (entering which) [] s ≡ some s'
      → ((s' : Logging S) → Ends rest s' (k s'))
      → Ends ((enters which ∷ map calls ms) ++ rest) s (and_phase S (enter_phase S which ms s) k)
  unfolding enter_phase
  enter-Runs which ms rest k s s' log then =
      let (p, is, runs) = init_phase-Runs ms rest k s' then in rw log (p, is, announces log runs)

  and_phase_assoc :
      (o : Option (Phase S)) (f g : Logging S → Option (Phase S))
      → and_phase S (and_phase S o f) g ≡ and_phase S o (λ s. and_phase S (f s) g)
  and_phase_assoc none f g = refl
  and_phase_assoc (some (panicked name res s)) f g = refl
  and_phase_assoc (some (finished s)) f g = refl

  and_phase-finished : (o : Option (Phase S)) → and_phase S o (λ s. some (finished s)) ≡ o
  and_phase-finished none = refl
  and_phase-finished (some (panicked name res s)) = refl
  and_phase-finished (some (finished s)) = refl

  last_phase :
      (ms : List (Module S)) (s : Logging S)
      → Ends ((enters post ∷ map calls ms) ++ []) s (enter_phase S post ms s)
  last_phase ms s =
      let (s', log) = logs_post s in
      subst (Ends ((enters post ∷ map calls ms) ++ []) s)
        (and_phase-finished (enter_phase S post ms s))
        (enter-Runs post ms [] (λ x. some (finished x)) s s' log (λ x. (_, refl, all_done)))

  -- `init_modules` calls the initialisers of the three tables one after the other, all those of the first
  -- table before the second and the second before the third. Each table is announced in the log
  -- before its first initialiser, and each initialiser that succeeds is logged before the next is
  -- called, so that it finds the state and the log that these have left; after one that fails, in whatever table,
  -- no other is called and the result names it.
  pub init_modules-Runs :
      (pre_init init post_init : List (Module S)) (s : Logging S)
      → (p : Phase S) × (init_modules S pre_init init post_init s ≡ some p)
        × Runs (script pre_init init post_init) s p
  unfolding init_modules
  init_modules-Runs pre_init init post_init s =
      let (s', log) = logs_pre s in
      subst (Ends (script pre_init init post_init) s)
        (sym (
          and_phase_assoc (enter_phase S pre pre_init s) (enter_phase S [] init)
            (enter_phase S post post_init)))
        (enter-Runs pre pre_init
          ((enters [] ∷ map calls init) ++ ((enters post ∷ map calls post_init) ++ []))
          (λ x. and_phase S (enter_phase S [] init x) (enter_phase S post post_init)) s s' log
          (λ x.
            let (x', log') = logs_plain x in
            enter-Runs [] init ((enters post ∷ map calls post_init) ++ [])
              (enter_phase S post post_init) x x' log' (last_phase post_init)))
