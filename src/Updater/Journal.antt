-- ===== src/Updater/Journal.antt =====
-- What the switch and the restoration of scripts/tg_update.py leave in the journal and in the images.
pub mod Ends
pub mod Recovery
pub mod Switched
pub mod Run
pub mod Refusal
use transparent_gateway.Prelude.{
  ℕ, ◌≡◌, refl, Bool, true, false, Option, none, some, List, [], ◌∷◌, Text, str, ◌⊎◌, inl, inr, ap,
  ◌∙◌, text_beq,
}
use transparent_gateway.Prelude.Int.{ℤ}
use transparent_gateway.Tool.Settings.{Parsers}
use transparent_gateway.Tool.Systemd.{run_all, write_systemd_unit, replace_unit, prepare_service}
use transparent_gateway.Python.{Result, ok, Value, obj, Fields, subscript}
use transparent_gateway.Host.{
  Machine, Event, World, Failure, Task, transaction_json, images_json, ◌>>=◌, execute_visible,
  change, record_event, saved,
}
use transparent_gateway.Host.Ensures.{Cond, Raised, Ensures, Keeps, Ensures-bind, Ensures-weaken}
use transparent_gateway.Host.Ensures.Kept.{
  IsKeptBy, Keeps-bind, Keeps-pure, Keeps-lift, Keeps-look, Keeps-look_at, Keeps-fail_if,
  Keeps-execute, Ensures-keep, Keeps-run_command, Keeps-change,
}
use transparent_gateway.Host.Ensures.Saved.{
  is_returned, Ensures-lift, Ensures-known, Ensures-save, Ensures-finally,
}
use transparent_gateway.Updater.Commands.{git, service, run_compose, run_compose_shown, pinned_now}
use transparent_gateway.Updater.Quiet.{
  switches, Keeps-run_compose, Keeps-health, Keeps-docker, Keeps-runtime_fingerprint,
}
use transparent_gateway.Updater.Quiet.Installation.{Keeps-current_installation}
use transparent_gateway.Updater.Switch.{
  Args, Plan, journal_of, with_phase, restart, restore, restore_rest, switch, switch_rest,
  up_arguments,
}

-- What the transaction file holds.
abbrev pub Has : Option Value → Cond
Has t w = w.transaction ≡ t

-- What both files hold.
abbrev pub HasBoth : Option Value → Value → Cond
HasBoth t images w = (w.transaction ≡ t) × (w.images ≡ some images)

-- A restoration that has come to its end: the journal says so, and the images are the previous ones.
abbrev pub RolledBack : Fields → Cond
RolledBack journal w =
    (images : Value) × (subscript (obj journal) (str "previous_images") ≡ ok images)
    × (w.transaction ≡ some (with_phase (str "rolled_back") journal))
    × (w.images ≡ some images)

-- An update that has come to its end.
abbrev pub Completed : Plan → Value → Cond
Completed p pins w =
    (w.transaction ≡ some (with_phase (str "complete") (journal_of p))) × (w.images ≡ some pins)

-- The saving of a value as the journal is in the trace, cut short: it replaced the file and did not
-- return.
abbrev pub IsCut : Machine → Value → List Event → Type 0
IsCut M v [] = ⊥
IsCut M v (e ∷ es) =
    ((e ≡ saved transaction_json v)
      × (M.replaced (e ∷ es) ≡ true)
      × (is_returned (M.reply (e ∷ es)) ≡ false))
    ⊎ IsCut M v es

-- Conditions on the two files, which no event changes.
module _ {P : Cond} (kept : IsKeptBy P (λ _. false)) (M : Machine) (root : Text) where
  quiet : IsKeptBy P switches
  quiet e w other p = kept e w refl p

  Keeps-git_any : (arguments : List Text) → Keeps P (git M root arguments)
  unfolding git
  Keeps-git_any arguments =
      Keeps-bind (Keeps-execute kept M false _ root refl) (λ output. Keeps-pure _)

  Keeps-service : (action : Text) → Keeps P (service M root action)
  unfolding service
  Keeps-service action = Keeps-execute kept M false _ root refl

  Keeps-shown : (arguments : List Text) → Keeps P (run_compose_shown M root arguments)
  unfolding run_compose_shown pinned_now
  Keeps-shown arguments =
      Keeps-bind (Keeps-look_at _) (λ pinned. Keeps-execute kept M true _ root refl)

  Keeps-compose_any : (arguments : List Text) → Keeps P (run_compose M root arguments)
  unfolding run_compose pinned_now
  Keeps-compose_any arguments =
      Keeps-bind (Keeps-look_at _) (λ pinned. Keeps-execute kept M false _ root refl)

  Keeps-restart : (words : Text → List Text) (timeout : ℤ) → Keeps P (restart M root words timeout)
  unfolding restart
  Keeps-restart words timeout = Keeps-bind (Keeps-look _) λ since.
      Keeps-bind (Keeps-shown up_arguments) λ _.
        Keeps-bind (Keeps-service (str "start"))
          λ _. Keeps-bind (Keeps-health quiet M root timeout (some since)) λ _. Keeps-pure _

  Keeps-run_all : (commands : List (List Text)) → Keeps P (run_all M root commands)
  unfolding run_all
  Keeps-run_all [] = Keeps-pure _
  Keeps-run_all (command ∷ commands) =
      Keeps-bind (Keeps-run_command kept M command root refl)
        λ result. Keeps-bind (Keeps-fail_if _ _) λ _. Keeps-run_all commands

  Keeps-changed_any : (what path : Text) → Keeps P (change M what path)
  Keeps-changed_any what path = Keeps-change kept M what path refl

  Keeps-write_unit : (content : Text) → Keeps P (write_systemd_unit M content)
  unfolding write_systemd_unit replace_unit
  Keeps-write_unit content =
      Ensures-finally _ _
        (Keeps-bind (Keeps-changed_any _ _) λ _.
          Keeps-bind (Keeps-changed_any _ _)
            λ _. Keeps-bind (Keeps-changed_any _ _) λ _. Keeps-changed_any _ _)
        (λ a. Keeps-changed_any _ _) (λ e. Keeps-changed_any _ _)

  Keeps-prepare_service : (timeout : ℤ) → Keeps P (prepare_service M root timeout)
  unfolding prepare_service
  Keeps-prepare_service timeout =
      Keeps-bind (Keeps-fail_if _ _) λ _. Keeps-bind (Keeps-write_unit _) λ _. Keeps-run_all _

-- A condition on what was done that nothing done later takes back.
abbrev pub Grows : (List Event → Type 0) → Type 0
Grows F = (e : Event) (es : List Event) → F es → F (e ∷ es)

Has-kept :
    (t : Option Value) (F : List Event → Type 0)
    → Grows F
    → IsKeptBy (λ w. Has t w × F w.trace) (λ _. false)
Has-kept t F grow e w _ p = (p.0, grow e w.trace p.1)

HasBoth-kept :
    (t : Option Value) (v : Value) (F : List Event → Type 0)
    → Grows F
    → IsKeptBy (λ w. HasBoth t v w × F w.trace) (λ _. false)
HasBoth-kept t v F grow e w _ p = (p.0, grow e w.trace p.1)

module _ (M : Machine) (root : Text) (words : Text → List Text) (t : Option Value)
    (F : List Event → Type 0) (grow : Grows F) where
  module _ (timeout : ℤ) (journal : Fields) where
    abbrev pub Restoring : Raised
    Restoring o w = (Has t w ⊎ RolledBack journal w) × F w.trace

    -- From the saving of the images to the end of `restore`.
    restore_end :
        (images : Value)
        → subscript (obj journal) (str "previous_images") ≡ ok images
        → Ensures
            (λ w. HasBoth t images w × F w.trace)
            (restore_rest M root words timeout journal)
            (λ _. RolledBack journal)
            Restoring
    unfolding restore_rest
    restore_end images known =
        let kept = HasBoth-kept t images F grow in
        let weak : (o : Option Failure) (w : World)
            → HasBoth t images w × F w.trace
            → Restoring o w =
          λ o w h. (inl h.0.0, h.1) in
        Ensures-keep weak (Keeps-restart kept M root words timeout) λ _.
          Ensures-keep weak (Keeps-current_installation (quiet kept M root) M root words) λ found.
            Ensures-keep weak (Keeps-lift _) λ volumes. Ensures-keep weak (Keeps-fail_if _ _) λ _.
              Ensures-save M transaction_json _ (λ w h. (images, known, refl, h.0.1))
                (λ w h o. (inl h.0.0, grow _ _ h.1))
                (λ w h cut broken o. (inr (images, known, refl, h.0.1), grow _ _ h.1))

    pub restore-Ensures :
        Ensures
          (λ w. Has t w × F w.trace)
          (restore M root words timeout journal)
          (λ _. RolledBack journal)
          Restoring
    unfolding restore
    restore-Ensures =
        let kept = Has-kept t F grow in
        let weak : (o : Option Failure) (w : World) → Has t w × F w.trace → Restoring o w =
          λ o w h. (inl h.0, h.1) in
        Ensures-keep weak (Keeps-compose_any kept M root _) λ _.
          Ensures-keep weak (Keeps-service kept M root (str "stop")) λ _.
            Ensures-keep weak (Keeps-lift _) λ previous.
              Ensures-keep weak (Keeps-git_any kept M root _) λ _.
                Ensures-bind (Ensures-weaken (Ensures-lift _) (λ a w h. h) weak) λ images.
                  Ensures-known λ known.
                    Ensures-bind
                      (Ensures-save {P = λ w. Has t w × F w.trace}
                        {Q = λ _ w. HasBoth t images w × F w.trace} M images_json images
                        (λ w h. ((h.0, refl), grow _ _ h.1)) (λ w h o. (inl h.0, grow _ _ h.1))
                        (λ w h cut broken o. (inl h.0, grow _ _ h.1)))
                      λ _. restore_end images known

module _ (M : Machine) (root : Text) (words : Text → List Text) (parsers : Parsers) (args : Args)
    (p : Plan) (pins : Value) where
  abbrev pub switching : Option Value
  switching = some (obj (journal_of p))

  abbrev pub completed_journal : Value
  completed_journal = with_phase (str "complete") (journal_of p)

  abbrev pub Switching : Raised
  Switching o w = Has switching w ⊎ (Completed p pins w × IsCut M completed_journal w.trace)

  any_trace : Grows (λ _. Unit {0})
  any_trace e es h = h

  -- From the saving of the images to the end of `switch`.
  switch_end :
      Ensures
        (λ w. HasBoth switching pins w × Unit {0})
        (switch_rest M root words parsers args p)
        (λ _. Completed p pins)
        Switching
  unfolding switch_rest
  switch_end =
      let kept = HasBoth-kept switching pins (λ _. Unit {0}) any_trace in
      let weak : (o : Option Failure) (w : World)
          → HasBoth switching pins w × Unit {0}
          → Switching o w =
        λ o w h. inl h.0.0 in
      Ensures-keep weak (Keeps-restart kept M root words args.timeout) λ _.
        Ensures-keep weak (Keeps-current_installation (quiet kept M root) M root words) λ after.
          Ensures-keep weak (Keeps-fail_if _ _) λ _.
            Ensures-keep weak (Keeps-runtime_fingerprint (quiet kept M root) M root _) λ now.
              Ensures-keep weak (Keeps-fail_if _ _) λ _.
                Ensures-save M transaction_json _ (λ w h. (refl, h.0.1)) (λ w h o. inl h.0.0)
                  (λ w h cut broken o. inr ((refl, h.0.1), inl (refl, cut, broken)))

  pub switch-Ensures :
      Ensures
        (λ w. Has switching w × Unit {0})
        (switch M root words parsers args p pins)
        (λ _. Completed p pins)
        Switching
  unfolding switch
  switch-Ensures =
      let kept = Has-kept switching (λ _. Unit {0}) any_trace in
      let weak : (o : Option Failure) (w : World) → Has switching w × Unit {0} → Switching o w =
        λ o w h. inl h.0 in
      Ensures-keep weak (Keeps-prepare_service kept M root args.timeout) λ _.
        Ensures-keep weak (Keeps-service kept M root (str "stop")) λ _.
          Ensures-keep weak (Keeps-git_any kept M root _) λ _.
            Ensures-bind
              (Ensures-save {Q = λ _ w. HasBoth switching pins w × Unit {0}} M images_json pins
                (λ w h. ((h.0, refl), tt)) (λ w h o. inl h.0) (λ w h cut broken o. inl h.0))
              λ _. switch_end
