-- ===== src/Alerts/Delivery.antt =====
-- Every registered sender gets the alert, whatever the others return.
use integrity_sum.Base.{
  ◌≡◌, refl, ap, sym, ◌∙◌, List, [], ◌∷◌, ◌++◌, Option, none, some, append_assoc, append-nil,
}
use integrity_sum.Alerts.{Alert, Sender, register, collect, send_all, as_error, send}

module _ {E : Type 0} where
  collect-append :
      (o : Option E) (errs more : List E) → collect o errs ++ more ≡ errs ++ (collect o [] ++ more)
  collect-append none errs more = refl
  collect-append (some e) errs more = append_assoc errs (e ∷ []) more

module _ {W E : Type 0} where
  -- The world after all senders have been called in turn, and the errors on the way.
  pub after : List (Sender W E) → Alert → W → W
  after [] alert w = w
  after (s ∷ ss) alert w = after ss alert (s alert w).1

  pub failures : List (Sender W E) → Alert → W → List E
  failures [] alert w = []
  failures (s ∷ ss) alert w = collect (s alert w).0 [] ++ failures ss alert (s alert w).1

  send_all_eq :
      (ss : List (Sender W E)) (alert : Alert) (errs : List E) (w : W)
      → send_all ss alert errs w ≡ (errs ++ failures ss alert w, after ss alert w)
  unfolding send_all failures after
  send_all_eq [] alert errs w = rw append-nil
  send_all_eq (s ∷ ss) alert errs w =
      send_all_eq ss alert (collect (s alert w).0 errs) (s alert w).1
      ∙ ap (λ l. (l, after ss alert (s alert w).1))
          (collect-append (s alert w).0 errs (failures ss alert (s alert w).1))

  -- All senders are called, in the order of their registration, each on what the one before it left;
  -- the result has the errors of those that failed, in that order, and is none if none failed.
  pub send_reaches_all :
      (registry : List (Sender W E)) (alert : Alert) (w : W)
      → send registry alert w ≡ (as_error (failures registry alert w), after registry alert w)
  unfolding send
  send_reaches_all registry alert w =
      ap (λ (r : List E × W). (as_error r.0, r.1)) (send_all_eq registry alert [] w)

  after-register :
      (registry : List (Sender W E)) (s : Sender W E) (alert : Alert) (w : W)
      → after (register s registry) alert w ≡ (s alert (after registry alert w)).1
  unfolding register after
  after-register [] s alert w = refl
  after-register (t ∷ ts) s alert w = after-register ts s alert (t alert w).1

  -- A sender that is registered later is called after the others, also when they failed.
  pub send-register :
      (registry : List (Sender W E)) (s : Sender W E) (alert : Alert) (w : W)
      → (send (register s registry) alert w).1 ≡ (s alert (send registry alert w).1).1
  send-register registry s alert w =
      ap (λ (r : Option (List E) × W). r.1) (send_reaches_all (register s registry) alert w)
      ∙ (after-register registry s alert w
          ∙ ap (λ (r : Option (List E) × W). (s alert r.1).1)
              (sym (send_reaches_all registry alert w)))
