-- ===== src/Check/Races.antt =====
-- What a check answers, and what a cancellation can make of it.
use integrity_sum.Base.{◌≡◌, refl, Bool, true, false, sym, ap}
use integrity_sum.Monitor.{CheckError, Verdict, failed, compared, stopped}
use integrity_sum.Check.{
  Answer, cancelled, passed, found_error, waiting, returned, Comparer, comparing, sending, ended,
  panicked, Check, check, begun, Step, cancel, finds, gives_up, given_up, sees_done, takes_count,
  takes_closed, takes_error, sends_late, Steps, here, step,
}

-- The answer that a verdict calls for.
abbrev pub answer_to : Verdict → Answer
answer_to (failed e) = found_error e
answer_to (compared n) = passed n
answer_to stopped = cancelled

-- The states of a check that is not cancelled.
abbrev IsUndisturbed : Verdict → Check → Type 0
IsUndisturbed v (check true m g) = ⊥
IsUndisturbed v (check false waiting comparing) = Unit
IsUndisturbed v (check false waiting sending) = Unit
IsUndisturbed v (check false waiting ended) = ⊥
IsUndisturbed v (check false waiting panicked) = ⊥
IsUndisturbed v (check false (returned a) comparing) = ⊥
IsUndisturbed v (check false (returned a) sending) = ⊥
IsUndisturbed v (check false (returned a) ended) = a ≡ answer_to v
IsUndisturbed v (check false (returned a) panicked) = ⊥

module _ (v : Verdict) where
  Step-IsUndisturbed : {s t : Check} → Step false v s t → IsUndisturbed v s → IsUndisturbed v t
  Step-IsUndisturbed (cancel c m g e) h = absurd (cc)
  Step-IsUndisturbed (finds true m) h = absurd h
  Step-IsUndisturbed (finds false waiting) h = tt
  Step-IsUndisturbed (finds false (returned a)) h = absurd h
  Step-IsUndisturbed (gives_up m) h = absurd h
  Step-IsUndisturbed (given_up true a) h = absurd h
  Step-IsUndisturbed (given_up false a) h = absurd h
  Step-IsUndisturbed (sees_done g) h = absurd h
  Step-IsUndisturbed (takes_count true n e) h = absurd h
  Step-IsUndisturbed (takes_count false n e) h = sym (ap answer_to e)
  Step-IsUndisturbed (takes_closed true) h = absurd h
  Step-IsUndisturbed (takes_closed false) h = absurd h
  Step-IsUndisturbed (takes_error true x e) h = absurd h
  Step-IsUndisturbed (takes_error false x e) h = sym (ap answer_to e)
  Step-IsUndisturbed (sends_late true a x e) h = absurd h
  Step-IsUndisturbed (sends_late false a x e) h = absurd h

  Steps-IsUndisturbed : {t : Check} → Steps false v begun t → IsUndisturbed v t
  Steps-IsUndisturbed here = tt
  Steps-IsUndisturbed (step p q) = Step-IsUndisturbed q (Steps-IsUndisturbed p)

  answered_rightly :
      (c : Bool) (a : Answer) (g : Comparer)
      → IsUndisturbed v (check c (returned a) g)
      → (a ≡ answer_to v) × (g ≡ ended)
  answered_rightly true a g h = absurd h
  answered_rightly false a comparing h = absurd h
  answered_rightly false a sending h = absurd h
  answered_rightly false a ended h = (h, refl)
  answered_rightly false a panicked h = absurd h

  pub check_answers :
      ((c : Bool) (a : Answer) (g : Comparer)
        → Steps false v begun (check c (returned a) g)
        → (a ≡ answer_to v) × (g ≡ ended))
      × Steps true v begun (check true (returned (passed 0)) ended)
      × ((e : CheckError)
          → v ≡ failed e
          → Steps true v begun (check true (returned cancelled) panicked))
  check_answers = (
    λ c a g run. answered_rightly c a g (Steps-IsUndisturbed run),
    step (step (step here (cancel false waiting comparing refl)) (gives_up waiting))
        (takes_closed true),
    λ e found.
        step
          (step (step (step here (cancel false waiting comparing refl)) (finds true waiting))
            (sees_done sending))
          (sends_late true cancelled e found),
  )
