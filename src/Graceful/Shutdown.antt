-- ===== src/Graceful/Shutdown.antt =====
-- The context and the goroutine of `Execute` (internal/utils/graceful/graceful.go), in every run.
use integrity_sum.Base.{ℕ, ◌<◌, ◌≡◌, ◌⊎◌, inl, inr, refl, Bool, true, false, arith}
use integrity_sum.Graceful.{
  Watcher, watching, ended, Called, running, returned, Execution, execution, executing, Step,
  signal, cancels, gives_up, returns, Steps, here, step,
}

-- While the goroutine waits, the context is live, and a signal is pending exactly if one came. When it
-- has ended, a signal came and the context is cancelled, or none came and the function has returned.
abbrev pub SoundAt : ℕ → Bool → Bool → Watcher → Called → Type 0
SoundAt n p c watching f = (c ≡ false) × (p ≡ true → 0 < n) × (p ≡ false → n ≡ 0)
SoundAt n p c ended f = ((0 < n) × (c ≡ true)) ⊎ ((n ≡ 0) × (c ≡ false) × (f ≡ returned))

abbrev pub IsSound : Execution → Type 0
IsSound s = SoundAt s.arrived s.pending s.cancelled s.watcher s.caller

Step-IsSound : {s t : Execution} → Step s t → IsSound s → IsSound t
Step-IsSound (signal n p c watching) (live, a, b) = (live, λ e. omega arith, λ e. ground arith)
Step-IsSound (signal n p c ended) (inl (came, done)) = inl (omega arith, done)
Step-IsSound (signal n p c ended) (inr (none_came, live, back)) = absurd (ground arith)
Step-IsSound (cancels n c f) (live, a, b) = inl (a refl, refl)
Step-IsSound (gives_up n c) (live, a, b) = inr (b refl, live, refl)
Step-IsSound (returns n p c watching) h = h
Step-IsSound (returns n p c ended) (inl h) = inl h
Step-IsSound (returns n p c ended) (inr (none_came, live, back)) = inr (none_came, live, refl)

Steps-IsSound : {s : Execution} → Steps executing s → IsSound s
Steps-IsSound here = (refl, λ e. ground arith, λ e. refl)
Steps-IsSound (step run p) = Step-IsSound p (Steps-IsSound run)

cancelled_by_signal :
    (n : ℕ) (p c : Bool) (w : Watcher) (f : Called) → SoundAt n p c w f → c ≡ true → 0 < n
cancelled_by_signal n p c watching f (live, _, _) e = absurd (ground arith)
cancelled_by_signal n p c ended f (inl (came, _)) e = came
cancelled_by_signal n p c ended f (inr (_, live, _)) e = absurd (ground arith)

signal_cancels :
    (n : ℕ) (p c : Bool) (w : Watcher) (f : Called)
    → SoundAt n p c w f
    → 0 < n
    → (c ≡ true) ⊎ ((t : Execution) × Step (execution n p c w f) t × (t.cancelled ≡ true))
signal_cancels n true c watching f h came =
    inr (execution n false true ended f, cancels n c f, refl)
signal_cancels n false c watching f (_, _, b) came = absurd (omega (arith, b refl))
signal_cancels n p c ended f (inl (_, done)) came = inl done
signal_cancels n p c ended f (inr (none_came, _, _)) came = absurd (omega arith)

no_goroutine_left :
    (n : ℕ) (p c : Bool) (w : Watcher) (f : Called)
    → f ≡ returned
    → (w ≡ ended) ⊎ ((t : Execution) × Step (execution n p c w f) t × (t.watcher ≡ ended))
no_goroutine_left n p c ended f e = inl refl
no_goroutine_left n p c watching running e = absurd (ground arith)
no_goroutine_left n true c watching returned e =
    inr (execution n false true ended returned, cancels n c returned, refl)
no_goroutine_left n false c watching returned e =
    inr (execution n false c ended returned, gives_up n c, refl)

-- At every moment of every run: the context is cancelled only if a signal came; if one came, the
-- context is cancelled or the goroutine can take the step that cancels it; and if the function has
-- returned, the goroutine has ended or can take the step that ends it.
pub shutdown :
    (s : Execution)
    → Steps executing s
    → (s.cancelled ≡ true → 0 < s.arrived)
      × (0 < s.arrived → (s.cancelled ≡ true) ⊎ ((t : Execution) × Step s t × (t.cancelled ≡ true)))
      × (s.caller ≡ returned
          → (s.watcher ≡ ended) ⊎ ((t : Execution) × Step s t × (t.watcher ≡ ended)))
shutdown s run =
    let sound = Steps-IsSound run in
    (
      cancelled_by_signal s.arrived s.pending s.cancelled s.watcher s.caller sound,
      signal_cancels s.arrived s.pending s.cancelled s.watcher s.caller sound,
      no_goroutine_left s.arrived s.pending s.cancelled s.watcher s.caller,
    )
