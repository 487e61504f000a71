-- ===== src/Program/Loop.antt =====
-- `runCheckIntegrity` of cmd/k8s-integrity-sum/main.go: how far the loop comes.
use integrity_sum.Base.{
  ◌≡◌, ◌≢◌, ◌⊎◌, inl, inr, refl, sym, subst, ap, ◌∙◌, Bool, true, false, List, [], ◌∷◌, ◌++◌, Bytes,
  arith, Bool-cases, append_assoc, append-nil,
}
use integrity_sum.Program.{
  Visit, LoopEnd, context_error, waiting, run_tick, run_check_integrity, after_tick,
}

-- All visits of the ticks, in order.
unfoldable pub all_visits : List (List Visit) → List Visit
all_visits [] = []
all_visits (tick ∷ ticks) = tick ++ all_visits ticks

after_waiting :
    {W : Type 0} (r : LoopEnd × W) (next : W → LoopEnd × W)
    → r.0 ≡ waiting
    → after_tick r next ≡ next r.1
after_waiting (waiting, w) next e = refl
after_waiting (context_error, w) next e = absurd (ground arith)

after_error :
    {W : Type 0} (r : LoopEnd × W) (next : W → LoopEnd × W)
    → r.0 ≡ context_error
    → after_tick r next ≡ (context_error, r.1)
after_error (waiting, w) next e = absurd (ground arith)
after_error (context_error, w) next e = refl

append-ne-nil : (xs ys : List Visit) → xs ≢ [] → xs ++ ys ≢ []
append-ne-nil [] ys more e = more refl
append-ne-nil (x ∷ xs) ys more e = ground arith

module _ {W : Type 0} (ctx_done : W → Bool) (check : Bytes → List Bytes → W → W) where
  -- The world after the checks of these visits, one after the other.
  unfoldable pub checks : List Visit → W → W
  checks [] w = w
  checks ((proc, paths) ∷ visits) w = checks visits (check proc paths w)

  -- The context is live when each of the checks starts.
  unfoldable pub IsLive : List Visit → W → Type 0
  IsLive [] w = Unit
  IsLive ((proc, paths) ∷ visits) w = (ctx_done w ≡ false) × IsLive visits (check proc paths w)

  -- How far the loop comes on these visits, from a world.
  pub record Run (visits : List Visit) (w : W) (end : LoopEnd) (w' : W) : Type 0 where
    pub checked : List Visit
    pub rest : List Visit
    pub split : visits ≡ checked ++ rest
    pub world : w' ≡ checks checked w
    pub live : IsLive checked w
    pub ended :
        ((end ≡ waiting) × (rest ≡ []))
        ⊎ ((end ≡ context_error) × (rest ≢ []) × (ctx_done w' ≡ true))

  tick-Run :
      (visits : List Visit) (w : W)
      → Run visits w (run_tick ctx_done check visits w).0 (run_tick ctx_done check visits w).1
  unfolding run_tick checks IsLive
  tick-Run [] w = record {
    checked = [];
    rest = [];
    split = refl;
    world = refl;
    live = tt;
    ended = inl (refl, refl);
  }
  tick-Run ((proc, paths) ∷ visits) w = elim (Bool-cases (ctx_done w)) [
    | inl done ↦ rw done (record {
      checked = [];
      rest = (proc, paths) ∷ visits;
      split = refl;
      world = refl;
      live = tt;
      ended = inr (refl, λ e. cc, done);
    })
    | inr live ↦ rw live (
        let r = tick-Run visits (check proc paths w) in
        record {
          checked = (proc, paths) ∷ r.checked;
          rest = r.rest;
          split = ap (λ l. (proc, paths) ∷ l) r.split;
          world = r.world;
          live = (live, r.live);
          ended = r.ended;
        })
  ]

  checks-append : (xs ys : List Visit) (w : W) → checks (xs ++ ys) w ≡ checks ys (checks xs w)
  unfolding checks
  checks-append [] ys w = refl
  checks-append ((proc, paths) ∷ xs) ys w = checks-append xs ys (check proc paths w)

  IsLive-append :
      (xs ys : List Visit) (w : W) → IsLive xs w → IsLive ys (checks xs w) → IsLive (xs ++ ys) w
  unfolding checks IsLive
  IsLive-append [] ys w _ h = h
  IsLive-append ((proc, paths) ∷ xs) ys w (live, hs) h =
      (live, IsLive-append xs ys (check proc paths w) hs h)

  -- A tick that was finished, and a run from there.
  joined :
      (tick : List Visit) (visits : List Visit) (w : W) (e e' : LoopEnd) (w' w'' : W)
      → (r : Run tick w e' w') → r.rest ≡ []
      → Run visits w' e w''
      → Run (tick ++ visits) w e w''
  joined tick visits w e e' w' w'' r all s = record {
    checked = tick ++ s.checked;
    rest = s.rest;
    split = ap (λ l. tick ++ l) s.split ∙ sym (append_assoc tick s.checked s.rest);
    world = s.world ∙ (ap (checks s.checked) world ∙ sym (checks-append tick s.checked w));
    live =
        IsLive-append tick s.checked w (subst (λ l. IsLive l w) (sym whole) r.live)
          (subst (IsLive s.checked) world s.live);
    ended = s.ended;
  }
    where
      whole : tick ≡ r.checked
      whole = r.split ∙ (ap (λ l. r.checked ++ l) all ∙ append-nil r.checked)

      world : w' ≡ checks tick w
      world = r.world ∙ ap (λ l. checks l w) (sym whole)

  -- A tick that the context cut short.
  cut_short :
      (tick visits : List Visit) (w w' : W) (e' : LoopEnd)
      → (r : Run tick w e' w') → r.rest ≢ []
      → ctx_done w' ≡ true
      → Run (tick ++ visits) w context_error w'
  cut_short tick visits w w' e' r more done = record {
    checked = r.checked;
    rest = r.rest ++ visits;
    split = ap (λ l. l ++ visits) r.split ∙ append_assoc r.checked r.rest visits;
    world = r.world;
    live = r.live;
    ended = inr (refl, append-ne-nil r.rest visits more, done);
  }

  -- The loop checks all processes of all ticks in turn, each with the context live, and whatever
  -- earlier checks found; it returns only where the context is done when a check would start, and then
  -- no further check is made.
  pub run_check_integrity-Run :
      (ticks : List (List Visit)) (w : W)
      → Run
          (all_visits ticks)
          w
          (run_check_integrity ctx_done check ticks w).0
          (run_check_integrity ctx_done check ticks w).1
  unfolding run_check_integrity all_visits checks IsLive
  run_check_integrity-Run [] w = record {
    checked = [];
    rest = [];
    split = refl;
    world = refl;
    live = tt;
    ended = inl (refl, refl);
  }
  run_check_integrity-Run (tick ∷ ticks) w =
      let r = tick-Run tick w in
      elim r.ended [
        | inl (e, all) ↦
            rw
              (after_waiting (run_tick ctx_done check tick w)
                (λ w'. run_check_integrity ctx_done check ticks w') e)
              (joined tick (all_visits ticks) w _ _ (run_tick ctx_done check tick w).1 _ r all
                (run_check_integrity-Run ticks (run_tick ctx_done check tick w).1))
        | inr (e, more, done) ↦
            rw
              (after_error (run_tick ctx_done check tick w)
                (λ w'. run_check_integrity ctx_done check ticks w') e)
              (cut_short tick (all_visits ticks) w (run_tick ctx_done check tick w).1 _ r more done)
      ]
