-- ===== src/Pool/Delivery.antt =====
-- What the reader has when its loop over `hashC` is over.
use mathlib.Core.List.{Permᴰ}
use integrity_sum.Base.{
  ℕ, zero, suc, ◌≡◌, ◌≢◌, refl, sym, ap, ◌∙◌, Bool, false, List, [], ◌∷◌, ◌++◌, Option, Bytes, All,
  append-nil, ◌⊎◌, inl, inr, subst, length, arith,
}
use integrity_sum.Worker.Files.{hashes_of}
use integrity_sum.Pool.{
  Phase, returned, Pool, pool, idle_workers, started, Step, hashed, skipped, stopped, put, received,
  finished, Steps, here, step, IsReturned, IsOver, delivered,
}
use integrity_sum.Pool.Accounts.{held-IsReturned, held-idle_workers, accounted, steps_keep}

abbrev IsAtWork : Phase → Type 0
IsAtWork w = w ≢ returned

All-replace :
    (P : Phase → Type 0) (p q : Phase) (ws us : List Phase)
    → P q
    → All P (ws ++ p ∷ us)
    → All P (ws ++ q ∷ us)
All-replace P p q [] us hq (_, h) = (hq, h)
All-replace P p q (w ∷ ws) us hq (hw, h) = (hw, All-replace P p q ws us hq h)

length-replace : (p q : Phase) (ws us : List Phase) → length (ws ++ p ∷ us) ≡ length (ws ++ q ∷ us)
length-replace p q [] us = refl
length-replace p q (w ∷ ws) us = ap suc (length-replace p q ws us)

pub length-idle_workers : (n : ℕ) → length (idle_workers n) ≡ n
length-idle_workers zero = refl
length-idle_workers (suc n) = ap suc (length-idle_workers n)

idle_workers-IsAtWork : (n : ℕ) → All IsAtWork (idle_workers n)
idle_workers-IsAtWork zero = tt
idle_workers-IsAtWork (suc n) = (cc, idle_workers-IsAtWork n)

abbrev pub workers : Pool → List Phase
workers (pool vs ws r b) = ws

-- No worker returns while names are to come.
abbrev IsManned : Pool → Type 0
IsManned (pool vs ws r b) = (vs ≡ []) ⊎ All IsAtWork ws

module _ (hash_of : Bytes → Option Bytes) where
  Step-workers :
      {c : Bool} {s t : Pool} → Step hash_of c s t → length (workers s) ≡ length (workers t)
  Step-workers (hashed ws us e) = length-replace _ _ ws us
  Step-workers (skipped ws us e) = refl
  Step-workers (stopped ws us e) = length-replace _ _ ws us
  Step-workers (put x ws us room) = length-replace _ _ ws us
  Step-workers received = refl
  Step-workers (finished ws us) = length-replace _ _ ws us

  Step-IsManned : {s t : Pool} → Step hash_of false s t → IsManned s → IsManned t
  Step-IsManned (hashed ws us e) (inl none_left) = absurd (cc)
  Step-IsManned (hashed ws us e) (inr h) = inr (All-replace IsAtWork _ _ ws us (cc) h)
  Step-IsManned (skipped ws us e) (inl none_left) = absurd (cc)
  Step-IsManned (skipped ws us e) (inr h) = inr h
  Step-IsManned (stopped ws us e) h = absurd (cc)
  Step-IsManned (put x ws us room) (inl none_left) = inl none_left
  Step-IsManned (put x ws us room) (inr h) = inr (All-replace IsAtWork _ _ ws us (cc) h)
  Step-IsManned received h = h
  Step-IsManned (finished ws us) h = inl refl

  Steps-IsManned : {s t : Pool} → Steps hash_of false s t → IsManned s → IsManned t
  Steps-IsManned here h = h
  Steps-IsManned (step p q) h = Step-IsManned q (Steps-IsManned p h)

  Steps-workers :
      {c : Bool} {s t : Pool} → Steps hash_of c s t → length (workers s) ≡ length (workers t)
  Steps-workers here = refl
  Steps-workers (step p q) = Steps-workers p ∙ Step-workers q

  none_left_lem :
      (n : ℕ) (vs : List Bytes) (ws : List Phase)
      → suc n ≡ length ws
      → All IsReturned ws
      → (vs ≡ []) ⊎ All IsAtWork ws
      → vs ≡ []
  none_left_lem n vs [] e h manned = absurd (ground arith)
  none_left_lem n vs (w ∷ ws) e (gone, h) (inl none_left) = none_left
  none_left_lem n vs (w ∷ ws) e (gone, h) (inr (at_work, g)) = absurd (at_work gone)

  over :
      (n : ℕ) (files : List Bytes) (t : Pool)
      → suc n ≡ length (workers t)
      → IsManned t
      → IsOver t
      → Permᴰ (accounted hash_of t) (hashes_of hash_of files)
      → Permᴰ (delivered t) (hashes_of hash_of files)
  unfolding hashes_of
  over n files (pool vs ws r b) e manned (gone, empty) p =
      subst (λ xs. Permᴰ xs (hashes_of hash_of files))
        (rw (none_left_lem n vs ws e gone manned, empty, held-IsReturned ws gone) (append-nil r)) p

  -- With at least one worker and a live context, when the reader's loop is over it has received, in
  -- some order, one item for each file that can be hashed and none besides: whatever the order in
  -- which the workers took the names and sent, and the reader received.
  pub pool_delivers_all :
      (n : ℕ) (files : List Bytes) (t : Pool)
      → Steps hash_of false (started (suc n) files) t
      → IsOver t
      → Permᴰ (delivered t) (hashes_of hash_of files)
  pool_delivers_all n files t run is_over =
      over n files t (ap suc (sym (length-idle_workers n)) ∙ Steps-workers run)
        (Steps-IsManned run (inr (idle_workers-IsAtWork (suc n)))) is_over
        (subst (λ xs. Permᴰ (accounted hash_of t) (xs ++ hashes_of hash_of files))
          (held-idle_workers (suc n)) (steps_keep hash_of run))
