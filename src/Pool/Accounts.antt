-- ===== src/Pool/Accounts.antt =====
-- Nothing is lost and nothing is made up between the file names and the reader.
use mathlib.Core.List.{Permᴰ}
use mathlib.Core.List.Permᴰ
use integrity_sum.Base.{
  ℕ, zero, suc, ◌≡◌, refl, sym, ap, ◌∙◌, false, List, [], ◌∷◌, ◌++◌, Option, Bytes, All,
  append_assoc,
}
use integrity_sum.Worker.{FileHash}
use integrity_sum.Worker.Files.{hashes_of}
use integrity_sum.Pool.{
  Phase, idle, holding, returned, Pool, pool, idle_workers, Step, hashed, skipped, stopped, put,
  received, finished, Steps, here, step, IsReturned,
}

-- What the workers hold.
abbrev pub held : List Phase → List FileHash
held [] = []
held (idle ∷ ws) = held ws
held (holding x ∷ ws) = x ∷ held ws
held (returned ∷ ws) = held ws

held-append : (ws us : List Phase) → held (ws ++ us) ≡ held ws ++ held us
held-append [] us = refl
held-append (idle ∷ ws) us = held-append ws us
held-append (holding x ∷ ws) us = ap (λ xs. x ∷ xs) (held-append ws us)
held-append (returned ∷ ws) us = held-append ws us

pub held-IsReturned : (ws : List Phase) → All IsReturned ws → held ws ≡ []
held-IsReturned [] h = refl
held-IsReturned (idle ∷ ws) (e, h) = cc
held-IsReturned (holding x ∷ ws) (e, h) = cc
held-IsReturned (returned ∷ ws) (e, h) = held-IsReturned ws h

pub held-idle_workers : (n : ℕ) → held (idle_workers n) ≡ []
held-idle_workers zero = refl
held-idle_workers (suc n) = held-idle_workers n

module _ (hash_of : Bytes → Option Bytes) where
  -- All items, wherever they are.
  abbrev pub accounted : Pool → List FileHash
  accounted (pool vs ws r b) = r ++ (b ++ (held ws ++ hashes_of hash_of vs))

  moved_in :
      (x : FileHash) (ws us : List Phase) (rest : List FileHash)
      → Permᴰ (held (ws ++ idle ∷ us) ++ x ∷ rest) (held (ws ++ holding x ∷ us) ++ rest)
  moved_in x ws us rest =
      rw
        (
          held-append ws (idle ∷ us),
          held-append ws (holding x ∷ us),
          append_assoc (held ws) (held us) (x ∷ rest),
          append_assoc (held ws) (x ∷ held us) rest,
        )
        (Permᴰ.append_left (held ws) (Permᴰ.middle x (held us) rest))

  same_held : (ws us : List Phase) → held (ws ++ idle ∷ us) ≡ held (ws ++ returned ∷ us)
  same_held ws us = held-append ws (idle ∷ us) ∙ sym (held-append ws (returned ∷ us))

  step_keeps : {s t : Pool} → Step hash_of false s t → Permᴰ (accounted t) (accounted s)
  unfolding hashes_of
  step_keeps (hashed {v = v} {h = h} {vs = vs} ws us {r = r} {b = b} e) = rw e (
      Permᴰ.append_left r (
        Permᴰ.append_left b
          (Permᴰ.symm (moved_in (record { path = v; hash = h }) ws us (hashes_of hash_of vs)))))
  step_keeps (skipped {v = v} {vs = vs} ws us {r = r} {b = b} e) =
      rw e (Permᴰ.refl (r ++ (b ++ (held (ws ++ idle ∷ us) ++ hashes_of hash_of vs))))
  step_keeps (stopped ws us e) = absurd (cc)
  step_keeps (put x {vs = vs} ws us {r = r} {b = b} room) =
      rw (append_assoc b (x ∷ []) (held (ws ++ idle ∷ us) ++ hashes_of hash_of vs)) (
        Permᴰ.append_left r (
          Permᴰ.append_left b (
            Permᴰ.trans
              (Permᴰ.symm (Permᴰ.middle x (held (ws ++ idle ∷ us)) (hashes_of hash_of vs)))
              (moved_in x ws us (hashes_of hash_of vs)))))
  step_keeps (received {x = x} {vs = vs} {ws = ws} {r = r} {b = b}) =
      rw (append_assoc r (x ∷ []) (b ++ (held ws ++ hashes_of hash_of vs)))
        (Permᴰ.refl (r ++ (x ∷ (b ++ (held ws ++ hashes_of hash_of vs)))))
  step_keeps (finished ws us {r = r} {b = b}) =
      rw (same_held ws us) (Permᴰ.refl (r ++ (b ++ (held (ws ++ returned ∷ us) ++ []))))

  pub steps_keep : {s t : Pool} → Steps hash_of false s t → Permᴰ (accounted t) (accounted s)
  steps_keep (here {s = s}) = Permᴰ.refl (accounted s)
  steps_keep (step p q) = Permᴰ.trans (step_keeps q) (steps_keep p)
