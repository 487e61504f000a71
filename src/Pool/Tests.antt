-- ===== src/Pool/Tests.antt =====
-- Two workers, and one without a reader, on three files, one of which cannot be read.
use mathlib.Core.List.{Permᴰ}
use integrity_sum.Base.{
  ◌≡◌, Bool, ◌*◌, ◌+◌, ◌≤◌, ◌<◌, refl, false, List, [], ◌∷◌, Option, none, some, Bytes, codes,
  length, arith, same, if◌then◌else◌,
}
use integrity_sum.Worker.{FileHash}
use integrity_sum.Pool.{
  idle, holding, returned, Pool, pool, started, hashed, skipped, put, received, finished, Steps,
  delivered, here, step, IsOver,
}
use integrity_sum.Worker.Files.{hashes_of}
use integrity_sum.Pool.Delivery.{pool_delivers_all}
use integrity_sum.Pool.Leak.{Unread, abandoned_pool_blocks}
use integrity_sum.Pool.Progress.{pool_ends, count}

abbrev three_files : List Bytes
three_files = codes "a" ∷ codes "b" ∷ codes "c" ∷ []

-- The file `b` cannot be read.
abbrev hash : Bytes → Option Bytes
hash v = if same v (codes "b") then none else some v

abbrev item : Bytes → FileHash
item v = record { path = v; hash = v }

-- The second worker overtakes the first.
run :
    Steps hash false
      (started 2 three_files)
      (pool [] (returned ∷ returned ∷ []) (item (codes "c") ∷ item (codes "a") ∷ []) [])
unfolding same
run =
    step
      (step
        (step
          (step
            (step
              (step
                (step
                  (step (step here (hashed {v = codes "a"} {h = codes "a"} [] (idle ∷ []) refl))
                    (skipped {v = codes "b"} (holding (item (codes "a")) ∷ []) [] refl))
                  (hashed {v = codes "c"} {h = codes "c"} (holding (item (codes "a")) ∷ []) []
                    refl))
                (put (item (codes "c")) (holding (item (codes "a")) ∷ []) [] (omega arith)))
              (put (item (codes "a")) [] (idle ∷ []) (omega arith)))
            (finished [] (idle ∷ [])))
          received)
        (finished (returned ∷ []) []))
      received

pool_delivers_all_example :
    Permᴰ (item (codes "c") ∷ item (codes "a") ∷ []) (hashes_of hash three_files)
pool_delivers_all_example = pool_delivers_all hash 1 three_files _ run ((refl, (refl, tt)), refl)

pool_ends_example :
    (count hash false run ≤ 4 * length three_files + 2)
    × ((t : Pool) × Steps hash false
          (pool [] (returned ∷ returned ∷ []) (item (codes "c") ∷ item (codes "a") ∷ []) [])
          t
        × IsOver t)
pool_ends_example = pool_ends hash false 2 three_files _ run

-- One worker and three files, the first of which cannot be read.
abbrev behind_unreadable : List Bytes
behind_unreadable = codes "b" ∷ codes "a" ∷ codes "c" ∷ []

two_hashable : 1 < length (hashes_of hash behind_unreadable)
unfolding hashes_of same
two_hashable = omega arith

abandoned_pool_blocks_example :
    (s : Pool) × Steps hash false (started 1 behind_unreadable) s
    × (delivered s ≡ [])
    × ((ctx_done : Bool) (t : Pool) → Unread hash ctx_done s t → ¬ IsOver t)
abandoned_pool_blocks_example = abandoned_pool_blocks hash 0 behind_unreadable two_hashable
