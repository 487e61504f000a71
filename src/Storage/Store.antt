-- ===== src/Storage/Store.antt =====
-- What the storage promises: buckets, and objects under the names of a bucket and an object.
use integrity_sum.Base.{
  ◌≡◌, ◌⊎◌, Bool, ◌&&◌, ◌||◌, List, [], ◌∷◌, Option, none, some, Bytes, same, if◌then◌else◌,
}

pub record Store : Type 0 where
  pub exists : Bytes → Bool
  pub objects : Bytes → Bytes → Option Bytes

-- The store with one object written, or taken away.
abbrev pub update : Bytes → Bytes → Option Bytes → Store → Store
update b n v s = record s {
  objects = λ b' n'. if same b b' && same n n' then v else s.objects b' n';
}

abbrev pub with_bucket : Bytes → Store → Store
with_bucket b s = record s { exists = λ b'. same b b' || s.exists b' }

pub data Call : Type 0 where
  save_call : Bytes → Bytes → Bytes → Call
  load_call remove_call : Bytes → Bytes → Call
  create_call : Bytes → Call

pub data Reply : Type 0 where
  done failed : Reply
  content : Bytes → Reply

-- The whole effect of a call.
abbrev pub applied : Call → Store → Store
applied (save_call b n d) s = update b n (some d) s
applied (load_call b n) s = s
applied (remove_call b n) s = update b n none s
applied (create_call b) s = with_bucket b s

abbrev Holds : Store → Call → Bytes → Type 0
Holds s (save_call b n d) c = ⊥
Holds s (load_call b n) c = s.objects b n ≡ some c
Holds s (remove_call b n) c = ⊥
Holds s (create_call b) c = ⊥

-- A call that is done has its whole effect; one that failed, the whole or none; and what is loaded is
-- what the store holds.
abbrev pub Serves : Store → Call → Reply → Store → Type 0
Serves s c done t = t ≡ applied c s
Serves s c failed t = (t ≡ s) ⊎ (t ≡ applied c s)
Serves s c (content d) t = (t ≡ s) × Holds s c d

-- What a call that has its effect sets an object to; `none` if it leaves the object alone.
abbrev pub effect : Bytes → Bytes → Call → Option (Option Bytes)
effect b n (save_call b' n' d) = if same b' b && same n' n then some (some d) else none
effect b n (load_call b' n') = none
effect b n (remove_call b' n') = if same b' b && same n' n then some none else none
effect b n (create_call b') = none

-- What an object may hold behind a call, if it may hold `vs` before.
abbrev pub after : Option (Option Bytes) → Reply → List (Option Bytes) → List (Option Bytes)
after none r vs = vs
after (some v) done vs = v ∷ []
after (some v) failed vs = v ∷ vs
after (some v) (content d) vs = vs

abbrev pub Among : Option Bytes → List (Option Bytes) → Type 0
Among v [] = ⊥
Among v (x ∷ vs) = (v ≡ x) ⊎ Among v vs

-- What an object may hold behind all calls.
abbrev pub may_hold :
    Bytes → Bytes → List (Option Bytes) → List Call → List Reply → List (Option Bytes)
may_hold b n vs [] rs = vs
may_hold b n vs (c ∷ cs) [] = vs
may_hold b n vs (c ∷ cs) (r ∷ rs) = may_hold b n (after (effect b n c) r vs) cs rs

abbrev pub LoadsAmong : Bytes → Bytes → List (Option Bytes) → Call → Reply → Type 0
LoadsAmong b n vs c done = Unit
LoadsAmong b n vs c failed = Unit
LoadsAmong b n vs c (content d) = c ≡ load_call b n → Among (some d) vs

-- Every load of an object gives what it may hold at that time.
abbrev pub Answered : Bytes → Bytes → List (Option Bytes) → List Call → List Reply → Type 0
Answered b n vs [] rs = Unit
Answered b n vs (c ∷ cs) [] = ⊥
Answered b n vs (c ∷ cs) (r ∷ rs) =
    LoadsAmong b n vs c r × Answered b n (after (effect b n c) r vs) cs rs

-- The creation of a bucket was called for, and it was called for and done.
abbrev pub IsAsked : Bytes → List Call → Type 0
IsAsked b [] = ⊥
IsAsked b (c ∷ cs) = (c ≡ create_call b) ⊎ IsAsked b cs

abbrev pub IsCreated : Bytes → List Call → List Reply → Type 0
IsCreated b [] rs = ⊥
IsCreated b (c ∷ cs) [] = ⊥
IsCreated b (c ∷ cs) (r ∷ rs) = ((c ≡ create_call b) × (r ≡ done)) ⊎ IsCreated b cs rs
