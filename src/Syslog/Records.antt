-- ===== src/Syslog/Records.antt =====
-- A syslog record is one that ends in a line end, and its event type is the kind of integrity error.
use integrity_sum.Base.{
  ◌≡◌, ◌⊎◌, inl, inr, refl, ap, sym, ◌∙◌, true, ◌&&◌, [], ◌∷◌, ◌++◌, Bytes, append-nil, arith, leb,
  if◌then◌else◌, Bool-cases, same,
}
use mathlib.Core.List.{reverse, reverse-append, reverse-reverse}
use integrity_sum.Base.Map.{lookup}
use integrity_sum.Strings.Search.{has_suffix, has_prefix}
use integrity_sum.Alerts.{Alert}
use integrity_sum.Monitor.{IntegrityError, error_text}
use integrity_sum.Syslog.{Context, event_type, syslog_message, header, line_end, record_text}

-- The event type that a record shows for an integrity error is the error's type, and 0 for a type
-- that the program does not know.
pub event_type-error_text :
    (e : IntegrityError)
    → event_type (error_text e) ≡ (if leb 1 e.kind && leb e.kind 3 then e.kind else 0)
unfolding event_type error_text lookup same
event_type-error_text e = ground arith

reversed_head : (r : Bytes) → has_prefix r (b'\n' ∷ []) ≡ true → (t : Bytes) × (r ≡ b'\n' ∷ t)
unfolding has_prefix
reversed_head [] h = absurd (ground arith)
reversed_head (c ∷ t) h = (t, ground arith)

ends_in_newline :
    (s : Bytes) → has_suffix s (b'\n' ∷ []) ≡ true → (t : Bytes) × (s ≡ t ++ b'\n' ∷ [])
unfolding has_suffix
ends_in_newline s h =
    let (t, e) = reversed_head (reverse s) h in
    (reverse t, sym (reverse-reverse s) ∙ (ap reverse e ∙ reverse-append (b'\n' ∷ []) t))

abbrev HasLineEnd : Bytes → Bytes → Type 0
HasLineEnd msg t = (msg ++ line_end msg ≡ t ++ b'\n' ∷ []) × ((t ≡ msg) ⊎ (msg ≡ t ++ b'\n' ∷ []))

with_line_end : (msg : Bytes) → (t : Bytes) × HasLineEnd msg t
with_line_end msg = elim (Bool-cases (has_suffix msg (b'\n' ∷ []))) [
  | inl has ↦ let (t, e) = ends_in_newline msg has in (t, (rw has (append-nil msg ∙ e), inr e))
  | inr lacks ↦ (msg, (rw lacks, inl refl))
]

-- What is sent is the header, a space, the message, and a line end, which is added only if the
-- message has none at its end.
pub record_ends_the_line :
    (c : Context) (a : Alert)
    → (t : Bytes) × (record_text c a ≡ header c ++ (b' ' ∷ (t ++ b'\n' ∷ [])))
      × ((t ≡ syslog_message c a) ⊎ (syslog_message c a ≡ t ++ b'\n' ∷ []))
unfolding record_text
record_ends_the_line c a =
    let (t, (e, which)) = with_line_end (syslog_message c a) in
    (t, ap (λ s. header c ++ (b' ' ∷ s)) e, which)
