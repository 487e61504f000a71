-- ===== src/Alerts/Tests.antt =====
-- Senders that write to a list, one of which fails.
use integrity_sum.Base.{◌≡◌, refl, List, [], ◌∷◌, ◌++◌, none, some, Bytes, codes}
use integrity_sum.Strings.Decimal.{format_nat}
use integrity_sum.Alerts.{Alert, Sender, new_alert, send, error_text}
use integrity_sum.Alerts.Heartbeat.{Wake, tick, done, heartbeat}

abbrev delivers : Sender (List Bytes) Bytes
delivers a w = (none, w ++ a.message ∷ [])

abbrev fails : Sender (List Bytes) Bytes
fails a w = (some (codes "down"), w ++ codes "?" ∷ [])

abbrev alert : Alert
alert = new_alert (codes "now") (codes "m") (codes "r") (codes "p") (codes "n")

both_are_called :
    send (fails ∷ delivers ∷ []) alert [] ≡ (some (codes "down" ∷ []), codes "?" ∷ codes "m" ∷ [])
unfolding send
both_are_called = refl

errors_are_numbered :
    error_text (λ s. s) (codes "a" ∷ codes "b" ∷ []) ≡ codes "errors:\nError 0: a\nError 1: b\n"
unfolding error_text format_nat
errors_are_numbered = refl

-- Two ticks, and one that comes after the end of the context.
abbrev wakes : List Wake
wakes = tick (codes "1") ∷ tick (codes "2") ∷ done ∷ tick (codes "3") ∷ []

two_beats :
    (heartbeat (fails ∷ delivers ∷ []) wakes alert [])
    ≡ codes "?" ∷ codes "m" ∷ codes "?" ∷ codes "m" ∷ []
unfolding heartbeat send
two_beats = refl
