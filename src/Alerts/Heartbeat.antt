-- ===== src/Alerts/Heartbeat.antt =====
-- `Heartbeat` of pkg/alerts/alerts.go: its goroutine's loop. A wake-up is what the select takes: a
-- tick, at a time, or the end of the context.
use integrity_sum.Base.{◌≡◌, refl, ap, ◌∙◌, List, [], ◌∷◌, map, Bytes, Option}
use integrity_sum.Alerts.{Alert, Sender, send}
use integrity_sum.Alerts.Delivery.{after, send_reaches_all}

pub data Wake : Type 0 where
  tick : Bytes → Wake
  done : Wake

-- `alert.Time = time.Now()`
abbrev pub at_time : Alert → Bytes → Alert
at_time alert now = record alert { time = now }

module _ {W E : Type 0} (registry : List (Sender W E)) where
  -- The errors of `Send` are logged only.
  unfoldable pub heartbeat : List Wake → Alert → W → W
  heartbeat [] alert w = w
  heartbeat (tick now ∷ wakes) alert w =
      heartbeat wakes (at_time alert now) (send registry (at_time alert now) w).1
  heartbeat (done ∷ wakes) alert w = w

  -- The times of the ticks before the context is done.
  pub times : List Wake → List Bytes
  times [] = []
  times (tick now ∷ wakes) = now ∷ times wakes
  times (done ∷ wakes) = []

  -- The world after the alerts have gone, one after the other, to every sender.
  pub deliveries : List Alert → W → W
  deliveries [] w = w
  deliveries (a ∷ alerts) w = deliveries alerts (after registry a w)

  -- Each tick before the context is done sends the alert, with the time of the tick, to every sender
  -- in turn, whether or not senders fail; then nothing more is sent.
  pub heartbeat_lem :
      (wakes : List Wake) (alert : Alert) (w : W)
      → heartbeat wakes alert w ≡ deliveries (map (at_time alert) (times wakes)) w
  unfolding heartbeat times deliveries
  heartbeat_lem [] alert w = refl
  heartbeat_lem (tick now ∷ wakes) alert w =
      ap (λ (r : Option (List E) × W). heartbeat wakes (at_time alert now) r.1)
        (send_reaches_all registry (at_time alert now) w)
      ∙ heartbeat_lem wakes (at_time alert now) (after registry (at_time alert now) w)
  heartbeat_lem (done ∷ wakes) alert w = refl
