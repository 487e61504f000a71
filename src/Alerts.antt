-- ===== src/Alerts.antt =====
-- pkg/alerts: the registry of senders and the delivery of an alert to all of them. A sender acts on
-- the outside world, of type `W`, and may return an error, of type `E`.
pub mod Delivery
pub mod Heartbeat
mod Tests
use integrity_sum.Base.{ℕ, suc, List, [], ◌∷◌, ◌++◌, Option, none, some, Bytes, codes}
use integrity_sum.Strings.Decimal.{format_nat}

-- `Time` is kept as text.
pub record Alert : Type 0 where
  pub time : Bytes
  pub message : Bytes
  pub reason : Bytes
  pub path : Bytes
  pub process_name : Bytes

abbrev pub heartbeat_event : Bytes
heartbeat_event = codes "heartbeat event"

-- `New`, at the time `now`
abbrev pub new_alert : Bytes → Bytes → Bytes → Bytes → Bytes → Alert
new_alert now msg reason path proc_name = record {
  time = now;
  message = msg;
  reason = reason;
  path = path;
  process_name = proc_name;
}

abbrev pub Sender : Type 0 → Type 0 → Type 0
Sender W E = Alert → W → Option E × W

module _ {E : Type 0} where
  -- `errs.collect(err)` if there is an error
  abbrev pub collect : Option E → List E → List E
  collect none errs = errs
  collect (some e) errs = errs ++ e ∷ []

  -- `nil` if nothing was collected
  abbrev pub as_error : List E → Option (List E)
  as_error [] = none
  as_error (e ∷ es) = some (e ∷ es)

module _ {W E : Type 0} where
  -- `registry = append(registry, s)`
  unfoldable pub register : Sender W E → List (Sender W E) → List (Sender W E)
  register s registry = registry ++ s ∷ []

  -- The loop over the registry.
  unfoldable pub send_all : List (Sender W E) → Alert → List E → W → List E × W
  send_all [] alert errs w = (errs, w)
  send_all (s ∷ ss) alert errs w = let r = s alert w in send_all ss alert (collect r.0 errs) r.1

  -- `Send`: the error, if any, holds all that were collected.
  unfoldable pub send : List (Sender W E) → Alert → W → Option (List E) × W
  unfolding send_all
  send registry alert w = let r = send_all registry alert [] w in (as_error r.0, r.1)

module _ {E : Type 0} (text : E → Bytes) where
  -- The loop of `Errors.Error`: `err += fmt.Sprintf("Error %d: %s\n", i, e.Error())`
  unfoldable pub number_errors : ℕ → List E → Bytes → Bytes
  number_errors i [] acc = acc
  number_errors i (e ∷ es) acc =
      number_errors (suc i) es
        (acc ++ (codes "Error " ++ (format_nat i ++ (codes ": " ++ (text e ++ b'\n' ∷ [])))))

  unfoldable pub error_text : List E → Bytes
  unfolding number_errors
  error_text es = number_errors 0 es (codes "errors:\n")
