-- ===== src/Splunk.antt =====
-- pkg/alerts/splunk/splunk.go: an alert as an event for Splunk's HTTP collector. The JSON encoder and
-- the HTTP client are parameters; their errors are of a type `E`.
pub mod Replies
mod Tests
use integrity_sum.Base.{
  ℕ, Bool, true, false, ◌==◌, ◌++◌, Option, none, some, Bytes, codes, if◌then◌else◌,
}
use integrity_sum.Base.Result.{Result, ok, err}
use integrity_sum.Alerts.{Alert}

-- `event`
pub record Event : Type 0 where
  pub message : Bytes
  pub reason : Bytes
  pub path : Bytes

-- `eventHolder`; `Seconds` stands for the floating-point time.
pub record EventHolder (Seconds : Type 0) : Type 0 where
  pub time : Seconds
  pub event : Event

pub data SendError (E : Type 0) : Type 0 where
  failed : E → SendError E
  invalid_status_code : SendError E

-- The answer to a request: the status, and what reading the body gives.
pub record Response (E : Type 0) : Type 0 where
  pub status_code : ℕ
  pub body : Result E Bytes

-- The calls that `Send` makes; `post` does the request to the address, with the header's value.
pub record Http (W E Seconds : Type 0) : Type 0 where
  pub seconds : Bytes → Seconds
  pub marshal : EventHolder Seconds → Result E Bytes
  pub new_request : Bytes → Bytes → Option E
  pub post : Bytes → Bytes → Bytes → W → Result E (Response E) × W

abbrev pub status_ok : ℕ
status_ok = 200

-- `eventFromAlert`
unfoldable pub event_from_alert :
    {Seconds : Type 0} → (Bytes → Seconds) → Alert → EventHolder Seconds
event_from_alert seconds a = record {
  time = seconds a.time;
  event = record { message = a.message; reason = a.reason; path = a.path };
}

-- The value of the header that `New` makes from the token.
abbrev pub authorization : Bytes → Bytes
authorization token = codes "Splunk " ++ token

module _ {W E Seconds : Type 0} (http : Http W E Seconds) (uri token : Bytes) where
  abbrev after_body : ℕ → Result E Bytes → Option (SendError E)
  after_body status (err e) = some (failed e)
  after_body status (ok text) = if status == status_ok then none else some invalid_status_code

  abbrev after_post : Result E (Response E) → Option (SendError E)
  after_post (err e) = some (failed e)
  after_post (ok r) = after_body r.status_code r.body

  abbrev after_request : Option E → Bytes → W → Option (SendError E) × W
  after_request (some e) text w = (some (failed e), w)
  after_request none text w =
      let r = http.post uri (authorization token) text w in (after_post r.0, r.1)

  abbrev after_marshal : Result E Bytes → W → Option (SendError E) × W
  after_marshal (err e) w = (some (failed e), w)
  after_marshal (ok text) w = after_request (http.new_request uri text) text w

  -- `Send`
  unfoldable pub send_event : Alert → W → Option (SendError E) × W
  send_event a w = after_marshal (http.marshal (event_from_alert http.seconds a)) w
