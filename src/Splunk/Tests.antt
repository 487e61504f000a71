-- ===== src/Splunk/Tests.antt =====
-- A collector that keeps what it was sent and wants one token.
use integrity_sum.Base.{
  ◌≡◌, ◌↔◌, refl, List, [], ◌∷◌, none, some, Bytes, codes, same, if◌then◌else◌,
}
use integrity_sum.Base.Result.{ok}
use integrity_sum.Alerts.{Alert}
use integrity_sum.Splunk.{Http, invalid_status_code, event_from_alert, send_event}
use integrity_sum.Splunk.Replies.{IsAccepted, send_event_iff}

-- Events are encoded as their path alone.
abbrev collector : Http (List Bytes) Bytes Bytes
collector = record {
  seconds = λ t. t;
  marshal = λ e. ok e.event.path;
  new_request = λ uri text. none;
  post = λ uri auth text w.
      if same auth (codes "Splunk secret")
      then (ok (record { status_code = 200; body = ok (codes "Success") }), text ∷ w)
      else (ok (record { status_code = 403; body = ok (codes "Invalid token") }), w);
}

abbrev alert : Alert
alert = record {
  time = codes "now";
  message = codes "Restart pod p";
  reason = codes "new file found";
  path = codes "app/x";
  process_name = codes "nginx";
}

delivered :
    send_event collector (codes "http://splunk") (codes "secret") alert []
    ≡ (none, codes "app/x" ∷ [])
unfolding send_event event_from_alert same
delivered = refl

refused :
    send_event collector (codes "http://splunk") (codes "guess") alert []
    ≡ (some invalid_status_code, [])
unfolding send_event event_from_alert same
refused = refl

send_event_iff_example :
    ((send_event collector (codes "http://splunk") (codes "secret") alert []).0 ≡ none)
    ↔ IsAccepted collector (codes "http://splunk") (codes "secret") alert []
send_event_iff_example = send_event_iff collector (codes "http://splunk") (codes "secret") alert []
