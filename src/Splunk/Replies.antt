-- ===== src/Splunk/Replies.antt =====
-- When an event counts as sent.
use integrity_sum.Base.{ℕ, ◌≡◌, ◌↔◌, refl, Option, none, some, Bytes, arith}
use integrity_sum.Base.Result.{Result, ok, err}
use integrity_sum.Alerts.{Alert}
use integrity_sum.Splunk.{
  Response, Http, status_ok, event_from_alert, authorization, send_event, after_marshal,
  after_request, after_post, after_body,
}

module _ {W E Seconds : Type 0} (http : Http W E Seconds) (uri token : Bytes) where
  -- The event was encoded, posted with the token, and answered with status 200 and a readable body.
  pub record IsAccepted (a : Alert) (w : W) : Type 0 where
    pub text : Bytes
    pub encoded : http.marshal (event_from_alert http.seconds a) ≡ ok text
    pub made : http.new_request uri text ≡ none
    pub reply : Response E
    pub answered : (http.post uri (authorization token) text w).0 ≡ ok reply
    pub content : Bytes
    pub readable : reply.body ≡ ok content
    pub accepted : reply.status_code ≡ status_ok

  status_accepted :
      (status : ℕ) (body : Result E Bytes)
      → after_body http uri token status body ≡ none
      → (status ≡ status_ok) × ((content : Bytes) × (body ≡ ok content))
  status_accepted status (err e) h = absurd (ground arith)
  status_accepted status (ok content) h = (ground arith, (content, refl))

  reply_accepted :
      (r : Result E (Response E))
      → after_post http uri token r ≡ none
      → (reply : Response E) × (r ≡ ok reply)
        × (reply.status_code ≡ status_ok)
        × ((content : Bytes) × (reply.body ≡ ok content))
  reply_accepted (err e) h = absurd (ground arith)
  reply_accepted (ok reply) h =
      let accepted = status_accepted reply.status_code reply.body h in
      (reply, refl, accepted.0, accepted.1)

  request_accepted :
      (made : Option E) (text : Bytes) (w : W)
      → (after_request http uri token made text w).0 ≡ none
      → (made ≡ none)
        × (after_post http uri token (http.post uri (authorization token) text w).0 ≡ none)
  request_accepted (some e) text w h = absurd (ground arith)
  request_accepted none text w h = (refl, h)

  encoding_accepted :
      (encoded : Result E Bytes) (w : W)
      → (after_marshal http uri token encoded w).0 ≡ none
      → (text : Bytes) × (encoded ≡ ok text)
        × ((after_request http uri token (http.new_request uri text) text w).0 ≡ none)
  encoding_accepted (err e) w h = absurd (ground arith)
  encoding_accepted (ok text) w h = (text, refl, h)

  -- `Send` has no error exactly if the event was encoded, posted with the token, and answered with
  -- status 200 and a body that could be read.
  pub send_event_iff :
      (a : Alert) (w : W) → ((send_event http uri token a w).0 ≡ none) ↔ IsAccepted a w
  unfolding send_event
  send_event_iff a w = (
    λ h.
        let (text, encoded, rest) =
          encoding_accepted (http.marshal (event_from_alert http.seconds a)) w h in
        let (made, posted) = request_accepted (http.new_request uri text) text w rest in
        let (reply, answered, status, (content, readable)) =
          reply_accepted (http.post uri (authorization token) text w).0 posted in
        record {
          text = text;
          encoded = encoded;
          made = made;
          reply = reply;
          answered = answered;
          content = content;
          readable = readable;
          accepted = status;
        },
    λ g. rw (g.encoded, g.made, g.answered, g.readable, g.accepted) refl,
  )
