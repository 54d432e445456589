-- ===== src/Providers/Tokens.antt =====
-- The access token that backend/internal/channels/push/fcm.go caches, and what the clients take for
-- an accepted message.
use notifyx.Prelude.{
  suc, ◌≤◌, ◌+◌, ◌*◌, ◌<◌, ◌≡◌, String, true, some, arith, ok, Result-cases, Option-cases, inl, inr,
  ◌<>◌,
}
use notifyx.Redis.Sets.{second}
use notifyx.Postgres.{Env, World}
use notifyx.Providers.{
  Web, Json, HttpRequest, HttpReply, TokenReply, SmsReply, FcmClient, is_success, http_do,
  unmarshal, send_sms,
}

-- The one request for a new token, with a signed assertion.
abbrev pub token_request : Json → FcmClient → String → HttpRequest
token_request json c assertion = record {
  method = "POST";
  url = c.token_uri;
  authorization = "";
  body = json.token_form assertion;
}

module _ {R : Type 0} (env : Env) (web : Web) (json : Json) where
  -- A token was fetched: the assertion was signed for the time of the call, the endpoint answered the
  -- one request with a 2xx status and a body that reads as `t`, and the client keeps t's token until
  -- t's number of seconds after the time at which the answer was there.
  pub record Fetched (c : FcmClient) (w : World R) (token : String) (c' : FcmClient) (w' : World R)
      : Type 0 where
    pub assertion : String
    pub reply : HttpReply
    pub t : TokenReply
    pub signed : c.sign (env.clock w.calls) ≡ ok assertion
    pub answered : web w.calls (token_request json c assertion) ≡ ok reply
    pub succeeded : (200 ≤ reply.status) × (reply.status < 300)
    pub reads : json.token_reply reply.body ≡ some t
    pub token_is : token ≡ t.access_token
    pub kept : c' ≡ record c {
      access_token = t.access_token;
      expires_at = env.clock (suc w.calls) + t.expires_in * second;
    }
    pub calls : w'.calls ≡ suc w.calls

  -- An SMS counts as accepted only where the reply has a 2xx status and says itself that the message
  -- was accepted; one that Fast2SMS refuses with status 200 is an error.
  send_sms_of_ok :
      (api_key phone text : String) (w : World R) {i : String}
      → (send_sms web json api_key phone text w).0 ≡ ok i
      → (q : HttpRequest) × (r : HttpReply) × (s : SmsReply) × (web w.calls q ≡ ok r)
        × (is_success r.status ≡ true)
        × (json.sms_reply r.body ≡ some s)
        × (s.accepts ≡ true)
        × (s.request_id ≡ i)
  unfolding send_sms http_do unmarshal
  send_sms_of_ok api_key phone text w h = elim (Result-cases (web w.calls asked)) [
    | inr (e, q) ↦ absurd (ground arith)
    | inl (r, q) ↦ elim (Option-cases (json.sms_reply r.body)) [
      | inl n ↦ absurd (ground arith)
      | inr (s, n) ↦ (asked, r, s, q, ground arith, n, ground arith, ground arith)
    ]
  ]
    where
      asked : HttpRequest
      asked = record {
        method = "GET";
        url = "https://www.fast2sms.com/dev/bulkV2?" <> json.sms_query api_key text phone;
        authorization = "";
        body = "";
      }
