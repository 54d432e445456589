-- ===== src/Providers.antt =====
-- The clients of the providers: backend/internal/channels/email/resend.go, sms/fast2sms.go and
-- push/fcm.go. The network and the JSON forms are not part of the repository: `Web` says what the
-- n-th call of the program's HTTP client gives, `Json` how a body reads. The building of a request,
-- which fails for no input here, is left out.
pub mod Tokens
use notifyx.Prelude.{
  ℕ, suc, ◌+◌, ◌*◌, String, ◌<>◌, Bool, true, false, ◌&&◌, ◌||◌, not, Option, none, some, List, [],
  ◌∷◌, leb, ltb, Error, message, wrap, Result, ok, err, if◌then◌else◌, str_eq,
}
use notifyx.Domain.{Time}
use notifyx.Redis.Sets.{second}
use notifyx.Postgres.{Env, World, Io, pure, fail, wrapping, gets, ◌>>=◌, ◌>>◌}

pub record HttpRequest : Type 0 where
  pub method : String
  pub url : String
  pub authorization : String
  pub body : String

-- A status and a body that was read to its end.
pub record HttpReply : Type 0 where
  pub status : ℕ
  pub body : String

abbrev pub Web : Type 0
Web = ℕ → HttpRequest → Result HttpReply

-- What the token endpoint says: the token, and the seconds for which it is valid.
pub record TokenReply : Type 0 where
  pub access_token : String
  pub expires_in : ℕ

-- Fast2SMS: whether it accepts the message, its id, and its reasons.
pub record SmsReply : Type 0 where
  pub accepts : Bool
  pub request_id : String
  pub messages : List String

-- The JSON and form encodings, and what a body decodes to.
pub record Json : Type 0 where
  pub email_body : String → String → String → String → String
  pub sms_query : String → String → String → String
  pub push_body : String → String → String → String
  pub token_form : String → String
  pub error_message : String → Option String
  pub message_id : String → Option String
  pub sms_reply : String → Option SmsReply
  pub token_reply : String → Option TokenReply
  pub decimal : ℕ → String

unfoldable pub is_success : ℕ → Bool
is_success status = leb 200 status && ltb status 300

-- "name error (status): text"
unfoldable pub status_error : Json → String → ℕ → String → Error
status_error json name status text =
    message (name <> (" error (" <> (json.decimal status <> ("): " <> text))))

-- The provider's own message, where the body has one that is not empty, or the whole body.
unfoldable pub error_reason : Json → String → String
error_reason json body = elim (json.error_message body) [
  | none ↦ body
  | some m ↦ if str_eq m "" then body else m
]

unfoldable pub http_do : {R : Type 0} → Web → HttpRequest → Io R HttpReply
http_do web req w = (web w.calls req, record w { calls = suc w.calls })

-- What a body decodes to, or the error of json.Unmarshal.
unfoldable pub unmarshal : {R : Type 0} {A : Type 0} → String → Option A → Io R A
unmarshal s none = fail (wrap s (message "json"))
unmarshal s (some a) = pure a

-- email: Client.Send, with the id that Resend gives.
unfoldable pub send_email :
    {R : Type 0} → Web → Json → String → String → String → String → String → Io R String
unfolding http_do unmarshal is_success error_reason status_error
send_email web json api_key from_email to subject body = do
  r ← wrapping "resend request failed" (
      http_do web (record {
        method = "POST";
        url = "https://api.resend.com/emails";
        authorization = "Bearer " <> api_key;
        body = json.email_body from_email to subject body;
      }))
  if is_success r.status
      then unmarshal "unmarshal resend response" (json.message_id r.body)
      else fail (status_error json "resend" r.status (error_reason json r.body))

-- The first reason of a refused SMS.
unfoldable pub first_reason : List String → String
first_reason [] = "unknown error"
first_reason (m ∷ ms) = m

-- sms: Client.Send, with the request's id.
unfoldable pub send_sms : {R : Type 0} → Web → Json → String → String → String → Io R String
unfolding http_do unmarshal is_success status_error first_reason
send_sms web json api_key phone text = do
  r ← wrapping "fast2sms request failed" (
      http_do web (record {
        method = "GET";
        url = "https://www.fast2sms.com/dev/bulkV2?" <> json.sms_query api_key text phone;
        authorization = "";
        body = "";
      }))
  if is_success r.status
      then (unmarshal "unmarshal fast2sms response" (json.sms_reply r.body) >>= λ sr.
          if sr.accepts
          then pure sr.request_id
          else fail (message ("fast2sms rejected message: " <> first_reason sr.messages)))
      else fail (status_error json "fast2sms" r.status r.body)

-- push: Client, whose token changes. `sign` makes the signed assertion of the service account at a
-- time, where it can.
pub record FcmClient : Type 0 where
  pub project_id : String
  pub token_uri : String
  pub sign : Time → Result String
  pub access_token : String
  pub expires_at : Time

abbrev pub token_expiry_skew : ℕ
token_expiry_skew = 60 * second

-- Whether the cached token can be used at the time `now`.
unfoldable pub is_fresh : FcmClient → Time → Bool
is_fresh c now = not (str_eq c.access_token "") && ltb (now + token_expiry_skew) c.expires_at

-- The request for a new token.
unfoldable pub request_token : {R : Type 0} → Web → Json → FcmClient → String → Io R TokenReply
unfolding http_do unmarshal is_success status_error
request_token web json c assertion = do
  r ← wrapping "token request failed" (
      http_do web (record {
        method = "POST";
        url = c.token_uri;
        authorization = "";
        body = json.token_form assertion;
      }))
  if is_success r.status
      then unmarshal "unmarshal token response" (json.token_reply r.body)
      else fail (status_error json "token endpoint" r.status r.body)

module _ {R : Type 0} (env : Env) (web : Web) (json : Json) where
  -- The token that was fetched, and the client that keeps it.
  unfoldable pub keep_token : FcmClient → World R → TokenReply → FcmClient
  keep_token c w t = record c {
    access_token = t.access_token;
    expires_at = env.clock w.calls + t.expires_in * second;
  }

  -- getAccessToken: the token, and the client afterwards.
  unfoldable pub get_access_token : FcmClient → World R → Result String × FcmClient × World R
  unfolding is_fresh request_token keep_token
  get_access_token c w =
      if is_fresh c (env.clock w.calls)
      then (ok c.access_token, c, w)
      else elim (c.sign (env.clock w.calls)) [
        | err e ↦ (err (wrap "sign jwt assertion" e), c, w)
        | ok assertion ↦
            let (r, w') = request_token web json c assertion w in
            elim r [ err e ↦ (err e, c, w') | ok t ↦ (ok t.access_token, keep_token c w' t, w') ]
      ]

  -- The request to FCM itself, with the name that FCM gives the message.
  unfoldable pub send_push_with : FcmClient → String → String → String → String → Io R String
  unfolding http_do unmarshal is_success error_reason status_error
  send_push_with c access_token token title body = do
    r ← wrapping "fcm request failed" (
        http_do web (record {
          method = "POST";
          url = "https://fcm.googleapis.com/v1/projects/" <> (c.project_id <> "/messages:send");
          authorization = "Bearer " <> access_token;
          body = json.push_body token title body;
        }))
    if is_success r.status
        then unmarshal "unmarshal fcm response" (json.message_id r.body)
        else fail (status_error json "fcm" r.status (error_reason json r.body))

  -- push: Client.Send, and the client afterwards.
  unfoldable pub send_push :
      FcmClient → String → String → String → World R → Result String × FcmClient × World R
  unfolding get_access_token send_push_with
  send_push c token title body w =
      let (r, c', w') = get_access_token c w in
      elim r [
        | err e ↦ (err (wrap "get fcm access token" e), c', w')
        | ok access_token ↦
            let (r', w'') = send_push_with c' access_token token title body w' in (r', c', w'')
      ]
