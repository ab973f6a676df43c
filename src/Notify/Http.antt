-- ===== src/Notify/Http.antt =====
-- internal/notify/notify.go: requests over HTTP and the check of their responses. net/http is a
-- parameter, as is the state of the world that a request changes.
use mathlib.Core.List.{reverse}
use malert.Domain.{Notification}
use malert.Permanent.{GoError, plain, wrapped}
use malert.Queue.Job.{format_int}
use malert.Base.{
  ◌==◌, Assoc, insert, Int64, leb_i64, ltb_i64, Text, codes, trim_space, ◌⊎◌, inl, inr, Bool, false,
  ◌&&◌, ◌||◌, Option, none, some, List, [], ◌∷◌, ◌++◌, if◌then◌else◌,
}
use malert.Notify.Retry.{Reply, delivered, refused}
use malert.Config.Channels.{or_else}
use malert.Config.Notify.{HttpNotifier}
use malert.Config.ValidateNotify.{is_blank}
use malert.Config.Defaults.{drop_slashes}

pub record HttpRequest : Type 0 where
  pub method : Text
  pub url : Text
  pub headers : Assoc Text
  pub body : Option Text

-- A response, whose body may fail to be read.
pub record HttpResponse : Type 0 where
  pub status_code : Int64
  pub body : GoError ⊎ Text

-- `exchange` is client.Do, with the client's own timeout; `refuses` is the error of
-- http.NewRequestWithContext for a method and a URL; `canonical` is http.CanonicalHeaderKey.
pub record HttpClient (S : Type 0) : Type 0 where
  pub exchange : S → HttpRequest → S × (GoError ⊎ HttpResponse)
  pub refuses : Text → Text → Option GoError
  pub canonical : Text → Text

-- strings.TrimRight(s, "/").
unfoldable pub trim_right_slash : Text → Text
unfolding drop_slashes
trim_right_slash s = reverse (drop_slashes (reverse s))

-- What a call over HTTP leaves: the state, and an error or a result.
abbrev pub Call : Type 0 → Type 0 → Type 0
Call S A = S × (GoError ⊎ A)

unfoldable pub has_status : Int64 → List Int64 → Bool
has_status status [] = false
has_status status (c ∷ cs) = c == status || has_status status cs

-- `isHTTPStatusAccepted`; a set of status codes is a list.
unfoldable pub is_http_status_accepted : Int64 → List Int64 → Bool
unfolding has_status
is_http_status_accepted status [] = leb_i64 200 status && ltb_i64 status 300
is_http_status_accepted status (c ∷ cs) = has_status status (c ∷ cs)

-- `formatHTTPStatusError`.
unfoldable pub format_http_status_error : Text → Int64 → Text → GoError
unfolding format_int
format_http_status_error prefix status body =
    let head = prefix ++ codes " status=" ++ format_int status in
    plain (if is_blank body then head else head ++ codes " body=" ++ trim_space body)

-- The rest of `executeRequest`, after the response has come.
unfoldable pub read_response : Text → HttpResponse → List Int64 → Bool → GoError ⊎ Text
unfolding is_http_status_accepted format_http_status_error
read_response prefix response success wanted =
    if is_http_status_accepted response.status_code success
    then (if wanted
        then elim response.body [
          | inl e ↦ inl (wrapped (prefix ++ codes " read response: ") e)
          | inr body ↦ inr body
        ]
        else elim response.body [
          | inl e ↦ inl (wrapped (prefix ++ codes " discard response: ") e)
          | inr body ↦ inr []
        ])
    else elim response.body [
      | inl e ↦ inl (wrapped (prefix ++ codes " read response: ") e)
      | inr body ↦ inl (format_http_status_error prefix response.status_code body)
    ]

-- A chain of calls, which the first error ends.
unfoldable pub then_call : {S A B : Type 0} → Call S A → (S → A → Call S B) → Call S B
then_call (s, inl e) next = (s, inl e)
then_call (s, inr a) next = next s a

module _ {S : Type 0} (client : HttpClient S) where
  -- `executeRequest` of a client that is there.
  unfoldable pub execute_request : S → HttpRequest → Text → List Int64 → Bool → Call S Text
  unfolding read_response
  execute_request s request prefix success wanted =
      let (t, outcome) = client.exchange s request in
      elim outcome [
        | inl e ↦ (t, inl (wrapped (prefix ++ codes " send: ") e))
        | inr response ↦ (t, read_response prefix response success wanted)
      ]

  -- `request.Header.Set`.
  abbrev pub set_header : Text → Text → HttpRequest → HttpRequest
  set_header key value request = record request {
    headers = insert (client.canonical key) value request.headers;
  }

  -- http.NewRequestWithContext.
  unfoldable pub new_request : Text → Text → Option Text → Text → GoError ⊎ HttpRequest
  new_request method url body prefix = elim (client.refuses method url) [
    | some e ↦ inl (wrapped prefix e)
    | none ↦ inr (record { method = method; url = url; headers = []; body = body })
  ]

  -- `buildJSONRequest` of a payload, which is given by what json.Marshal makes of it.
  unfoldable pub build_json_request : Text → Text → GoError ⊎ Text → Text → GoError ⊎ HttpRequest
  unfolding new_request
  build_json_request method endpoint payload prefix = elim payload [
    | inl e ↦ inl (wrapped (codes "encode " ++ prefix ++ codes " payload: ") e)
    | inr body ↦
        elim (new_request method endpoint (some body)
          (codes "build " ++ prefix ++ codes " request: ")) [
            | inl e ↦ inl e
            | inr request ↦
                inr (set_header (codes "Content-Type") (codes "application/json") request)
          ]
  ]

  -- The loop over the configured headers.
  unfoldable pub with_headers : Assoc Text → HttpRequest → HttpRequest
  with_headers [] request = request
  with_headers ((key, value) ∷ rest) request = with_headers rest (set_header key value request)

-- A call whose result is not used.
abbrev pub without_result : {S : Type 0} → S × (GoError ⊎ Text) → S × Reply
without_result (t, inl e) = (t, refused e)
without_result (t, inr body) = (t, delivered (record { message_id = 0; external_ref = [] }))

-- `Send` of the generic HTTP sender; `upper` is strings.ToUpper, `marshal` json.Marshal.
unfoldable pub send_http :
    {S : Type 0}
    → HttpClient S
    → (Text → Text)
    → (Notification → GoError ⊎ Text)
    → HttpNotifier
    → S
    → Notification
    → S × Reply
unfolding build_json_request execute_request with_headers
send_http client upper marshal cfg s n =
    let method = or_else (upper (trim_space cfg.method)) (codes "POST") in
    elim (build_json_request client method cfg.url (marshal n) (codes "http notify")) [
      | inl e ↦ (s, refused e)
      | inr request ↦ without_result (
          execute_request client s (with_headers client cfg.headers request) (codes "http notify")
            [] false)
    ]
