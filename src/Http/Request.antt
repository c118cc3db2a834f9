-- ===== src/Http/Request.antt =====
-- `RCValidateDestination`, `RCRequest`, `RCHTTPClientRequest`, `RCHTTPClientConditionalRequest` and
-- `RCHTTPClientMove` of source/shared/RCHTTPClient.c. Memory and the setting of options do not fail.
use retro_cloud_sync.Prelude.{
  ℕ, zero, suc, ◌+◌, ◌-◌, ◌^◌, Bool, false, not, ◌&&◌, ◌||◌, Option, none, some, ◌∷◌, ltb, ◌==◌,
  if◌then◌else◌, Bytes, Buffer, is_null, size, column_of, codes, same, same_case, is_some, any,
  Result, ok, err,
}
use retro_cloud_sync.Http.Model.{Response, Request, Trace, Client, Transfer, Network}
use retro_cloud_sync.Http.Receive.{host_has_suffix}
use retro_cloud_sync.Journal.Etag.{etag_is_strong}

-- `RCValidateDestination`: an HTTPS URL with no user in it, on an allowed host.
unfoldable pub validate_destination : Network → Bytes → Option Bytes → Result (Unit {0})
validate_destination net url suffix = elim (net.parse url) [
  | none ↦ err 1 "Invalid HTTPS URL"
  | some (scheme, host) ↦
      if not (same_case scheme (codes "https"))
      then err 1 "Refusing non-HTTPS DAV destination"
      else if not (host_has_suffix host suffix)
      then err 1 "Refusing DAV credentials for unexpected host"
      else ok tt
]

abbrev pub redirect_limit : ℕ
redirect_limit = 5

abbrev pub is_redirect : ℕ → Bool
is_redirect status = status == 301 || status == 302 || status == 307 || status == 308

abbrev pub is_conditional : Request → Bool
is_conditional q = is_some q.if_match || q.if_none_match

abbrev pub aborted_by_callback : ℕ
aborted_by_callback = 42

-- RC_ERROR_CANCELLED is -9999.
abbrev pub cancelled_code : ℕ
cancelled_code = 2 ^ 32 - 9999

-- What `curl_easy_perform` leaves, if it is called at all, and the trace behind it. The effective URL
-- is the current one where libcurl gives none.
unfoldable pub transfer : Network → Request → Trace → Trace × Transfer
transfer net q trace =
    if net.stop_before trace
    then (
      trace,
      record {
        code = aborted_by_callback;
        exceeded_limit = false;
        response = record {
          status_code = 0;
          effective_url = some q.url;
          location = none;
          etag = none;
          content_type = none;
          body = none;
        };
      },
    )
    else (q ∷ trace, net.perform (q ∷ trace))

abbrev effective : Request → Response → Bytes
effective q r = elim r.effective_url [ none ↦ q.url | some url ↦ url ]

-- Where a redirect leads, if it may be followed: `last` is `redirectCount == RC_HTTP_REDIRECT_LIMIT`.
unfoldable pub redirect_target : Network → Bool → Request → Response → Result Bytes
redirect_target net last q r = elim r.location [
  | none ↦ err 1 "Invalid or excessive DAV redirects"
  | some location ↦
      if last
      then err 1 "Invalid or excessive DAV redirects"
      else elim (net.resolve (effective q r) location) [
        | none ↦ err 1 "Could not resolve DAV href"
        | some url ↦ ok url
      ]
]

-- After a transfer: 1 with the response, 0, or one more round at another URL.
pub data Next : Type 0 where
  done : Result Response → Next
  follow : Bytes → Next

unfoldable pub after_transfer : Network → Bool → Request → Trace → Transfer → Next
unfolding redirect_target
after_transfer net last q trace t =
    if net.stop_after trace
    then done (err cancelled_code "Shutdown requested")
    else if not (t.code == 0)
    then done (
        err t.code (
          if t.exceeded_limit
          then "HTTP response exceeded size limit"
          else "DAV request failed: %s"))
    else if not (is_conditional q) && is_redirect t.response.status_code
    then elim (redirect_target net last q t.response) [
      | err c m ↦ done (err c m)
      | ok url ↦ follow url
    ]
    else done (ok (record (t.response) { effective_url = some (effective q t.response) }))

-- The loop of `RCRequest` with the rounds left.
unfoldable pub request_rounds : ℕ → Network → Client → Request → Trace → Trace × Result Response
request_rounds zero net client q trace = (trace, err 1 "Too many DAV redirects")
request_rounds (suc rounds) net client q trace =
    elim (validate_destination net q.url client.allowed_host_suffix) [
      | err c m ↦ (trace, err c m)
      | ok _ ↦
          let (trace', t) = transfer net q trace in
          elim (after_transfer net (rounds == 0) q trace' t) [
            | done r ↦ (trace', r)
            | follow url ↦ request_rounds rounds net client (record q { url = url }) trace'
          ]
    ]

-- `RCRequest`: at most RC_HTTP_REDIRECT_LIMIT redirects are followed.
unfoldable pub perform_request : Network → Client → Request → Trace → Trace × Result Response
perform_request net client q trace = request_rounds (redirect_limit + 1) net client q trace

-- The methods that change a resource.
unfoldable pub is_mutation : Bytes → Bool
is_mutation method =
    same_case method (codes "PUT")
    || same_case method (codes "DELETE")
    || same_case method (codes "MOVE")
    || same_case method (codes "MKCALENDAR")

-- `RCHTTPClientRequest`.
unfoldable pub client_request :
    Network
    → Client
    → Bytes
    → Bytes
    → Option Bytes
    → Option Bytes
    → Option Bytes
    → Trace
    → Trace × Result Response
client_request net client method url depth content_type body trace =
    if is_mutation method
    then (trace, err 1 "DAV mutations require a conditional request")
    else perform_request net client
        (record {
          method = method;
          url = url;
          depth = depth;
          content_type = content_type;
          if_match = none;
          if_none_match = false;
          destination = none;
          body = body;
        })
        trace

abbrev long_max : ℕ
long_max = 2 ^ 63 - 1

-- The check of `RCHTTPClientConditionalRequest`.
unfoldable pub is_valid_mutation : Bytes → Buffer → Option Bytes → Bool → Bool
is_valid_mutation method body if_match if_none_match =
    let put = same method (codes "PUT") in
    let delete = same method (codes "DELETE") in
    let mkcalendar = same method (codes "MKCALENDAR") in
    not (
      ltb long_max (size body)
      || not (put || delete || mkcalendar)
      || (if is_some if_match
          then not (etag_is_strong if_match) || if_none_match
          else not if_none_match)
      || (mkcalendar && (is_some if_match || not if_none_match))
      || (delete && (not (is_some if_match) || not (is_null body) || not (size body == 0)))
      || ((put || mkcalendar) && (is_null body || size body == 0)))

-- `RCHTTPClientConditionalRequest`; `method` is not NULL.
unfoldable pub conditional_request :
    Network
    → Client
    → Bytes
    → Bytes
    → Option Bytes
    → Buffer
    → Option Bytes
    → Bool
    → Trace
    → Trace × Result Response
conditional_request net client method url content_type body if_match if_none_match trace =
    if not (is_valid_mutation method body if_match if_none_match)
    then (trace, err 1 "Invalid conditional DAV mutation")
    else perform_request net client
        (record {
          method = method;
          url = url;
          depth = none;
          content_type = content_type;
          if_match = if_match;
          if_none_match = if_none_match;
          destination = none;
          body = column_of body;
        })
        trace

abbrev is_line_end : ℕ → Bool
is_line_end c = c == b'\r' || c == b'\n'

-- `RCHTTPClientMove`; the URLs are not NULL.
unfoldable pub client_move :
    Network → Client → Bytes → Bytes → Option Bytes → Trace → Trace × Result Response
client_move net client source destination etag trace =
    if not (etag_is_strong etag) || any is_line_end destination
    then (trace, err 1 "Invalid conditional MOVE")
    else elim (validate_destination net destination client.allowed_host_suffix) [
      | err _ _ ↦ (trace, err 1 "Invalid conditional MOVE")
      | ok _ ↦
          perform_request net client
            (record {
              method = codes "MOVE";
              url = source;
              depth = none;
              content_type = none;
              if_match = etag;
              if_none_match = false;
              destination = some destination;
              body = none;
            })
            trace
    ]
