-- ===== src/Http/Model.antt =====
-- Requests, responses and the client of source/shared/RCHTTPClient.h, and what the model takes from
-- libcurl: parsing and resolving URLs, and performing one transfer.
use retro_cloud_sync.Prelude.{ℕ, Bool, Option, List, Bytes}

-- `RCHTTPResponse`.
pub record Response : Type 0 where
  pub status_code : ℕ
  pub effective_url : Option Bytes
  pub location : Option Bytes
  pub etag : Option Bytes
  pub content_type : Option Bytes
  pub body : Option Bytes

-- One HTTP request as it is handed to libcurl: the method, the URL, the conditional headers, the
-- other headers that the caller chooses, and the body.
pub record Request : Type 0 where
  pub method : Bytes
  pub url : Bytes
  pub depth : Option Bytes
  pub content_type : Option Bytes
  pub if_match : Option Bytes
  pub if_none_match : Bool
  pub destination : Option Bytes
  pub body : Option Bytes

-- The requests that were sent, the latest first.
abbrev pub Trace : Type 0
Trace = List Request

-- `struct RCHTTPClient`, as far as it decides anything.
pub record Client : Type 0 where
  pub allowed_host_suffix : Option Bytes
  pub maximum_response_bytes : ℕ

-- The outcome of `curl_easy_perform`: CURLcode, whether the size limit was exceeded, and the response.
pub record Transfer : Type 0 where
  pub code : ℕ
  pub exceeded_limit : Bool
  pub response : Response

-- libcurl, the servers behind it, and the flag `RCStopRequested`, which other code sets. A server may
-- answer by all that was sent so far. `parse` is `curl_url_set` with CURLU_DISALLOW_USER and the
-- scheme and host that `curl_url_get` reads off; `resolve` is `curl_url_set` on a base URL.
pub record Network : Type 0 where
  pub parse : Bytes → Option (Bytes × Bytes)
  pub resolve : Bytes → Bytes → Option Bytes
  pub perform : Trace → Transfer
  pub stop_before : Trace → Bool
  pub stop_after : Trace → Bool
