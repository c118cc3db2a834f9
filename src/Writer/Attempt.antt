-- ===== src/Writer/Attempt.antt =====
-- `RCDAVWriterAttempt` of source/shared/RCDAVWriter.c, over the journal and the HTTP client.
use retro_cloud_sync.Prelude.{
  ℕ, ◌+◌, Bool, true, false, not, ◌&&◌, ◌||◌, Option, none, some, ltb, leb, ◌==◌, if◌then◌else◌,
  Bytes, Buffer, null, at, bytes_of, codes, ℤ, same, is_empty, is_some, Result, ok, err, ◌>>=◌,
}
use retro_cloud_sync.Journal.Model.{
  Kind, State, uncertain, applied, conflict, is_create, is_delete, Operation, Db, Io,
}
use retro_cloud_sync.Journal.Attempt.{get, begin_attempt, record_result}
use retro_cloud_sync.Journal.Etag.{etag_is_strong}
use retro_cloud_sync.Http.Model.{Response, Trace, Client, Network}
use retro_cloud_sync.Http.Request.{client_request, conditional_request, cancelled_code}

abbrev pub is_missing : Option Bytes → Bool
is_missing none = true
is_missing (some body) = is_empty body

-- What one attempt works with: the statements of the journal, the network, the HTTP client, whether
-- shutdown was requested at the start, the account, the media type and the time.
pub record Worker : Type 0 where
  pub io : Io
  pub net : Network
  pub client : Client
  pub stopped : Bool
  pub account : ℕ
  pub media_type : Option Bytes
  pub now : ℤ

-- The journal and the requests sent so far.
pub record World : Type 0 where
  pub db : Db
  pub trace : Trace

-- `memcmp` of two bodies of one length, both there.
unfoldable pub holds : Option Bytes → Option Bytes → Bool
holds (some a) (some b) = same a b
holds _ _ = false

-- `desired`: the server holds exactly the desired body, under a strong tag.
unfoldable pub desired : Operation → Response → Bool
desired o r = r.status_code == 200 && etag_is_strong r.etag && holds r.body o.desired_body

abbrev pub body_buffer : Option Bytes → Buffer
body_buffer none = null 0
body_buffer (some body) = at body

-- `record`: only the body of a resource is kept. Statements 3 and 4 of the journal are its.
unfoldable pub record_response : Worker → ℕ → State → Response → World → World × Result (Unit {0})
record_response w id state r world =
    let (db', result) =
      record_result (λ k. w.io (3 + k)) w.account id (some state) r.status_code r.etag
        (if r.status_code == 200 then body_buffer r.body else null 0) world.db in
    (record world { db = db' }, result)

-- A changed canonical URL is an error.
unfoldable pub check_url : Bytes → Response → Result Response
check_url href r = elim r.effective_url [
  | none ↦ err 1 "Outgoing resource changed its canonical URL"
  | some url ↦ if same url href then ok r else err 1 "Outgoing resource changed its canonical URL"
]

-- `get`: a GET that ends at the URL it was made to.
unfoldable pub get_resource : Worker → Bytes → Trace → Trace × Result Response
get_resource w href trace =
    let (trace', result) = client_request w.net w.client (codes "GET") href none none none trace in
    (trace', result >>= check_url href)

abbrev pub found_or_gone : Response → Bool
found_or_gone r = r.status_code == 200 || r.status_code == 404

-- A GET, and what is done with its answer.
unfoldable pub with_resource :
    Worker
    → Bytes
    → (Response → World → World × Result (Unit {0}))
    → World
    → World × Result (Unit {0})
with_resource w href next world =
    let (trace', result) = get_resource w href world.trace in
    elim result [
      | err c m ↦ (record world { trace = trace' }, err c m)
      | ok r ↦ next r (record world { trace = trace' })
    ]

-- The server is seen to hold what the operation wants.
unfoldable pub is_wanted : Operation → Response → Bool
is_wanted o r =
    (is_delete o.kind && r.status_code == 404) || (not (is_delete o.kind) && desired o r)

-- The tag of the write response is the strong tag of what the server now holds.
unfoldable pub is_written : Response → Response → Bool
is_written written remote =
    remote.status_code == 200
    && not (is_missing remote.body)
    && etag_is_strong written.etag
    && etag_is_strong remote.etag
    && same (bytes_of written.etag) (bytes_of remote.etag)

abbrev pub conflict_or_uncertain : Response → State
conflict_or_uncertain r = if found_or_gone r then conflict else uncertain

-- The last GET, after the server accepted the write.
unfoldable pub verify_write : Worker → Operation → Response → World → World × Result (Unit {0})
verify_write w o written = with_resource w o.href λ remote.
    record_response w o.id
      (if is_wanted o remote || (not (is_delete o.kind) && is_written written remote)
        then applied
        else conflict_or_uncertain remote)
      remote

-- After the server answered the write.
unfoldable pub after_write : Worker → Operation → Response → World → World × Result (Unit {0})
after_write w o written world =
    if written.status_code == 412
    then with_resource w o.href
        (λ remote. record_response w o.id (conflict_or_uncertain remote) remote) world
    else if ltb written.status_code 200 || leb 300 written.status_code
    then record_response w o.id uncertain written world
    else verify_write w o written world

abbrev pub method_of : Kind → Bytes
method_of kind = if is_delete kind then codes "DELETE" else codes "PUT"

-- The conditional write itself.
unfoldable pub send_write : Worker → Operation → Trace → Trace × Result Response
send_write w o trace =
    conditional_request w.net w.client (method_of o.kind) o.href w.media_type
      (body_buffer o.desired_body) (if is_create o.kind then none else o.base_etag)
      (is_create o.kind) trace

unfoldable pub write : Worker → Operation → World → World × Result (Unit {0})
write w o world =
    let (trace', result) = send_write w o world.trace in
    elim result [
      | err c m ↦ (record world { trace = trace' }, err c m)
      | ok written ↦ after_write w o written (record world { trace = trace' })
    ]

-- The first GET shows another revision than the one that the operation is pinned to.
unfoldable pub is_diverged : Operation → Response → Bool
is_diverged o r =
    (is_create o.kind && not (r.status_code == 404))
    || (not (is_create o.kind)
        && (not (r.status_code == 200)
            || not (is_some r.etag)
            || not (same (bytes_of o.base_etag) (bytes_of r.etag))))

-- After the first GET.
unfoldable pub decide : Worker → Operation → Response → World → World × Result (Unit {0})
decide w o remote world =
    if is_wanted o remote
    then record_response w o.id applied remote world
    else if not (found_or_gone remote)
    then record_response w o.id uncertain remote world
    else if is_diverged o remote
    then record_response w o.id conflict remote world
    else write w o world

-- The operation can be written under a condition.
unfoldable pub has_precondition : Operation → Bool
has_precondition o = not (
    (not (is_create o.kind) && not (etag_is_strong o.base_etag))
    || (not (is_delete o.kind) && is_missing o.desired_body))

-- `RCDAVWriterAttempt`: statement 0 of the journal reads the operation, 1 and 2 begin the attempt.
unfoldable pub attempt : Worker → ℕ → World → World × Result (Unit {0})
attempt w id world =
    if w.stopped
    then (world, err cancelled_code "Shutdown requested")
    else elim (get w.io w.account id world.db) [
      | err c m ↦ (world, err c m)
      | ok o ↦
          if not (has_precondition o)
          then (world, err 1 "Outgoing operation has an invalid durable precondition")
          else let (db', begun) = begin_attempt (λ k. w.io (1 + k)) w.account id w.now world.db in
            elim begun [
              | err c m ↦ (record world { db = db' }, err c m)
              | ok _ ↦ with_resource w o.href (decide w o) (record world { db = db' })
            ]
    ]
