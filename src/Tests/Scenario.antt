-- ===== src/Tests/Scenario.antt =====
-- A contact that is edited, written and acknowledged, and a server that behaves.
use retro_cloud_sync.Prelude.{
  true, false, none, some, List, [], ◌∷◌, length, ltb, if◌then◌else◌, Bytes, at, codes, pos,
}
use retro_cloud_sync.Journal.Model.{
  update, queued, applied, conflict, acknowledged, Operation, Db, Io,
}
use retro_cloud_sync.Journal.Calls.{
  Call, set_base_call, enqueue_call, begin_attempt_call, record_result_call, acknowledge_call,
  resolve_conflict_call,
}
use retro_cloud_sync.Http.Model.{Response, Request, Client, Network}
use retro_cloud_sync.Writer.Attempt.{Worker, World}

abbrev pub works : Io
works k = true

abbrev pub key : Bytes
key = codes "uid-1"

abbrev pub href : Bytes
href = codes "https://contacts.icloud.com/card/1.vcf"

abbrev pub old_tag : Bytes
old_tag = codes "\"1\""

abbrev pub new_tag : Bytes
new_tag = codes "\"2\""

abbrev pub old_body : Bytes
old_body = codes "OLD"

abbrev pub new_body : Bytes
new_body = codes "NEW"

abbrev pub publish : Call
publish = set_base_call works 7 (some key) (some href) (some old_tag) (at old_body) (pos 3)

abbrev pub edit : Call
edit =
    enqueue_call works 7 (some (codes "edit")) (some key) (some href) (some update) (pos 3)
      (at new_body)

abbrev pub try_write : Call
try_write = begin_attempt_call works 7 1 (pos 100)

abbrev pub succeed : Call
succeed = record_result_call works 7 1 (some applied) 200 (some new_tag) (at new_body)

abbrev pub collide : Call
collide = record_result_call works 7 1 (some conflict) 200 (some new_tag) (at (codes "OTHER"))

abbrev pub close_edit : Call
close_edit = acknowledge_call works 7 1

-- The whole life of the edit.
abbrev pub edited : List Call
edited = publish ∷ edit ∷ try_write ∷ succeed ∷ close_edit ∷ []

-- The server holds something else, and the conflict is resolved for the local side.
abbrev pub merged : List Call
merged =
    publish
    ∷ edit
    ∷ try_write
    ∷ collide
    ∷ resolve_conflict_call works 7 1 (some update) (at (codes "BOTH")) (at (codes "receipt"))
    ∷ begin_attempt_call works 7 2 (pos 200)
    ∷ record_result_call works 7 2 (some applied) 200 (some (codes "\"3\"")) (at (codes "BOTH"))
    ∷ []

abbrev pub waiting_operation : Operation
waiting_operation = record {
  id = 1;
  account = 7;
  change_id = codes "edit";
  resource_key = key;
  href = href;
  kind = update;
  state = queued;
  local_revision = pos 3;
  base_etag = some old_tag;
  base_body = some old_body;
  desired_body = some new_body;
  attempts = 0;
  retry_at = 0;
  http_status = none;
  result_etag = none;
  result_body = none;
}

abbrev pub done_operation : Operation
done_operation = record waiting_operation {
  state = acknowledged;
  attempts = 1;
  retry_at = 105;
  http_status = some 200;
  result_etag = some new_tag;
  result_body = some new_body;
}

abbrev pub published : Db
published = record {
  bases =
      (record {
        account = 7;
        resource_key = key;
        href = href;
        etag = some old_tag;
        body = old_body;
        local_revision = pos 3;
      })
      ∷ [];
  operations = [];
  resolutions = [];
  attention = [];
  autocommit = true;
}

abbrev pub waiting : Db
waiting = record published { operations = waiting_operation ∷ [] }

abbrev pub done : Db
done = record published { operations = done_operation ∷ [] }

-- A successor that the server took, whose mirror is not saved.
abbrev pub resolved_db : Db
resolved_db = record published {
  operations = (record done_operation { state = applied }) ∷ [];
  resolutions =
      (record {
        operation_id = 9;
        successor_id = 1;
        receipt = codes "receipt";
        mirror_committed = false;
      })
      ∷ [];
}

abbrev pub client : Client
client = record { allowed_host_suffix = some (codes ".icloud.com"); maximum_response_bytes = 1000 }

abbrev pub answer : Bytes → Bytes → Response
answer tag body = record {
  status_code = 200;
  effective_url = none;
  location = none;
  etag = some tag;
  content_type = none;
  body = some body;
}

-- Before the write the server has the old body, and then the new one.
abbrev pub network : Network
network = record {
  parse = λ url. some (codes "https", codes "contacts.icloud.com");
  resolve = λ base location. some location;
  perform = λ trace. record {
    code = 0;
    exceeded_limit = false;
    response = if ltb 1 (length trace) then answer new_tag new_body else answer old_tag old_body;
  };
  stop_before = λ trace. false;
  stop_after = λ trace. false;
}

abbrev pub worker : Worker
worker = record {
  io = works;
  net = network;
  client = client;
  stopped = false;
  account = 7;
  media_type = some (codes "text/vcard");
  now = pos 100;
}

abbrev pub world : World
world = record { db = waiting; trace = [] }

abbrev pub put : Request
put = record {
  method = codes "PUT";
  url = href;
  depth = none;
  content_type = some (codes "text/vcard");
  if_match = some old_tag;
  if_none_match = false;
  destination = none;
  body = some new_body;
}
