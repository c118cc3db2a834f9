-- ===== src/Tests/Syncing.antt =====
-- The theorems on the stage, the sync state and the DAV client at one collection of two contacts.
use retro_cloud_sync.Prelude.{
  contains, ◌≡◌, ◌↔◌, ◌⊎◌, refl, true, false, Option, none, some, List, [], ◌∷◌, codes, Bytes, All,
  ok, same_case, to_lower, same, find, starts_with, null,
}
use retro_cloud_sync.Http.Model.{Response, Network}
use retro_cloud_sync.Http.Request.{
  client_request, is_mutation, perform_request, request_rounds, validate_destination,
  after_transfer, transfer, redirect_target,
}
use retro_cloud_sync.Http.Receive.{host_has_suffix}
use retro_cloud_sync.Sync.Staging.{seen, deleted, stage_apply}
use retro_cloud_sync.Sync.Staged.{
  StageCall, reset_call, save_call, stage_run, apply_log, log_of, stage_apply-stage_run,
}
use retro_cloud_sync.Sync.Tokens.{sync_state_load, columns}
use retro_cloud_sync.Sync.Committed.{
  SyncCall, save_token, finish_run, sync_run, noted_run, sync_state_load-sync_run,
}
use retro_cloud_sync.Dav.Tree.{
  Node, element, leaf, nothing, next_to, Xml, dav, parse_xml, node_is, children, find_child,
  find_descendant, find_inside, list_of, node_text,
}
use retro_cloud_sync.Dav.Discover.{
  xml_type, request_multi_status, multi_status_of, require_multi_status, property_among,
  property_status_is_successful, successful_property,
}
use retro_cloud_sync.Dav.Inventory.{
  Resource, has_failed, inventory_of, is_collection, resource_of, resources_among, list_resources,
  inventory_request, list_calendar_resources_since,
}
use retro_cloud_sync.Dav.Inventoried.{IsListed, list_resources_ok}
use retro_cloud_sync.Dav.Pages.{is_sync_collection_url, has_query}
use retro_cloud_sync.Dav.Collect.{sync_collection, sync_page, Callback}
use retro_cloud_sync.Dav.Changes.{IsChange}
use retro_cloud_sync.Dav.Synced.{sync_collection-kept}
use retro_cloud_sync.Dav.Turns.{IsTurn, IsOutcome, sync_page-IsTurn, sync_collection-IsOutcome}
use retro_cloud_sync.Dav.Reports.{Reports, sync_collection-Reports}
use retro_cloud_sync.Dav.Urls.{without_slash, is_sync_collection_url_iff}
use retro_cloud_sync.Dav.Since.{IsRefused, IsQueried, list_calendar_resources_since_lem}
use retro_cloud_sync.Tests.Scenario.{works, client}

abbrev home : Bytes
home = codes "/addressbooks/1/"

abbrev ada : Bytes
ada = codes "/addressbooks/1/ada.vcf"

abbrev staged : List StageCall
staged =
    save_call works 1 seen (some ada) none (null 0)
    ∷ reset_call works 1
    ∷ save_call works 2 seen (some home) none (null 0)
    ∷ save_call works 1 deleted (some ada) none (null 0)
    ∷ []

-- A callback that counts.
stage_apply-stage_run_example :
    stage_apply
      (λ world. false)
      (λ entry world. (entry ∷ world, ok tt))
      works
      1
      (stage_run staged [])
      []
    ≡ apply_log
        (λ world. false)
        (λ entry world. (entry ∷ world, ok tt))
        works
        1
        (log_of 1 staged [])
        []
stage_apply-stage_run_example =
    stage_apply-stage_run (λ world. false) (λ entry world. (entry ∷ world, ok tt)) works 1 staged []
      refl

abbrev saved : List SyncCall
saved =
    save_token true works 7 home (some (codes "t1")) none 1
    ∷ save_token true works 7 ada (some (codes "t2")) none 2
    ∷ finish_run true works 7 2
    ∷ []

sync_state_load-sync_run_example :
    sync_state_load works 7 ada (sync_run saved (record { autocommit = true; table = none }))
    ≡ ok (columns (noted_run 7 ada saved none))
sync_state_load-sync_run_example = sync_state_load-sync_run works 7 ada saved refl refl refl

abbrev text_node : Bytes → Bytes → Node
text_node name text = element name (some dav) (next_to (leaf text) nothing)

abbrev etag_property : Node
etag_property = element (codes "propstat") (some dav) (
    next_to (text_node (codes "status") (codes "HTTP/1.1 200 OK")) (
      next_to
        (element (codes "prop") (some dav)
          (next_to (text_node (codes "getetag") (codes "\"2\"")) nothing))
        nothing))

abbrev listing : Node
listing = element (codes "multistatus") (some dav) (
    next_to
      (element (codes "response") (some dav)
        (next_to (text_node (codes "href") ada) (next_to etag_property nothing)))
      (next_to (text_node (codes "sync-token") (codes "t2")) nothing))

abbrev text_of : Node → Option Bytes
text_of (element name namespace (next_to (leaf text) nothing)) = some text
text_of _ = none

abbrev library : Xml
library = record {
  read = λ body url. some (record { root = some listing; has_dtd = false });
  content = text_of;
  escape = λ text. text;
}

abbrev listed : Response
listed = record {
  status_code = 207;
  effective_url = none;
  location = none;
  etag = none;
  content_type = none;
  body = some (codes "<multistatus>");
}

abbrev server : Network
server = record {
  parse = λ url. some (codes "https", codes "contacts.icloud.com");
  resolve = λ base href. some href;
  perform = λ trace. record { code = 0; exceeded_limit = false; response = listed };
  stop_before = λ trace. false;
  stop_after = λ trace. false;
}

abbrev contact : Resource
contact = record { url = ada; etag = some (codes "\"2\"") }

list_resources_ok_example :
    IsListed library server
      (client_request server client
        (codes "PROPFIND")
        home
        (some (codes "1"))
        (some xml_type)
        (some inventory_request)
        []).1
      (contact ∷ [])
unfolding list_resources request_multi_status client_request is_mutation same_case to_lower
    perform_request request_rounds validate_destination host_has_suffix after_transfer transfer
    multi_status_of require_multi_status parse_xml node_is same property_among
    property_status_is_successful successful_property has_failed inventory_of is_collection
    resource_of resources_among children contains find_child find_descendant find_inside list_of
    node_text redirect_target find starts_with
list_resources_ok_example =
    list_resources_ok library server client home (codes "PROPFIND") inventory_request []
      {resources = contact ∷ []} refl

abbrev keep_page : Option (Callback (List Resource))
keep_page = some (λ changes world. (changes, ok tt))

sync_collection-kept_example :
    All IsChange
      (sync_collection library server (λ world. false) keep_page client home none [] []).1.0
sync_collection-kept_example =
    sync_collection-kept library server (λ world. false) keep_page (All IsChange)
      (λ changes world h p. h.0) client home none [] [] tt

sync_page-IsTurn_example :
    IsTurn
      (codes "t1" ∷ [])
      (sync_page library server (λ world. false) keep_page client home (codes "t1") [] [] []).1.1
sync_page-IsTurn_example =
    sync_page-IsTurn library server (λ world. false) keep_page client home (codes "t1") [] [] []

sync_collection-IsOutcome_example :
    IsOutcome (sync_collection library server (λ world. false) keep_page client home none [] []).1.1
sync_collection-IsOutcome_example =
    sync_collection-IsOutcome library server (λ world. false) keep_page client home none [] []

sync_collection-Reports_example :
    Reports server client [] 6144
      (sync_collection library server (λ world. false) keep_page client home none [] []).0
sync_collection-Reports_example =
    sync_collection-Reports server client library (λ world. false) keep_page home none [] []

is_sync_collection_url_iff_example :
    (is_sync_collection_url home (codes "/addressbooks/1") ≡ true) ↔ (
      (home ≡ codes "/addressbooks/1")
      ⊎ ((has_query home ≡ false)
          × (has_query (codes "/addressbooks/1") ≡ false)
          × (without_slash home ≡ without_slash (codes "/addressbooks/1"))))
is_sync_collection_url_iff_example = is_sync_collection_url_iff home (codes "/addressbooks/1")

list_calendar_resources_since_lem_example :
    let start = some (codes "20240131T000000Z") in
    let after = list_calendar_resources_since library server client home start [] in
    IsRefused start [] after ⊎ IsQueried library server client home start [] after
list_calendar_resources_since_lem_example =
    list_calendar_resources_since_lem library server client home (some (codes "20240131T000000Z"))
      []
