-- ===== src/Dav/Collect.antt =====
-- `RCDAVSyncCollection` of source/shared/RCDAVClient.c: one page, and the loop over the pages.
use retro_cloud_sync.Prelude.{
  ℕ, zero, suc, Bool, true, false, not, ◌&&◌, ◌||◌, Option, none, some, is_some, List, [], ◌∷◌,
  ◌++◌, ◌==◌, ltb, length, any, if◌then◌else◌, Bytes, bytes_of, codes, same, is_empty, Result, ok,
  err,
}
use Prim.Native.String.{String}
use retro_cloud_sync.Http.Model.{Response, Trace, Client, Network}
use retro_cloud_sync.Http.Request.{client_request, cancelled_code}
use retro_cloud_sync.Dav.Tree.{Node, Xml, XmlDocument, dav, children, node_is, find_child}
use retro_cloud_sync.Dav.Discover.{xml_type}
use retro_cloud_sync.Dav.Inventory.{Resource}
use retro_cloud_sync.Dav.Pages.{Page, empty_page, sync_nodes}

abbrev pub longest_token : ℕ
longest_token = 16384

abbrev pub page_limit : ℕ
page_limit = 1024

abbrev pub sync_head : Bytes
sync_head =
    codes
      "<?xml version=\"1.0\" encoding=\"utf-8\"?><d:sync-collection xmlns:d=\"DAV:\"><d:sync-token>"

abbrev pub sync_tail : Bytes
sync_tail =
    codes
      "</d:sync-token><d:sync-level>1</d:sync-level><d:limit><d:nresults>200</d:nresults></d:limit><d:prop><d:getetag/></d:prop></d:sync-collection>"

-- What an answer to one report is: a page, a reason to fall back to a full scan, or a failure, with
-- error 0 where the code sets none.
pub data Answer : Type 0 where
  a_page : Page → Answer
  falls_back : Answer
  fails : ℕ → String → Answer

-- An error document: the token or the report is refused, or the scan is too large.
unfoldable pub is_fallback : ℕ → Node → Bool
is_fallback status root =
    ((status == 403 || status == 409)
      && (is_some (find_child (codes "valid-sync-token") dav (some root))
          || is_some (find_child (codes "supported-report") dav (some root))))
    || (status == 507
        && is_some (find_child (codes "number-of-matches-within-limits") dav (some root)))

abbrev pub page_or_failure : Result Page → Answer
page_or_failure (ok page) = a_page page
page_or_failure (err c m) = fails c m

-- From `root = xmlDocGetRootElement(doc)` to the end of the loop over the nodes.
unfoldable pub read_root : Xml → Network → Response → Option Node → Answer
read_root xml net response none = fails 0 ""
read_root xml net response (some root) =
    if node_is (codes "error") dav root
    then (if is_fallback response.status_code root then falls_back else fails 0 "")
    else if not (response.status_code == 207) || not (node_is (codes "multistatus") dav root)
    then fails 0 ""
    else page_or_failure (sync_nodes xml net response (children root) empty_page)

abbrev pub read_document : Xml → Network → Response → Option XmlDocument → Answer
read_document xml net response none = fails 0 ""
read_document xml net response (some document) =
    if document.has_dtd then fails 0 "" else read_root xml net response document.root

unfoldable pub read_answer : Xml → Network → Response → Answer
read_answer xml net response =
    if response.status_code == 405 || response.status_code == 501
    then falls_back
    else if ltb 2147483647 (length (bytes_of response.body))
    then fails 0 ""
    else read_document xml net response (xml.read response.body response.effective_url)

-- The checks behind the loop over the nodes: `tokens` are those used so far.
unfoldable pub is_usable_page : List Bytes → Page → Bool
is_usable_page tokens page =
    let returned = bytes_of page.returned in
    not (
      not (page.token_nodes == 1)
      || is_empty returned
      || ltb longest_token (length returned)
      || (page.more && is_empty page.changes)
      || ((page.more || not (is_empty page.changes)) && any (same returned) tokens))

-- `RCDAVSyncFailed`, `RCDAVSyncComplete` with the token, `RCDAVSyncFallback`.
pub data Synced : Type 0 where
  sync_failed : ℕ → String → Synced
  sync_complete : Bytes → Synced
  sync_fallback : Synced

-- What a page leaves: the result, or the token of the next page.
pub data Turn : Type 0 where
  stop : Synced → Turn
  next_page : Bytes → Turn

abbrev pub Callback : Type 0 → Type 0
Callback World = List Resource → World → World × Result (Unit {0})

abbrev pub called :
    {World : Type 0} → Option (Callback World) → List Resource → World → World × Result (Unit {0})
called none changes world = (world, ok tt)
called (some callback) changes world = callback changes world

-- The error that is set where none is.
abbrev pub with_error : Synced → Synced
with_error (sync_failed zero m) =
    sync_failed 1 "Incomplete, invalid, or excessive DAV sync response"
with_error (sync_failed (suc c) m) = sync_failed (suc c) m
with_error (sync_complete token) = sync_complete token
with_error sync_fallback = sync_fallback

abbrev pub turn_of : Page → Result (Unit {0}) → Turn
turn_of page (err c m) = stop (sync_failed c m)
turn_of page (ok _) =
    if page.more
    then next_page (bytes_of page.returned)
    else stop (sync_complete (bytes_of page.returned))

module _ {World : Type 0} (xml : Xml) (net : Network) (cancelled : World → Bool)
    (callback : Option (Callback World)) where
  -- From the checks of a page to the end of the turn.
  unfoldable pub take_page : List Bytes → Page → World → World × Turn
  take_page tokens page world =
      if not (is_usable_page tokens page)
      then (world, stop (sync_failed 0 ""))
      else let (world', result) = called callback page.changes world in
        (world', turn_of page result)

  unfoldable pub take_answer : List Bytes → Answer → World → World × Turn
  take_answer tokens (a_page page) world = take_page tokens page world
  take_answer tokens falls_back world = (world, stop sync_fallback)
  take_answer tokens (fails c m) world = (world, stop (sync_failed c m))

  -- One turn of the loop; `token` is `tokens[tokenCount - 1]`, and the others stand behind it.
  unfoldable pub sync_page :
      Client → Bytes → Bytes → List Bytes → Trace → World → Trace × (World × Turn)
  sync_page client url token tokens trace world =
      if ltb longest_token (length token)
      then (trace, (world, stop (sync_failed 0 "")))
      else let (trace', result) =
          client_request net client (codes "REPORT") url (some (codes "0")) (some xml_type)
            (some (sync_head ++ xml.escape token ++ sync_tail)) trace in
        (
          trace',
          elim result [
            | err c m ↦ (world, stop (sync_failed c m))
            | ok response ↦ take_answer (token ∷ tokens) (read_answer xml net response) world
          ],
        )

  -- The loop, with the pages left.
  unfoldable pub sync_pages :
      ℕ → Client → Bytes → Bytes → List Bytes → Trace → World → Trace × (World × Synced)
  sync_pages zero client url token tokens trace world = (trace, (world, sync_failed 0 ""))
  sync_pages (suc pages) client url token tokens trace world = elim (cancelled world) [
    | true ↦ (trace, (world, sync_failed cancelled_code "Shutdown requested"))
    | false ↦
        let (trace', after) = sync_page client url token tokens trace world in
        elim after.1 [
          | stop result ↦ (trace', (after.0, result))
          | next_page returned ↦
              sync_pages pages client url returned (token ∷ tokens) trace' after.0
        ]
  ]

  -- `RCDAVSyncCollection`; the error is clear when it starts.
  unfoldable pub sync_collection :
      Client → Bytes → Option Bytes → Trace → World → Trace × (World × Synced)
  sync_collection client url token trace world =
      let (trace', after) = sync_pages page_limit client url (bytes_of token) [] trace world in
      (trace', (after.0, with_error after.1))
