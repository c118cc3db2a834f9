-- ===== src/Dav/Discover.antt =====
-- `RCRequireMultiStatus`, `RCDAVDiscoverHref` and `RCDAVListCollections` of
-- source/shared/RCDAVClient.c. Memory does not fail. Where the code returns 0 and sets no error, the
-- model has error 0 with an empty text.
use retro_cloud_sync.Prelude.{
  contains, Bool, true, false, not, ◌||◌, ◌%◌, ◌^◌, Option, none, some, is_some, List, [], ◌∷◌,
  ◌==◌, if◌then◌else◌, Bytes, bytes_of, codes, is_empty, ◌++◌, Result, ok, err, ◌>>=◌,
}
use retro_cloud_sync.Http.Model.{Response, Trace, Client, Network}
use retro_cloud_sync.Http.Request.{client_request}
use retro_cloud_sync.Dav.Tree.{
  Node, Xml, dav, caldav, apple, children, node_is, find_child, find_descendant, node_text,
  parse_xml,
}

abbrev pub unset {ℓ} : {A : Type ℓ} → Result A
unset = err 0 ""

-- `RCRequireMultiStatus`: `(int)response->statusCode` is 32 bits wide.
unfoldable pub require_multi_status : Response → Result (Unit {0})
require_multi_status response =
    if response.status_code == 207
    then ok tt
    else err (response.status_code % 2 ^ 32) "%s returned HTTP %ld"

abbrev pub xml_type : Bytes
xml_type = codes "application/xml; charset=utf-8"

-- The root of an answer that is a multistatus document.
unfoldable pub multi_status_of : Xml → Response → Result (Response × Node)
multi_status_of xml response =
    require_multi_status response >>= λ _. parse_xml xml response >>= λ root. ok (response, root)

-- A request whose answer is a multistatus document: the answer and its root.
unfoldable pub request_multi_status :
    Xml
    → Network
    → Client
    → Bytes
    → Bytes
    → Bytes
    → Bytes
    → Trace
    → Trace × Result (Response × Node)
request_multi_status xml net client method url depth body trace =
    let (trace', result) =
      client_request net client method url (some depth) (some xml_type) (some body) trace in
    (trace', result >>= multi_status_of xml)

-- `RCURLResolve(response.effectiveURL, …)`.
abbrev pub resolve_href : Network → Response → Bytes → Result Bytes
resolve_href net response href = elim (net.resolve (bytes_of response.effective_url) href) [
  | none ↦ err 1 "Could not resolve DAV href"
  | some url ↦ ok url
]

-- `RCPropertyStatusIsSuccessful`.
unfoldable pub property_status_is_successful : Xml → Node → Bool
property_status_is_successful xml propstat =
    elim (node_text xml (find_child (codes "status") dav (some propstat))) [
      | none ↦ false
      | some status ↦ contains (codes " 200 ") status
    ]

-- The loop of `RCSuccessfulProperty`.
unfoldable pub property_among : Xml → Bytes → Bytes → List Node → Option Node
property_among xml name url [] = none
property_among xml name url (propstat ∷ nodes) =
    let rest = property_among xml name url nodes in
    if not (node_is (codes "propstat") dav propstat)
      || not (property_status_is_successful xml propstat)
    then rest
    else elim (find_child name url (find_child (codes "prop") dav (some propstat))) [
      | none ↦ rest
      | some prop ↦ some prop
    ]

-- `RCSuccessfulProperty`.
unfoldable pub successful_property : Xml → Bytes → Bytes → Node → Option Node
successful_property xml name url node = property_among xml name url (children node)

abbrev pub is_response : Node → Bool
is_response = node_is (codes "response") dav

-- The loop of `RCDAVDiscoverHref`: the first response that has the property.
unfoldable pub first_property : Xml → Bytes → Bytes → List Node → Option Node
first_property xml name url [] = none
first_property xml name url (node ∷ nodes) =
    let rest = first_property xml name url nodes in
    if not (is_response node)
    then rest
    else elim (successful_property xml name url node) [ none ↦ rest | some prop ↦ some prop ]

-- `RCDAVDiscoverHref`.
unfoldable pub discover_href :
    Xml → Network → Client → Bytes → Bytes → Bytes → Bytes → Trace → Trace × Result Bytes
discover_href xml net client url body name namespace trace =
    let (trace', result) =
      request_multi_status xml net client (codes "PROPFIND") url (codes "0") body trace in
    (
      trace',
      result >>= λ p.
          elim (node_text xml (
            find_descendant (codes "href") dav
              (first_property xml name namespace (children p.1)))) [
                | none ↦ err 1 "DAV discovery response omitted %s"
                | some href ↦ resolve_href net p.0 href
              ],
    )

-- `RCDAVCollection`.
pub record Collection : Type 0 where
  pub url : Bytes
  pub display_name : Option Bytes
  pub description : Option Bytes
  pub color : Option Bytes
  pub sync_token : Option Bytes
  pub supports_sync : Bool

-- `kCollectionsRequest`.
abbrev pub collections_request : Bytes
collections_request =
    codes
      "<?xml version=\"1.0\" encoding=\"utf-8\"?><d:propfind xmlns:d=\"DAV:\" xmlns:c=\"urn:ietf:params:xml:ns:caldav\" xmlns:a=\"http://apple.com/ns/ical/\"><d:prop><d:resourcetype/><d:displayname/><d:sync-token/><d:supported-report-set/><c:calendar-description/><a:calendar-color/><c:supported-calendar-component-set/></d:prop></d:propfind>"

-- An empty sync token is none.
abbrev pub token_or_null : Option Bytes → Option Bytes
token_or_null none = none
token_or_null (some token) = if is_empty token then none else some token

-- What is read of one response that is a collection of the type.
unfoldable pub collection_of : Xml → Network → Response → Node → Result Collection
collection_of xml net response node =
    let token =
      token_or_null (node_text xml (successful_property xml (codes "sync-token") dav node)) in
    elim (node_text xml (find_child (codes "href") dav (some node))) [
      | none ↦ unset
      | some href ↦ resolve_href net response href >>= λ url. ok (record {
        url = url;
        display_name = node_text xml (successful_property xml (codes "displayname") dav node);
        description =
            node_text xml (successful_property xml (codes "calendar-description") caldav node);
        color = node_text xml (successful_property xml (codes "calendar-color") apple node);
        sync_token = token;
        supports_sync =
            is_some token
            || is_some (
                find_descendant (codes "sync-collection") dav
                  (successful_property xml (codes "supported-report-set") dav node));
      })
    ]

-- The loop of `RCDAVListCollections`, with the collections found so far; a failure frees them.
unfoldable pub collections_among :
    Xml
    → Network
    → Response
    → Bytes
    → Bytes
    → List Collection
    → List Node
    → Result (List Collection)
collections_among xml net response type namespace found [] = ok found
collections_among xml net response type namespace found (node ∷ nodes) = elim (is_response node) [
  | false ↦ collections_among xml net response type namespace found nodes
  | true ↦ elim (successful_property xml (codes "resourcetype") dav node) [
    | none ↦ err 1 "Collection listing omitted a successful resource type"
    | some resource_type ↦ elim (is_some (find_child type namespace (some resource_type))) [
      | false ↦ collections_among xml net response type namespace found nodes
      | true ↦ collection_of xml net response node >>= λ collection.
          collections_among xml net response type namespace (found ++ collection ∷ []) nodes
    ]
  ]
]

-- `RCDAVListCollections`.
unfoldable pub list_collections :
    Xml → Network → Client → Bytes → Bytes → Bytes → Trace → Trace × Result (List Collection)
list_collections xml net client home type namespace trace =
    let (trace', result) =
      request_multi_status xml net client (codes "PROPFIND") home (codes "1") collections_request
        trace in
    (trace', result >>= λ p. collections_among xml net p.0 type namespace [] (children p.1))
