-- ===== src/Dav/Inventory.antt =====
-- `RCListResources`, `RCDAVListResources` and `RCDAVListCalendarResourcesSince` of
-- source/shared/RCDAVClient.c.
use retro_cloud_sync.Prelude.{
  ℕ, zero, suc, Bool, true, false, not, ◌&&◌, ◌||◌, Option, none, some, is_some, List, [], ◌∷◌,
  ◌++◌, ◌==◌, ltb, length, if◌then◌else◌, get_elem?, Bytes, codes, Result, ok, err, ◌>>=◌,
}
use retro_cloud_sync.Http.Model.{Response, Trace, Client, Network}
use retro_cloud_sync.Dav.Tree.{Node, Xml, dav, children, find_child, find_descendant, node_text}
use retro_cloud_sync.Dav.Discover.{
  unset, request_multi_status, resolve_href, property_status_is_successful, successful_property,
  is_response,
}

-- `RCDAVResource`. In a sync report only, no ETag stands for a deletion.
pub record Resource : Type 0 where
  pub url : Bytes
  pub etag : Option Bytes

-- `kInventoryRequest`.
abbrev pub inventory_request : Bytes
inventory_request =
    codes
      "<?xml version=\"1.0\" encoding=\"utf-8\"?><d:propfind xmlns:d=\"DAV:\"><d:prop><d:resourcetype/><d:getetag/></d:prop></d:propfind>"

-- A response with a status of its own that is not 200.
unfoldable pub has_failed : Xml → Node → Bool
has_failed xml node =
    is_some (find_child (codes "status") dav (some node))
    && not (property_status_is_successful xml node)

-- A response for a collection, which is no resource.
unfoldable pub is_collection : Xml → Node → Bool
is_collection xml node =
    is_some (
      find_child (codes "collection") dav (successful_property xml (codes "resourcetype") dav node))

-- What is read of one response for a resource.
unfoldable pub resource_of : Xml → Network → Response → Node → Result Resource
resource_of xml net response node =
    elim (node_text xml (find_child (codes "href") dav (some node))) [
      | none ↦ unset
      | some href ↦ elim (node_text xml (successful_property xml (codes "getetag") dav node)) [
        | none ↦ unset
        | some etag ↦
            resolve_href net response href >>= λ url. ok (record { url = url; etag = some etag })
      ]
    ]

-- The loop of `RCListResources`, with the resources found so far; a failure frees them.
unfoldable pub resources_among :
    Xml → Network → Response → List Resource → List Node → Result (List Resource)
resources_among xml net response found [] = ok found
resources_among xml net response found (node ∷ nodes) = elim (is_response node) [
  | false ↦ resources_among xml net response found nodes
  | true ↦ elim (has_failed xml node) [
    | true ↦ err 1 "DAV inventory contains an unsuccessful resource response"
    | false ↦ elim (is_collection xml node) [
      | true ↦ resources_among xml net response found nodes
      | false ↦ resource_of xml net response node >>= λ resource.
          resources_among xml net response (found ++ resource ∷ []) nodes
    ]
  ]
]

-- `RCListResources` once it has the document.
unfoldable pub inventory_of : Xml → Network → Response → Node → Result (List Resource)
inventory_of xml net response root =
    if is_some (find_descendant (codes "error") dav (some root))
    then err 1 "DAV inventory contains an error or truncated result"
    else resources_among xml net response [] (children root)

-- `RCListResources`.
unfoldable pub list_resources :
    Xml → Network → Client → Bytes → Bytes → Bytes → Trace → Trace × Result (List Resource)
list_resources xml net client url method body trace =
    let (trace', result) = request_multi_status xml net client method url (codes "1") body trace in
    (trace', result >>= λ p. inventory_of xml net p.0 p.1)

-- `RCDAVListResources`.
unfoldable pub list_dav_resources :
    Xml → Network → Client → Bytes → Trace → Trace × Result (List Resource)
list_dav_resources xml net client url trace =
    list_resources xml net client url (codes "PROPFIND") inventory_request trace

abbrev pub char_at : Bytes → ℕ → ℕ
char_at text i = elim (get_elem? text i) [ none ↦ 0 | some c ↦ c ]

-- The loop over the digits: `left` characters from position `i` on.
unfoldable pub has_digits : Bytes → ℕ → Bool
has_digits start zero = true
has_digits start (suc i) =
    has_digits start i && (i == 8 || not (ltb (char_at start i) b'0' || ltb b'9' (char_at start i)))

-- The check of the start before it stands in XML.
unfoldable pub is_utc : Bytes → Bool
is_utc start =
    length start == 16 && char_at start 8 == b'T' && char_at start 15 == b'Z' && has_digits start 15

abbrev pub query_head : Bytes
query_head =
    codes
      "<?xml version=\"1.0\" encoding=\"utf-8\"?><c:calendar-query xmlns:d=\"DAV:\" xmlns:c=\"urn:ietf:params:xml:ns:caldav\"><d:prop><d:getetag/></d:prop><c:filter><c:comp-filter name=\"VCALENDAR\"><c:comp-filter name=\"VEVENT\"><c:time-range start=\""

abbrev pub query_tail : Bytes
query_tail = codes "\"/></c:comp-filter></c:comp-filter></c:filter></c:calendar-query>"

-- `RCDAVListCalendarResourcesSince`: the request of 338 bytes fits in its 512.
unfoldable pub list_calendar_resources_since :
    Xml → Network → Client → Bytes → Option Bytes → Trace → Trace × Result (List Resource)
list_calendar_resources_since xml net client url none trace =
    (trace, err 1 "Calendar history start must be a UTC date-time")
list_calendar_resources_since xml net client url (some start) trace =
    if not (is_utc start)
    then (trace, err 1 "Calendar history start must be a UTC date-time")
    else list_resources xml net client url (codes "REPORT") (query_head ++ start ++ query_tail)
        trace
