-- ===== src/Dav/Tree.antt =====
-- The walk over an XML answer in source/shared/RCDAVClient.c. libxml2 is a parameter: reading a
-- document, the content of a node, and the escaping of a text.
use retro_cloud_sync.Prelude.{
  Bool, false, ◌&&◌, Option, none, some, List, [], ◌∷◌, find, ltb, length, if◌then◌else◌, Bytes,
  bytes_of, codes, same, Result, ok, err,
}
use retro_cloud_sync.Http.Model.{Response}

-- A node: an element with its name, the URL of its namespace and its children, or a text or the like.
mutual
  pub data Node : Type 0 where
    element : Bytes → Option Bytes → Nodes → Node
    leaf : Bytes → Node

  pub data Nodes : Type 0 where
    nothing : Nodes
    next_to : Node → Nodes → Nodes

-- What `xmlReadMemory` returns: the root element, if there is one, and whether there is a DTD.
pub record XmlDocument : Type 0 where
  pub root : Option Node
  pub has_dtd : Bool

-- libxml2. `read` has the body and the base URL, `content` is `xmlNodeGetContent`, `escape` is
-- `xmlEncodeSpecialChars`.
pub record Xml : Type 0 where
  pub read : Option Bytes → Option Bytes → Option XmlDocument
  pub content : Node → Option Bytes
  pub escape : Bytes → Bytes

abbrev pub dav : Bytes
dav = codes "DAV:"

abbrev pub caldav : Bytes
caldav = codes "urn:ietf:params:xml:ns:caldav"

abbrev pub apple : Bytes
apple = codes "http://apple.com/ns/ical/"

unfoldable pub list_of : Nodes → List Node
list_of nothing = []
list_of (next_to node nodes) = node ∷ list_of nodes

unfoldable pub children : Node → List Node
children (element name namespace nodes) = list_of nodes
children (leaf text) = []

-- `RCNodeIs`; `xmlStrcmp` compares bytes.
unfoldable pub node_is : Bytes → Bytes → Node → Bool
node_is name url (element own (some namespace) nodes) = same own name && same namespace url
node_is name url (element own none nodes) = false
node_is name url (leaf text) = false

-- `RCFindChild`.
unfoldable pub find_child : Bytes → Bytes → Option Node → Option Node
find_child name url none = none
find_child name url (some parent) = find (node_is name url) (children parent)

-- The loop of `RCFindDescendant` over siblings, its recursion into a child put in line.
unfoldable mutual
  pub find_inside : Bytes → Bytes → Node → Option Node
  find_inside name url (element own namespace nodes) = find_among name url nodes
  find_inside name url (leaf text) = none

  pub find_among : Bytes → Bytes → Nodes → Option Node
  find_among name url nothing = none
  find_among name url (next_to child nodes) =
      let found = find_inside name url child in
      let rest = find_among name url nodes in
      if node_is name url child
      then some child
      else elim found [ some node ↦ some node | none ↦ rest ]

-- `RCFindDescendant`.
unfoldable pub find_descendant : Bytes → Bytes → Option Node → Option Node
find_descendant name url none = none
find_descendant name url (some parent) = find_inside name url parent

-- `RCNodeText`.
unfoldable pub node_text : Xml → Option Node → Option Bytes
node_text xml none = none
node_text xml (some node) = xml.content node

abbrev pub root_of : Option Node → Result Node
root_of none = err 1 "DAV response is not a multistatus document"
root_of (some node) =
    if node_is (codes "multistatus") dav node
    then ok node
    else err 1 "DAV response is not a multistatus document"

-- `RCParseXML`, which returns the document: only its root is used.
unfoldable pub parse_xml : Xml → Response → Result Node
parse_xml xml response =
    if ltb 2147483647 (length (bytes_of response.body))
    then err 1 "DAV XML response is too large"
    else elim (xml.read response.body response.effective_url) [
      | none ↦ err 1 "Could not parse DAV XML response"
      | some document ↦
          if document.has_dtd then err 1 "DAV XML must not contain a DTD" else root_of document.root
    ]
