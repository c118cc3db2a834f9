-- ===== src/Dav/Pages.antt =====
-- `RCIsSyncCollectionURL` and `RCDAVSyncCollection` of source/shared/RCDAVClient.c.
use retro_cloud_sync.Prelude.{
  ℕ, ◌+◌, ◌-◌, ◌*◌, Bool, true, false, not, ◌&&◌, ◌||◌, Option, none, some, is_some, List, [], ◌∷◌,
  ◌++◌, ◌==◌, leb, length, take, any, if◌then◌else◌, Bytes, bytes_of, codes, same, is_empty, ℤ, pos,
  eq_ℤ, negsuc, Result, ok, ◌>>=◌,
}
use retro_cloud_sync.Http.Model.{Response, Network}
use retro_cloud_sync.Dav.Tree.{Node, Xml, dav, node_is, find_child, find_descendant, node_text}
use retro_cloud_sync.Dav.Discover.{unset, resolve_href, successful_property, is_response}
use retro_cloud_sync.Dav.Inventory.{Resource, char_at}

abbrev pub has_query : Bytes → Bool
has_query url = any (λ c. c == b'?') url || any (λ c. c == b'#') url

-- A length without the slash at the end.
abbrev pub slashless : Bytes → ℕ
slashless url =
    if not (length url == 0) && char_at url (length url - 1) == b'/'
    then length url - 1
    else length url

-- `RCIsSyncCollectionURL`.
unfoldable pub is_sync_collection_url : Bytes → Bytes → Bool
is_sync_collection_url href collection =
    if same href collection
    then true
    else if has_query href || has_query collection
    then false
    else slashless href == slashless collection
      && same (take (slashless href) href) (take (slashless href) collection)

-- `isspace` in the C locale.
abbrev pub is_blank : ℕ → Bool
is_blank c = c == b' ' || (leb 9 c && leb c 13)

unfoldable pub drop_blank : Bytes → Bytes
drop_blank [] = []
drop_blank (c ∷ text) = let rest = drop_blank text in if is_blank c then rest else c ∷ text

unfoldable pub drop_word : Bytes → Bytes
drop_word [] = []
drop_word (c ∷ text) = let rest = drop_word text in if is_blank c then c ∷ text else rest

abbrev pub is_digit : ℕ → Bool
is_digit c = leb b'0' c && leb c b'9'

-- The number in front of a text.
unfoldable pub digits_of : ℕ → Bytes → ℕ
digits_of n [] = n
digits_of n (c ∷ text) =
    let rest = digits_of (n * 10 + (c - b'0')) text in if is_digit c then rest else n

abbrev starts_digit : Bytes → Bool
starts_digit [] = false
starts_digit (c ∷ _) = is_digit c

-- `%d`: a sign and at least one digit; 0 stays where there are none. A number that does not fit in an int,
-- which C leaves undefined, is kept as it is.
unfoldable pub scan_number : Bytes → ℤ
scan_number [] = pos 0
scan_number (c ∷ text) =
    if c == b'-'
    then (if starts_digit text && not (digits_of 0 text == 0)
        then negsuc (digits_of 0 text - 1)
        else pos 0)
    else if c == b'+'
    then (if starts_digit text then pos (digits_of 0 text) else pos 0)
    else if is_digit c
    then pos (digits_of 0 (c ∷ text))
    else pos 0

abbrev strip_http : Bytes → Option Bytes
strip_http (h ∷ t ∷ u ∷ p ∷ s ∷ text) =
    if same (h ∷ t ∷ u ∷ p ∷ s ∷ []) (codes "HTTP/") then some (drop_blank text) else none
strip_http _ = none

-- `code` behind `if (status) sscanf(status, "HTTP/%*s %d", &code)`.
unfoldable pub code_of : Option Bytes → ℤ
code_of none = pos 0
code_of (some status) = elim (strip_http status) [
  | none ↦ pos 0
  | some [] ↦ pos 0
  | some (c ∷ text) ↦ scan_number (drop_blank (drop_word (c ∷ text)))
]

-- What a page has collected: the number of tokens, the token, whether more pages follow, the changes.
pub record Page : Type 0 where
  pub token_nodes : ℕ
  pub returned : Option Bytes
  pub more : Bool
  pub changes : List Resource

abbrev pub empty_page : Page
empty_page = record { token_nodes = 0; returned = none; more = false; changes = [] }

abbrev pub lists : Bytes → Resource → Bool
lists url resource = same resource.url url

-- A change is kept if it has an ETag or is a deletion, and its URL is not in the page yet.
unfoldable pub append_change : Bytes → Bool → Option Bytes → Page → Result Page
append_change resolved deleted etag page =
    if not deleted && is_empty (bytes_of etag)
    then unset
    else if any (lists resolved) page.changes
    then unset
    else ok
        (record page { changes = page.changes ++ (record { url = resolved; etag = etag }) ∷ [] })

-- The rest of a turn of the loop over the nodes, from `status` on.
unfoldable pub sync_response : Xml → Response → Node → Bytes → Page → Result Page
sync_response xml response node resolved page =
    let status = node_text xml (find_child (codes "status") dav (some node)) in
    let code = code_of status in
    let collection = is_sync_collection_url resolved (bytes_of response.effective_url) in
    let propstat = is_some (find_child (codes "propstat") dav (some node)) in
    let has_error = is_some (find_descendant (codes "error") dav (some node)) in
    let getetag = successful_property xml (codes "getetag") dav node in
    let deleted = eq_ℤ code (pos 404) in
    if eq_ℤ code (pos 507) && collection && not page.more && not propstat
    then ok (record page { more = true })
    else if collection && not (is_some status) && not has_error && is_some getetag
    then ok page
    else if (is_some status && (not deleted || propstat)) || collection || has_error
    then unset
    else append_change resolved deleted (if deleted then none else node_text xml getetag) page

-- The URL of a response.
unfoldable pub member_url : Xml → Network → Response → Node → Result Bytes
member_url xml net response node =
    elim (node_text xml (find_child (codes "href") dav (some node))) [
      | none ↦ unset
      | some href ↦ if is_empty href then unset else resolve_href net response href
    ]

-- One node below the root.
unfoldable pub sync_node : Xml → Network → Response → Node → Page → Result Page
sync_node xml net response node page =
    if node_is (codes "sync-token") dav node
    then if page.token_nodes == 0
      then ok (record page { token_nodes = 1; returned = node_text xml (some node) })
      else unset
    else if node_is (codes "error") dav node
    then unset
    else if not (is_response node)
    then ok page
    else member_url xml net response node >>= λ resolved.
        sync_response xml response node resolved page

unfoldable pub sync_nodes : Xml → Network → Response → List Node → Page → Result Page
sync_nodes xml net response [] page = ok page
sync_nodes xml net response (node ∷ nodes) page =
    sync_node xml net response node page >>= λ page'. sync_nodes xml net response nodes page'
