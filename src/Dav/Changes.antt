-- ===== src/Dav/Changes.antt =====
-- Source: source/shared/RCDAVClient.c. The changes of a page that a sync by collection reads.
use retro_cloud_sync.Prelude.{
  if_ok, bind_ok, ◌⊎◌, ◌≡◌, refl, subst, inl, inr, Bool, true, false, not, ◌&&◌, ◌||◌, Option, none,
  some, is_some, List, [], ◌∷◌, ◌==◌, ltb, length, any, any-false, if◌then◌else◌, Bytes, bytes_of,
  codes, same, is_empty, All, Pairwise, Pairwise-append, All-append, Result, ok, err, ok_injective,
  err≢ok, pos, eq_ℤ,
}
use retro_cloud_sync.Http.Model.{Response, Network}
use retro_cloud_sync.Dav.Tree.{
  XmlDocument, Node, Xml, dav, children, find_child, find_descendant, node_text, node_is,
}
use retro_cloud_sync.Dav.Discover.{successful_property, is_response}
use retro_cloud_sync.Dav.Inventory.{Resource}
use retro_cloud_sync.Dav.Pages.{
  member_url, Page, empty_page, lists, append_change, sync_response, sync_node, sync_nodes,
  is_sync_collection_url, code_of,
}
use retro_cloud_sync.Dav.Collect.{
  read_document, Answer, a_page, falls_back, fails, page_or_failure, read_root, read_answer,
  is_fallback,
}

-- A change is a deletion, or has an ETag that is not empty.
abbrev pub IsChange : Resource → Type 0
IsChange change = (change.etag ≡ none) ⊎ (is_empty (bytes_of change.etag) ≡ false)

abbrev pub Differ : Resource → Resource → Type 0
Differ a b = same a.url b.url ≡ false

-- What a page may hand to the callback: changes, and no URL twice.
abbrev pub AreChanges : List Resource → Type 0
AreChanges changes = All IsChange changes × Pairwise Differ changes

listed_before :
    (url : Bytes) (etag : Option Bytes) (changes : List Resource)
    → any (lists url) changes ≡ false
    → All (λ r. Differ r (record { url = url; etag = etag })) changes
listed_before url etag changes h = any-false (lists url) changes h

kept_change :
    (deleted : Bool) (etag : Option Bytes)
    → (deleted ≡ true → etag ≡ none)
    → (not deleted && is_empty (bytes_of etag)) ≡ false
    → (etag ≡ none) ⊎ (is_empty (bytes_of etag) ≡ false)
kept_change true etag d h = inl (d refl)
kept_change false etag d h = inr h

append_change-AreChanges :
    (url : Bytes) (deleted : Bool) (etag : Option Bytes) (page : Page) {next : Page}
    → (deleted ≡ true → etag ≡ none)
    → AreChanges page.changes
    → append_change url deleted etag page ≡ ok next
    → AreChanges next.changes
unfolding append_change
append_change-AreChanges url deleted etag page d (h, k) e =
    elim (if_ok (not deleted && is_empty (bytes_of etag)) e) [
      | inl (t, f) ↦ absurd (err≢ok f)
      | inr (t, f) ↦ elim (if_ok (any (lists url) page.changes) f) [
        | inl (u, g) ↦ absurd (err≢ok g)
        | inr (u, g) ↦
            let change : Resource = record { url = url; etag = etag } in
            let good : IsChange change = kept_change deleted etag d t in
            subst (λ p. AreChanges p.changes) (ok_injective g)
              (
                All-append IsChange page.changes (change ∷ []) h (good, tt),
                Pairwise-append Differ page.changes change k
                    (listed_before url etag page.changes u),
              )
      ]
    ]

sync_response-AreChanges :
    (xml : Xml) (response : Response) (node : Node) (url : Bytes) (page : Page) {next : Page}
    → AreChanges page.changes
    → sync_response xml response node url page ≡ ok next
    → AreChanges next.changes
unfolding sync_response
sync_response-AreChanges xml response node url page h e =
    let status = node_text xml (find_child (codes "status") dav (some node)) in
    let deleted = eq_ℤ (code_of status) (pos 404) in
    let collection = is_sync_collection_url url (bytes_of response.effective_url) in
    let propstat = is_some (find_child (codes "propstat") dav (some node)) in
    let has_error = is_some (find_descendant (codes "error") dav (some node)) in
    let getetag = successful_property xml (codes "getetag") dav node in
    let etag = if deleted then none else node_text xml getetag in
    elim (if_ok (eq_ℤ (code_of status) (pos 507) && collection && not page.more && not propstat)
      e) [
        | inl (t, f) ↦ subst (λ p. AreChanges p.changes) (ok_injective f) h
        | inr (t, f) ↦
            elim (if_ok (collection && not (is_some status) && not has_error && is_some getetag)
              f) [
                | inl (u, g) ↦ subst (λ p. AreChanges p.changes) (ok_injective g) h
                | inr (u, g) ↦
                    elim (if_ok
                      ((is_some status && (not deleted || propstat)) || collection || has_error)
                      g) [
                        | inl (v, k) ↦ absurd (err≢ok k)
                        | inr (v, k) ↦
                            append_change-AreChanges url deleted etag page (λ d. rw d refl) h k
                      ]
              ]
      ]

sync_node-AreChanges :
    (xml : Xml) (net : Network) (response : Response) (node : Node) (page : Page) {next : Page}
    → AreChanges page.changes
    → sync_node xml net response node page ≡ ok next
    → AreChanges next.changes
unfolding sync_node
sync_node-AreChanges xml net response node page h e =
    elim (if_ok (node_is (codes "sync-token") dav node) e) [
      | inl (t, f) ↦ elim (if_ok (page.token_nodes == 0) f) [
        | inl (u, g) ↦ subst (λ p. AreChanges p.changes) (ok_injective g) h
        | inr (u, g) ↦ absurd (err≢ok g)
      ]
      | inr (t, f) ↦ elim (if_ok (node_is (codes "error") dav node) f) [
        | inl (u, g) ↦ absurd (err≢ok g)
        | inr (u, g) ↦ elim (if_ok (not (is_response node)) g) [
          | inl (v, k) ↦ subst (λ p. AreChanges p.changes) (ok_injective k) h
          | inr (v, k) ↦
              let (url, r, last) =
                bind_ok (member_url xml net response node)
                  (λ url. sync_response xml response node url page) k in
              sync_response-AreChanges xml response node url page h last
        ]
      ]
    ]

sync_nodes-AreChanges :
    (xml : Xml) (net : Network) (response : Response) (nodes : List Node) (page : Page)
    {next : Page}
    → AreChanges page.changes
    → sync_nodes xml net response nodes page ≡ ok next
    → AreChanges next.changes
unfolding sync_nodes
sync_nodes-AreChanges xml net response [] page h e =
    subst (λ p. AreChanges p.changes) (ok_injective e) h
sync_nodes-AreChanges xml net response (node ∷ nodes) page h e =
    let (page', r, last) =
      bind_ok (sync_node xml net response node page)
        (λ page'. sync_nodes xml net response nodes page') e in
    sync_nodes-AreChanges xml net response nodes page'
      (sync_node-AreChanges xml net response node page h r) last

-- What an answer may be.
abbrev pub Answers : Answer → Type 0
Answers (a_page page) = AreChanges page.changes
Answers falls_back = Unit
Answers (fails c m) = Unit

page_or_failure-Answers :
    (r : Result Page)
    → ((page : Page) → r ≡ ok page → AreChanges page.changes)
    → Answers (page_or_failure r)
page_or_failure-Answers (ok page) f = f page refl
page_or_failure-Answers (err c m) f = tt

if_Answers : (b : Bool) (x y : Answer) → Answers x → Answers y → Answers (if b then x else y)
if_Answers true x y h k = h
if_Answers false x y h k = k

read_root-Answers :
    (xml : Xml) (net : Network) (response : Response) (root : Option Node)
    → Answers (read_root xml net response root)
unfolding read_root
read_root-Answers xml net response none = tt
read_root-Answers xml net response (some root) =
    if_Answers (node_is (codes "error") dav root) _ _
      (if_Answers (is_fallback response.status_code root) falls_back (fails 0 "") tt tt)
      (if_Answers
        (not (response.status_code == 207) || not (node_is (codes "multistatus") dav root))
        (fails 0 "") _ tt
        (page_or_failure-Answers (sync_nodes xml net response (children root) empty_page)
          (λ page e. sync_nodes-AreChanges xml net response (children root) empty_page (tt, tt) e)))

read_document-Answers :
    (xml : Xml) (net : Network) (response : Response) (document : Option XmlDocument)
    → Answers (read_document xml net response document)
read_document-Answers xml net response none = tt
read_document-Answers xml net response (some document) =
    if_Answers document.has_dtd (fails 0 "") _ tt (read_root-Answers xml net response document.root)

pub read_answer-Answers :
    (xml : Xml) (net : Network) (response : Response) → Answers (read_answer xml net response)
unfolding read_answer
read_answer-Answers xml net response =
    if_Answers (response.status_code == 405 || response.status_code == 501) falls_back _ tt (
      if_Answers (ltb 2147483647 (length (bytes_of response.body))) (fails 0 "") _ tt
        (read_document-Answers xml net response (xml.read response.body response.effective_url)))
