-- ===== src/Dav/Inventoried.antt =====
-- What an inventory that is returned says of the answer.
use retro_cloud_sync.Prelude.{
  ◌≡◌, refl, ap, sym, ◌∙◌, inl, inr, Bool, true, false, Bool-cases, some, is_some, Option-cases,
  List, [], ◌∷◌, ◌++◌, append-nil, append_assoc, if◌then◌else◌, Bytes, codes, All, arith,
  delete_where, Result, ok, err, ok_injective, err≢ok, bind_ok, ◌>>=◌, subst,
}
use retro_cloud_sync.Http.Model.{Response, Trace, Client, Network}
use retro_cloud_sync.Http.Request.{client_request}
use retro_cloud_sync.Dav.Tree.{
  Node, Xml, dav, children, find_child, find_descendant, node_text, parse_xml,
}
use retro_cloud_sync.Dav.Discover.{
  xml_type, request_multi_status, multi_status_of, require_multi_status, resolve_href,
  successful_property, is_response,
}
use retro_cloud_sync.Dav.Inventory.{
  Resource, has_failed, is_collection, resource_of, resources_among, inventory_of, list_resources,
}

-- A resource is what a response names: its URL and its ETag are those of the response.
pub record Names (xml : Xml) (net : Network) (response : Response) (node : Node)
    (resource : Resource) : Type 0 where
  pub href : Bytes
  pub named : node_text xml (find_child (codes "href") dav (some node)) ≡ some href
  pub resolved : resolve_href net response href ≡ ok resource.url
  pub tagged : node_text xml (successful_property xml (codes "getetag") dav node) ≡ resource.etag
  pub present : is_some resource.etag ≡ true

-- Rows of two lists in pairs.
pub data Pairs {A B : Type 0} (R : A → B → Type 0) : List A → List B → Type 0 where
  no_pairs : Pairs R [] []
  pair :
      {a : A} {b : B} {xs : List A} {ys : List B}
      → R a b
      → Pairs R xs ys
      → Pairs R (a ∷ xs) (b ∷ ys)

-- The nodes that are no response for a resource.
abbrev pub is_other : Xml → Node → Bool
is_other xml node = if is_response node then is_collection xml node else true

abbrev pub HasSucceeded : Xml → Node → Type 0
HasSucceeded xml node = is_response node ≡ true → has_failed xml node ≡ false

-- A complete inventory of an answer.
pub record IsComplete (xml : Xml) (net : Network) (response : Response) (root : Node)
    (resources : List Resource) : Type 0 where
  pub no_error : is_some (find_descendant (codes "error") dav (some root)) ≡ false
  pub succeeded : All (HasSucceeded xml) (children root)
  pub one_each :
      Pairs (Names xml net response) (delete_where (is_other xml) (children root)) resources

resource_of_ok :
    (xml : Xml) (net : Network) (response : Response) (node : Node) {resource : Resource}
    → resource_of xml net response node ≡ ok resource
    → Names xml net response node resource
unfolding resource_of
resource_of_ok xml net response node e =
    elim (Option-cases (node_text xml (find_child (codes "href") dav (some node)))) [
      | inl n ↦ absurd (ground arith)
      | inr (href, f) ↦
          elim (Option-cases (node_text xml (successful_property xml (codes "getetag") dav node))) [
            | inl n ↦ absurd (ground arith)
            | inr (etag, g) ↦
                let step : resource_of xml net response node ≡ (
                    resolve_href net response href >>= λ url.
                    ok (record { url = url; etag = some etag })) =
                  rw (f, g, resource_of) refl in
                let (url, r, last) = bind_ok (resolve_href net response href) _ (sym step ∙ e) in
                let same = ok_injective last in
                record {
                  href = href;
                  named = f;
                  resolved = r ∙ ap (λ x. ok (x.url)) same;
                  tagged = g ∙ ap (λ x. x.etag) same;
                  present = ap (λ x. is_some (x.etag)) (sym same);
                }
          ]
    ]

resources_among_ok :
    (xml : Xml) (net : Network) (response : Response) (found : List Resource) (nodes : List Node)
    {rs : List Resource}
    → resources_among xml net response found nodes ≡ ok rs
    → All (HasSucceeded xml) nodes
      × ((more : List Resource) × (rs ≡ found ++ more)
          × Pairs (Names xml net response) (delete_where (is_other xml) nodes) more)
unfolding resources_among delete_where
resources_among_ok xml net response found [] e =
    (tt, ([], sym (ok_injective e) ∙ sym (append-nil found), no_pairs))
resources_among_ok xml net response found (node ∷ nodes) {rs} e =
    elim (Bool-cases (is_response node)) [
      | inr t ↦
          let step : resources_among xml net response found (node ∷ nodes)
              ≡ resources_among xml net response found nodes =
            rw (t, resources_among) refl in
          let (good, rest) = resources_among_ok xml net response found nodes (sym step ∙ e) in
          (((λ s. absurd (cc (s, t))), good), rw t rest)
      | inl t ↦ elim (Bool-cases (has_failed xml node)) [
        | inl u ↦
            let step : resources_among xml net response found (node ∷ nodes)
                ≡ err 1 "DAV inventory contains an unsuccessful resource response" =
              rw (t, u, resources_among) refl in
            absurd (err≢ok (sym step ∙ e))
        | inr u ↦ elim (Bool-cases (is_collection xml node)) [
          | inl v ↦
              let step : resources_among xml net response found (node ∷ nodes)
                  ≡ resources_among xml net response found nodes =
                rw (t, u, v, resources_among) refl in
              let (good, rest) = resources_among_ok xml net response found nodes (sym step ∙ e) in
              (((λ _. u), good), rw (t, v) rest)
          | inr v ↦
              let step : resources_among xml net response found (node ∷ nodes) ≡ (
                  resource_of xml net response node >>= λ resource.
                  resources_among xml net response (found ++ resource ∷ []) nodes) =
                rw (t, u, v, resources_among) refl in
              let (resource, r, last) =
                bind_ok (resource_of xml net response node) _ (sym step ∙ e) in
              let (good, (more, same, pairs)) =
                resources_among_ok xml net response (found ++ resource ∷ []) nodes last in
              (
                ((λ _. u), good),
                (
                  resource ∷ more,
                  same ∙ append_assoc found (resource ∷ []) more,
                  rw (t, v) (pair (resource_of_ok xml net response node r) pairs),
                ),
              )
        ]
      ]
    ]

inventory_of_ok :
    (xml : Xml) (net : Network) (response : Response) (root : Node) {resources : List Resource}
    → inventory_of xml net response root ≡ ok resources
    → IsComplete xml net response root resources
unfolding inventory_of
inventory_of_ok xml net response root e =
    elim (Bool-cases (is_some (find_descendant (codes "error") dav (some root)))) [
      | inl t ↦
          let step : inventory_of xml net response root
              ≡ err 1 "DAV inventory contains an error or truncated result" =
            rw (t, inventory_of) refl in
          absurd (err≢ok (sym step ∙ e))
      | inr t ↦
          let step : inventory_of xml net response root
              ≡ resources_among xml net response [] (children root) =
            rw (t, inventory_of) refl in
          let (good, (more, same, pairs)) =
            resources_among_ok xml net response [] (children root) (sym step ∙ e) in
          record {
            no_error = t;
            succeeded = good;
            one_each =
                subst (Pairs (Names xml net response) (delete_where (is_other xml) (children root)))
                  (sym same) pairs;
          }
    ]

-- What a listing that succeeds has read.
pub record IsListed (xml : Xml) (net : Network) (answer : Result Response)
    (resources : List Resource) : Type 0 where
  pub response : Response
  pub answered : answer ≡ ok response
  pub root : Node
  pub status : response.status_code ≡ 207
  pub parsed : parse_xml xml response ≡ ok root
  pub whole : IsComplete xml net response root resources

require_multi_status_ok :
    (response : Response) → require_multi_status response ≡ ok tt → response.status_code ≡ 207
unfolding require_multi_status
require_multi_status_ok response e = ground arith

multi_status_of_ok :
    (xml : Xml) (response : Response) {p : Response × Node}
    → multi_status_of xml response ≡ ok p
    → (response ≡ p.0) × (p.0.status_code ≡ 207) × (parse_xml xml p.0 ≡ ok p.1)
unfolding multi_status_of
multi_status_of_ok xml response {p} e =
    let (u, q, e1) =
      bind_ok (require_multi_status response)
        (λ _. parse_xml xml response >>= λ root. ok (response, root)) e in
    let (root, s, e2) = bind_ok (parse_xml xml response) (λ root. ok (response, root)) e1 in
    subst (λ p. (response ≡ p.0) × (p.0.status_code ≡ 207) × (parse_xml xml p.0 ≡ ok p.1))
      (ok_injective e2) (refl, require_multi_status_ok response q, s)

-- A listing of resources that succeeds has read a multistatus document, answered with 207, in
-- which no error element stands and no response has failed, and it has exactly one resource for
-- each response that is not for a collection, in their order, with the URL and the ETag of the
-- response.
pub list_resources_ok :
    (xml : Xml) (net : Network) (client : Client) (url method body : Bytes) (trace : Trace)
    {resources : List Resource}
    → (list_resources xml net client url method body trace).1 ≡ ok resources
    → IsListed xml net
        (client_request net client method url
          (some (codes "1"))
          (some xml_type)
          (some body)
          trace).1
        resources
unfolding list_resources request_multi_status multi_status_of
list_resources_ok xml net client url method body trace e =
    let (p, r, last) =
      bind_ok (request_multi_status xml net client method url (codes "1") body trace).1 _ e in
    let answer =
      client_request net client method url (some (codes "1")) (some xml_type) (some body) trace in
    let (response, answered, read) = bind_ok answer.1 (multi_status_of xml) r in
    let (same, status, parsed) = multi_status_of_ok xml response read in
    record {
      response = p.0;
      answered = answered ∙ ap ok same;
      root = p.1;
      status = status;
      parsed = parsed;
      whole = inventory_of_ok xml net p.0 p.1 last;
    }
