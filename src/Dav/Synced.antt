-- ===== src/Dav/Synced.antt =====
-- Source: source/shared/RCDAVClient.c. What a sync by collection leaves, whatever the server answers.
use retro_cloud_sync.Prelude.{
  ◌⊎◌, ℕ, zero, suc, ◌≡◌, refl, inl, inr, Bool, not, Bool-cases, Option, some, List, [], ◌∷◌, ◌++◌,
  ltb, length, Bytes, bytes_of, codes, Result-cases,
}
use retro_cloud_sync.Http.Model.{Trace, Client, Network}
use retro_cloud_sync.Http.Request.{client_request}
use retro_cloud_sync.Dav.Tree.{Xml}
use retro_cloud_sync.Dav.Discover.{xml_type}
use retro_cloud_sync.Dav.Inventory.{Resource}
use retro_cloud_sync.Dav.Pages.{Page}
use retro_cloud_sync.Dav.Collect.{
  Answer, a_page, falls_back, fails, read_answer, is_usable_page, Synced, Turn, stop, next_page,
  Callback, called, take_page, take_answer, sync_page, sync_pages, sync_collection, page_limit,
  longest_token, sync_head, sync_tail,
}
use retro_cloud_sync.Dav.Changes.{AreChanges, Answers, read_answer-Answers}

pub Turn-cases :
    (t : Turn) → ((r : Synced) × (t ≡ stop r)) ⊎ ((token : Bytes) × (t ≡ next_page token))
Turn-cases (stop r) = inl (r, refl)
Turn-cases (next_page token) = inr (token, refl)

module _ {World : Type 0} (xml : Xml) (net : Network) (cancelled : World → Bool)
    (callback : Option (Callback World)) (P : World → Type 0)
    (kept : (changes : List Resource) (world : World)
      → AreChanges changes
      → P world
      → P (called callback changes world).0) where
  take_page-kept :
      (tokens : List Bytes) (page : Page) (world : World)
      → AreChanges page.changes
      → P world
      → P (take_page xml net cancelled callback tokens page world).0
  unfolding take_page
  take_page-kept tokens page world h p = elim (Bool-cases (not (is_usable_page tokens page))) [
    | inl t ↦ rw (t, take_page) p
    | inr t ↦ rw (t, take_page) (kept page.changes world h p)
  ]

  take_answer-kept :
      (tokens : List Bytes) (answer : Answer) (world : World)
      → Answers answer
      → P world
      → P (take_answer xml net cancelled callback tokens answer world).0
  unfolding take_answer
  take_answer-kept tokens (a_page page) world h p = take_page-kept tokens page world h p
  take_answer-kept tokens falls_back world h p = p
  take_answer-kept tokens (fails c m) world h p = p

  sync_page-kept :
      (client : Client) (url token : Bytes) (tokens : List Bytes) (trace : Trace) (world : World)
      → P world
      → P (sync_page xml net cancelled callback client url token tokens trace world).1.0
  unfolding sync_page
  sync_page-kept client url token tokens trace world p =
      elim (Bool-cases (ltb longest_token (length token))) [
        | inl t ↦ rw (t, sync_page) p
        | inr t ↦
            let result =
              (client_request net client (codes "REPORT") url (some (codes "0")) (some xml_type)
                (some (sync_head ++ xml.escape token ++ sync_tail)) trace).1 in
            elim (Result-cases result) [
              | inl (response, r) ↦
                  rw (t, r, sync_page)
                    (take_answer-kept (token ∷ tokens) (read_answer xml net response) world
                      (read_answer-Answers xml net response) p)
              | inr (c, m, r) ↦ rw (t, r, sync_page) p
            ]
      ]

  sync_pages-kept :
      (pages : ℕ) (client : Client) (url token : Bytes) (tokens : List Bytes) (trace : Trace)
      (world : World)
      → P world
      → P (sync_pages xml net cancelled callback pages client url token tokens trace world).1.0
  unfolding sync_pages
  sync_pages-kept zero client url token tokens trace world p = p
  sync_pages-kept (suc pages) client url token tokens trace world p =
      elim (Bool-cases (cancelled world)) [
        | inl t ↦ rw (t, sync_pages) p
        | inr t ↦
            let (trace', after) =
              sync_page xml net cancelled callback client url token tokens trace world in
            let next : P after.0 = sync_page-kept client url token tokens trace world p in
            elim (Turn-cases after.1) [
              | inl (r, e) ↦ rw (t, e, sync_pages) next
              | inr (returned, e) ↦
                  rw (t, e, sync_pages)
                    (sync_pages-kept pages client url returned (token ∷ tokens) trace' after.0 next)
            ]
      ]

  -- What the callback keeps for every page of changes that are deletions or have an ETag that
  -- is not empty, with no URL twice, a sync by collection keeps, whatever the server answers,
  -- in whatever way it ends.
  pub sync_collection-kept :
      (client : Client) (url : Bytes) (token : Option Bytes) (trace : Trace) (world : World)
      → P world
      → P (sync_collection xml net cancelled callback client url token trace world).1.0
  unfolding sync_collection
  sync_collection-kept client url token trace world p =
      sync_pages-kept page_limit client url (bytes_of token) [] trace world p
