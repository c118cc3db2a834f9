-- ===== src/Dav/Turns.antt =====
-- Source: source/shared/RCDAVClient.c. The tokens and the result of a sync by collection.
use retro_cloud_sync.Prelude.{
  same, ℕ, zero, suc, ◌≤◌, ◌≢◌, ◌≡◌, subst, inl, inr, Bool, true, false, Bool-cases, Option, some,
  List, [], ◌∷◌, ◌++◌, ltb, length, same, any, ◌≢◌, ◌≤◌, any, Bytes, bytes_of, codes, is_empty,
  arith, Result, Result-cases, ok, err,
}
use retro_cloud_sync.Http.Model.{Trace, Client, Network}
use retro_cloud_sync.Http.Request.{client_request, cancelled_code}
use retro_cloud_sync.Dav.Tree.{Xml}
use retro_cloud_sync.Dav.Discover.{xml_type}
use retro_cloud_sync.Dav.Pages.{Page}
use retro_cloud_sync.Dav.Collect.{
  Answer, a_page, falls_back, fails, read_answer, is_usable_page, Synced, sync_failed,
  sync_complete, sync_fallback, Turn, stop, next_page, Callback, called, turn_of, take_page,
  take_answer, sync_page, sync_pages, with_error, sync_collection, page_limit, longest_token,
  sync_head, sync_tail,
}
use retro_cloud_sync.Dav.Synced.{Turn-cases}

-- A token as it may be stored and sent.
abbrev pub Fits : Bytes → Type 0
Fits token = (is_empty token ≡ false) × (length token ≤ longest_token)

-- A sync ends with a token that fits, or asks for the next page with one that no page had before.
unfoldable pub IsTurn : List Bytes → Turn → Type 0
IsTurn tokens (stop (sync_complete token)) = Fits token
IsTurn tokens (stop (sync_failed c m)) = Unit
IsTurn tokens (stop sync_fallback) = Unit
IsTurn tokens (next_page token) = Fits token × (any (same token) tokens ≡ false)

unfoldable pub IsOutcome : Synced → Type 0
IsOutcome (sync_failed c m) = c ≢ 0
IsOutcome (sync_complete token) = Fits token
IsOutcome sync_fallback = Unit

usable_Fits :
    (tokens : List Bytes) (page : Page)
    → is_usable_page tokens page ≡ true
    → Fits (bytes_of page.returned)
unfolding is_usable_page
usable_Fits tokens page h = ground arith

usable_unused :
    (tokens : List Bytes) (page : Page)
    → is_usable_page tokens page ≡ true
    → page.more ≡ true
    → any (same (bytes_of page.returned)) tokens ≡ false
unfolding is_usable_page
usable_unused tokens page h m = ground arith

turn_of-IsTurn :
    (tokens : List Bytes) (page : Page) (r : Result (Unit {0}))
    → is_usable_page tokens page ≡ true
    → IsTurn tokens (turn_of page r)
unfolding IsTurn
turn_of-IsTurn tokens page (err c m) h = tt
turn_of-IsTurn tokens page (ok _) h = elim (Bool-cases page.more) [
  | inl t ↦ rw t (usable_Fits tokens page h, usable_unused tokens page h t)
  | inr t ↦ rw t (usable_Fits tokens page h)
]

module _ {World : Type 0} (xml : Xml) (net : Network) (cancelled : World → Bool)
    (callback : Option (Callback World)) where
  take_answer-IsTurn :
      (tokens : List Bytes) (answer : Answer) (world : World)
      → IsTurn tokens (take_answer xml net cancelled callback tokens answer world).1
  unfolding take_answer take_page IsTurn
  take_answer-IsTurn tokens falls_back world = tt
  take_answer-IsTurn tokens (fails c m) world = tt
  take_answer-IsTurn tokens (a_page page) world = elim (Bool-cases (is_usable_page tokens page)) [
    | inr t ↦ rw (t, take_answer, take_page) tt
    | inl t ↦
        rw (t, take_answer, take_page)
          (turn_of-IsTurn tokens page (called callback page.changes world).1 t)
  ]

  -- A page ends the sync with a token that is not empty and has 16384 bytes at most, or
  -- without a token, or goes on with such a token that no earlier page has used.
  pub sync_page-IsTurn :
      (client : Client) (url token : Bytes) (tokens : List Bytes) (trace : Trace) (world : World)
      → IsTurn
          (token ∷ tokens)
          (sync_page xml net cancelled callback client url token tokens trace world).1.1
  unfolding sync_page IsTurn
  sync_page-IsTurn client url token tokens trace world =
      elim (Bool-cases (ltb longest_token (length token))) [
        | inl t ↦ rw (t, sync_page) tt
        | inr t ↦
            let result =
              (client_request net client (codes "REPORT") url (some (codes "0")) (some xml_type)
                (some (sync_head ++ xml.escape token ++ sync_tail)) trace).1 in
            elim (Result-cases result) [
              | inl (response, r) ↦
                  rw (t, r, sync_page)
                    (take_answer-IsTurn (token ∷ tokens) (read_answer xml net response) world)
              | inr (c, m, r) ↦ rw (t, r, sync_page) tt
            ]
      ]

  with_error-IsOutcome :
      (tokens : List Bytes) (r : Synced) → IsTurn tokens (stop r) → IsOutcome (with_error r)
  unfolding IsTurn IsOutcome
  with_error-IsOutcome tokens (sync_failed zero m) h = λ e. absurd (omega (arith, e))
  with_error-IsOutcome tokens (sync_failed (suc c) m) h = λ e. absurd (omega (arith, e))
  with_error-IsOutcome tokens (sync_complete token) h = h
  with_error-IsOutcome tokens sync_fallback h = tt

  sync_pages-IsOutcome :
      (pages : ℕ) (client : Client) (url token : Bytes) (tokens : List Bytes) (trace : Trace)
      (world : World)
      → IsOutcome (
          with_error
            (sync_pages xml net cancelled callback pages client url token tokens trace world).1.1)
  unfolding sync_pages IsTurn
  sync_pages-IsOutcome zero client url token tokens trace world =
      with_error-IsOutcome [] (sync_failed 0 "") tt
  sync_pages-IsOutcome (suc pages) client url token tokens trace world =
      elim (Bool-cases (cancelled world)) [
        | inl t ↦
            rw (t, sync_pages)
              (with_error-IsOutcome [] (sync_failed cancelled_code "Shutdown requested") tt)
        | inr t ↦
            let (trace', after) =
              sync_page xml net cancelled callback client url token tokens trace world in
            let turn : IsTurn (token ∷ tokens) after.1 =
              sync_page-IsTurn client url token tokens trace world in
            elim (Turn-cases after.1) [
              | inl (r, e) ↦
                  rw (t, e, sync_pages)
                    (with_error-IsOutcome (token ∷ tokens) r
                      (subst (IsTurn (token ∷ tokens)) e turn))
              | inr (returned, e) ↦
                  rw (t, e, sync_pages)
                    (sync_pages-IsOutcome pages client url returned (token ∷ tokens) trace' after.0)
            ]
      ]

  -- A sync by collection that fails sets an error, and one that is complete has a token that
  -- is not empty and has 16384 bytes at most.
  pub sync_collection-IsOutcome :
      (client : Client) (url : Bytes) (token : Option Bytes) (trace : Trace) (world : World)
      → IsOutcome (sync_collection xml net cancelled callback client url token trace world).1.1
  unfolding sync_collection
  sync_collection-IsOutcome client url token trace world =
      sync_pages-IsOutcome page_limit client url (bytes_of token) [] trace world
