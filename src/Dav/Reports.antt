-- ===== src/Dav/Reports.antt =====
-- Source: source/shared/RCDAVClient.c. How many requests a sync by collection sends.
use retro_cloud_sync.Prelude.{
  same_case, to_lower, ℕ, zero, suc, ◌+◌, ◌*◌, ◌≡◌, refl, sym, inl, inr, Bool, Bool-cases, Option,
  some, List, [], ◌∷◌, ◌++◌, ltb, length, Bytes, bytes_of, codes, arith, ok, ◌≤◌, All, All-append,
  append_assoc, ap, ◌∙◌,
}
use retro_cloud_sync.Http.Model.{Request, Trace, Client, Network}
use retro_cloud_sync.Http.Request.{client_request, validate_destination, is_mutation}
use retro_cloud_sync.Http.Sent.{Extends, still, sent, MaySend, perform_request-Extends}
use retro_cloud_sync.Dav.Tree.{Xml}
use retro_cloud_sync.Dav.Discover.{xml_type}
use retro_cloud_sync.Dav.Collect.{
  Callback, sync_page, sync_pages, sync_collection, page_limit, longest_token, sync_head, sync_tail,
}
use retro_cloud_sync.Dav.Synced.{Turn-cases}

-- A report to an allowed host.
abbrev pub IsReport : Network → Client → Request → Type 0
IsReport net client r =
    (r.method ≡ codes "REPORT")
    × (validate_destination net r.url client.allowed_host_suffix ≡ ok tt)

-- `after` is `before` with at most `n` more requests, all of which are reports.
pub record Reports (net : Network) (client : Client) (before : Trace) (n : ℕ) (after : Trace)
    : Type 0 where
  pub more : Trace
  pub grown : after ≡ more ++ before
  pub are_reports : All (IsReport net client) more
  pub bounded : length more ≤ n

module _ (net : Network) (client : Client) where
  still-Reports : (before : Trace) (n : ℕ) → Reports net client before n before
  still-Reports before n = record {
    more = [];
    grown = refl;
    are_reports = tt;
    bounded = omega arith;
  }

  reported :
      {q : Request} {before : Trace} {n : ℕ} {after : Trace}
      → q.method ≡ codes "REPORT"
      → Extends (MaySend net client q) before n after
      → Reports net client before n after
  reported {before = before} {n = n} m still = still-Reports before n
  reported m (sent {r = r} h s) =
      let rest = reported m s in
      record {
        more = r ∷ rest.more;
        grown = ap (λ t. r ∷ t) rest.grown;
        are_reports = ((h.same.method ∙ m, h.valid), rest.are_reports);
        bounded = omega (arith, rest.bounded);
      }

  fewer : {m n : ℕ} {a b : Trace} → Reports net client a m b → m ≤ n → Reports net client a n b
  fewer p h = record {
    more = p.more;
    grown = p.grown;
    are_reports = p.are_reports;
    bounded = omega (arith, p.bounded, h);
  }

  length-append : (xs ys : Trace) → length (xs ++ ys) ≡ length xs + length ys
  length-append [] ys = omega arith
  length-append (x ∷ xs) ys = omega (arith, length-append xs ys)

  then_reported :
      {m n : ℕ} {a b c : Trace}
      → Reports net client a m b
      → Reports net client b n c
      → Reports net client a (n + m) c
  then_reported {a = a} p q = record {
    more = q.more ++ p.more;
    grown = q.grown ∙ ap (λ t. q.more ++ t) p.grown ∙ sym (append_assoc q.more p.more a);
    are_reports = All-append (IsReport net client) q.more p.more q.are_reports p.are_reports;
    bounded = omega (arith, length-append q.more p.more, p.bounded, q.bounded);
  }

  request_reported :
      (url : Bytes) (depth kind body : Option Bytes) (trace : Trace)
      → Reports net client trace 6
          (client_request net client (codes "REPORT") url depth kind body trace).0
  unfolding client_request is_mutation same_case to_lower
  request_reported url depth kind body trace =
      reported refl (perform_request-Extends net client _ trace)

  module _ {World : Type 0} (xml : Xml) (cancelled : World → Bool)
      (callback : Option (Callback World)) where
    page_reported :
        (url token : Bytes) (tokens : List Bytes) (trace : Trace) (world : World)
        → Reports net client trace 6
            (sync_page xml net cancelled callback client url token tokens trace world).0
    unfolding sync_page
    page_reported url token tokens trace world =
        elim (Bool-cases (ltb longest_token (length token))) [
          | inl t ↦ rw (t, sync_page) (still-Reports trace 6)
          | inr t ↦
              rw (t, sync_page)
                (request_reported url (some (codes "0")) (some xml_type)
                  (some (sync_head ++ xml.escape token ++ sync_tail)) trace)
        ]

    pages_reported :
        (pages : ℕ) (url token : Bytes) (tokens : List Bytes) (trace : Trace) (world : World)
        → Reports net client trace
            (pages * 6)
            (sync_pages xml net cancelled callback pages client url token tokens trace world).0
    unfolding sync_pages
    pages_reported zero url token tokens trace world = still-Reports trace (zero * 6)
    pages_reported (suc pages) url token tokens trace world = elim (Bool-cases (cancelled world)) [
      | inl t ↦ rw (t, sync_pages) (still-Reports trace (suc pages * 6))
      | inr t ↦
          let (trace', after) =
            sync_page xml net cancelled callback client url token tokens trace world in
          let page : Reports net client trace 6 trace' =
            page_reported url token tokens trace world in
          elim (Turn-cases after.1) [
            | inl (r, e) ↦ rw (t, e, sync_pages) (fewer page (omega arith))
            | inr (returned, e) ↦
                rw (t, e, sync_pages)
                  (fewer
                    (then_reported page
                      (pages_reported pages url returned (token ∷ tokens) trace' after.0))
                    (omega arith))
          ]
    ]

    -- Whatever the server answers, a sync by collection sends at most 6144 requests, all of
    -- them reports to an HTTPS URL on an allowed host.
    pub sync_collection-Reports :
        (url : Bytes) (token : Option Bytes) (trace : Trace) (world : World)
        → Reports net client trace 6144
            (sync_collection xml net cancelled callback client url token trace world).0
    unfolding sync_collection
    sync_collection-Reports url token trace world =
        pages_reported page_limit url (bytes_of token) [] trace world
