-- ===== src/Dav/Urls.antt =====
-- Source: source/shared/RCDAVClient.c. The URL of a collection in its own sync report.
use retro_cloud_sync.Prelude.{
  ℕ, suc, ◌-◌, ◌≡◌, ◌↔◌, ◌⊎◌, refl, ap, sym, subst, ◌∙◌, inl, inr, true, false, ◌&&◌, Bool-cases,
  List, [], ◌∷◌, ◌++◌, ◌==◌, length, take, if◌then◌else◌, Bytes, same, same_iff, arith,
}
use retro_cloud_sync.Dav.Inventory.{char_at}
use retro_cloud_sync.Dav.Pages.{has_query, slashless, is_sync_collection_url}

-- A URL without the slash at its end.
unfoldable pub without_slash : Bytes → Bytes
without_slash [] = []
without_slash (c ∷ []) = if c == b'/' then [] else c ∷ []
without_slash (c ∷ d ∷ url) = c ∷ without_slash (d ∷ url)

take_all : {A : Type 0} (xs : List A) → take (length xs) xs ≡ xs
take_all [] = refl
take_all (x ∷ xs) = ap (λ t. x ∷ t) (take_all xs)

ending : (url : Bytes) → (url ≡ []) ⊎ ((front : Bytes) × (c : ℕ) × (url ≡ front ++ c ∷ []))
ending [] = inl refl
ending (c ∷ url) = elim (ending url) [
  | inl e ↦ inr ([], c, ap (λ t. c ∷ t) e)
  | inr (front, d, e) ↦ inr (c ∷ front, d, ap (λ t. c ∷ t) e)
]

without_slash-last :
    (front : Bytes) (c : ℕ)
    → without_slash (front ++ c ∷ []) ≡ (if c == b'/' then front else front ++ c ∷ [])
unfolding without_slash
without_slash-last [] c = refl
without_slash-last (x ∷ []) c = elim (Bool-cases (c == b'/')) [
  | inl t ↦ rw t refl
  | inr t ↦ rw t refl
]
without_slash-last (x ∷ y ∷ front) c =
    let rest = without_slash-last (y ∷ front) c in
    elim (Bool-cases (c == b'/')) [
      | inl t ↦ ap (λ u. x ∷ u) rest ∙ rw t refl
      | inr t ↦ ap (λ u. x ∷ u) rest ∙ rw t refl
    ]

length-last : (front : Bytes) (c : ℕ) → length (front ++ c ∷ []) ≡ suc (length front)
length-last [] c = refl
length-last (x ∷ front) c = ap suc (length-last front c)

get-last : (front : Bytes) (c : ℕ) → char_at (front ++ c ∷ []) (length front) ≡ c
get-last [] c = refl
get-last (x ∷ front) c = get-last front c

take-front : (front rest : Bytes) → take (length front) (front ++ rest) ≡ front
take-front [] rest = refl
take-front (x ∷ front) rest = ap (λ t. x ∷ t) (take-front front rest)

less_one : (n : ℕ) → suc n - 1 ≡ n
less_one n = omega arith

slashless-last :
    (front : Bytes) (c : ℕ)
    → slashless (front ++ c ∷ []) ≡ (if c == b'/' then length front else suc (length front))
slashless-last front c =
    rw (length-last front c, less_one (length front), get-last front c) (ground arith)

same_both : {a b c d : Bytes} → a ≡ c → b ≡ d → same a b ≡ same c d
same_both e f = rw (e, f) refl

abbrev IsStem : Bytes → Bytes → Type 0
IsStem url front =
    (without_slash url ≡ front)
    × (slashless url ≡ length front)
    × (take (slashless url) url ≡ front)

IsStem-last : (front : Bytes) (c : ℕ) → IsStem (front ++ c ∷ []) (without_slash (front ++ c ∷ []))
IsStem-last front c =
    let url = front ++ c ∷ [] in
    elim (Bool-cases (c == b'/')) [
      | inl t ↦
          let w : without_slash url ≡ front = without_slash-last front c ∙ rw t refl in
          let s : slashless url ≡ length front = slashless-last front c ∙ rw t refl in
          (refl, s ∙ sym (ap length w), ap (λ n. take n url) s ∙ take-front front (c ∷ []) ∙ sym w)
      | inr t ↦
          let w : without_slash url ≡ url = without_slash-last front c ∙ rw t refl in
          let s : slashless url ≡ length url =
            slashless-last front c ∙ rw t refl ∙ sym (length-last front c) in
          (refl, s ∙ sym (ap length w), ap (λ n. take n url) s ∙ take_all url ∙ sym w)
    ]

stem : (url : Bytes) → IsStem url (without_slash url)
unfolding without_slash
stem url = elim (ending url) [
  | inl e ↦ subst (λ u. IsStem u (without_slash u)) (sym e) (refl, refl, refl)
  | inr (front, c, e) ↦ subst (λ u. IsStem u (without_slash u)) (sym e) (IsStem-last front c)
]

same_stem :
    (href collection : Bytes)
    → (slashless href == slashless collection
        && same (take (slashless href) href) (take (slashless href) collection))
      ≡ same (without_slash href) (without_slash collection)
same_stem href collection =
    let (_, n, h) = stem href in
    let (_, m, k) = stem collection in
    elim (Bool-cases (slashless href == slashless collection)) [
      | inl t ↦
          let e : slashless href ≡ slashless collection = ground arith in
          rw t (same_both h (ap (λ n. take n collection) e ∙ k))
      | inr t ↦ elim (Bool-cases (same (without_slash href) (without_slash collection))) [
        | inr u ↦ rw (t, u) refl
        | inl u ↦
            let e = ap length ((same_iff (without_slash href) (without_slash collection)).0 u) in
            absurd (ground arith)
      ]
    ]

-- The URL of a member is taken for the collection exactly if both are the same, or neither has a
-- query or a fragment and they are the same without a slash at their ends.
pub is_sync_collection_url_iff :
    (href collection : Bytes)
    → (is_sync_collection_url href collection ≡ true) ↔ (
        (href ≡ collection)
        ⊎ ((has_query href ≡ false)
            × (has_query collection ≡ false)
            × (without_slash href ≡ without_slash collection)))
unfolding is_sync_collection_url
is_sync_collection_url_iff href collection = ground (
  arith,
  same_iff href collection,
  same_iff (without_slash href) (without_slash collection),
  same_stem href collection,
)
