-- ===== src/Patch/Ordered.antt =====
-- Source: source/shared/RCResourcePatch.c. The insertion sort of the patches.
use retro_cloud_sync.Prelude.{
  ℕ, ◌≤◌, ◌≡◌, refl, ap, ◌∙◌, inl, inr, true, false, Bool-cases, List, [], ◌∷◌, ◌==◌, ltb,
  if◌then◌else◌, append-nil, ◌++◌, All, Pairwise, arith,
}
use retro_cloud_sync.Patch.Scanning.{Patch}
use retro_cloud_sync.Patch.Splicing.{insert_patch, sort_patches, in_order}

-- The patches that start at one place, in their order.
unfoldable pub starting : ℕ → List Patch → List Patch
starting k [] = []
starting k (p ∷ patches) = if p.start == k then p ∷ starting k patches else starting k patches

abbrev pub Before : Patch → Patch → Type 0
Before p q = p.start ≤ q.start

abbrev After : Patch → Patch → Type 0
After p q = q.start ≤ p.start

starting-insert_patch :
    (k : ℕ) (p : Patch) (before : List Patch)
    → starting k (insert_patch p before) ≡ starting k (p ∷ before)
unfolding starting insert_patch
starting-insert_patch k p [] = refl
starting-insert_patch k p (q ∷ before) = ground (arith, starting-insert_patch k p before)

starting-in_order :
    (k : ℕ) (behind patches : List Patch)
    → starting k (in_order behind patches) ≡ in_order (starting k behind) (starting k patches)
unfolding starting in_order
starting-in_order k behind [] = refl
starting-in_order k behind (p ∷ patches) = elim (Bool-cases (p.start == k)) [
  | inl t ↦ starting-in_order k (p ∷ behind) patches ∙ rw (t, in_order) refl
  | inr t ↦ starting-in_order k (p ∷ behind) patches ∙ rw (t, in_order) refl
]

in_order-in_order : (a b c : List Patch) → in_order a (in_order b c) ≡ in_order (c ++ a) b
unfolding in_order
in_order-in_order a b [] = refl
in_order-in_order a b (p ∷ c) = in_order-in_order a (p ∷ b) c

step :
    (k : ℕ) (p : Patch) (sorted patches : List Patch)
    → in_order (starting k (p ∷ sorted)) (starting k patches)
      ≡ in_order (starting k sorted) (starting k (p ∷ patches))
unfolding in_order starting
step k p sorted patches = elim (Bool-cases (p.start == k)) [
  | inl t ↦ rw (t, in_order) refl
  | inr t ↦ rw (t, in_order) refl
]

starting-sort_patches :
    (k : ℕ) (sorted patches : List Patch)
    → starting k (sort_patches sorted patches) ≡ in_order (starting k sorted) (starting k patches)
unfolding sort_patches in_order starting
starting-sort_patches k sorted [] = refl
starting-sort_patches k sorted (p ∷ patches) =
    starting-sort_patches k (insert_patch p sorted) patches
    ∙ ap (λ l. in_order l (starting k patches)) (starting-insert_patch k p sorted)
    ∙ step k p sorted patches

pub insert_patch-All :
    (P : Patch → Type 0) (p : Patch) (before : List Patch)
    → P p
    → All P before
    → All P (insert_patch p before)
unfolding insert_patch
insert_patch-All P p [] h k = (h, tt)
insert_patch-All P p (q ∷ before) h (first, rest) = elim (Bool-cases (ltb p.start q.start)) [
  | inl t ↦ rw t (first, insert_patch-All P p before h rest)
  | inr t ↦ rw t (h, (first, rest))
]

less : (a b : ℕ) → ltb a b ≡ true → a ≤ b
less a b h = ground arith

not_less : (a b : ℕ) → ltb a b ≡ false → b ≤ a
not_less a b h = ground arith

lower :
    (p q : Patch) (before : List Patch)
    → q.start ≤ p.start
    → All (After q) before
    → All (After p) before
lower p q [] e h = tt
lower p q (r ∷ before) e (first, rest) = (omega (arith, e, first), lower p q before e rest)

insert_patch-After :
    (p : Patch) (before : List Patch)
    → Pairwise After before
    → Pairwise After (insert_patch p before)
unfolding insert_patch
insert_patch-After p [] h = (tt, tt)
insert_patch-After p (q ∷ before) (first, rest) = elim (Bool-cases (ltb p.start q.start)) [
  | inl t ↦ rw t (
    insert_patch-All (After q) p before (omega (arith, less p.start q.start t)) first,
    insert_patch-After p before rest,
  )
  | inr t ↦
      let e : q.start ≤ p.start = not_less p.start q.start t in
      rw t ((e, lower p q before e first), (first, rest))
]

sort_patches-After :
    (sorted patches : List Patch)
    → Pairwise After sorted
    → Pairwise After (sort_patches sorted patches)
unfolding sort_patches
sort_patches-After sorted [] h = h
sort_patches-After sorted (p ∷ patches) h =
    sort_patches-After (insert_patch p sorted) patches (insert_patch-After p sorted h)

in_front :
    (p : Patch) (behind patches : List Patch)
    → All (After p) patches
    → All (λ q. All (Before q) behind) patches
    → All (λ q. All (Before q) (p ∷ behind)) patches
in_front p behind [] h k = tt
in_front p behind (q ∷ patches) h k = ((h.0, k.0), in_front p behind patches h.1 k.1)

in_order-Before :
    (behind patches : List Patch)
    → Pairwise After patches
    → Pairwise Before behind
    → All (λ p. All (Before p) behind) patches
    → Pairwise Before (in_order behind patches)
unfolding in_order
in_order-Before behind [] h k l = k
in_order-Before behind (p ∷ patches) (first, rest) k (front, others) =
    in_order-Before (p ∷ behind) patches rest (front, k) (in_front p behind patches first others)

each_front : (patches : List Patch) → All (λ p. All (Before p) []) patches
each_front [] = tt
each_front (p ∷ patches) = (tt, each_front patches)

-- The sort puts the patches in the order of their starts, and those that start at one place are
-- all there, in the order in which they were given.
pub sort_patches_lem :
    (patches : List Patch) (k : ℕ)
    → Pairwise Before (in_order [] (sort_patches [] patches))
      × (starting k (in_order [] (sort_patches [] patches)) ≡ starting k patches)
unfolding starting in_order
sort_patches_lem patches k =
    let sorted = sort_patches [] patches in
    (
      in_order-Before [] sorted (sort_patches-After [] patches tt) tt (each_front sorted),
      starting-in_order k [] sorted
          ∙ ap (in_order []) (starting-sort_patches k [] patches)
          ∙ in_order-in_order [] [] (starting k patches)
          ∙ append-nil (starting k patches),
    )
