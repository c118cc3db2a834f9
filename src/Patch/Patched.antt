-- ===== src/Patch/Patched.antt =====
-- Source: source/shared/RCResourcePatch.c. What a patch puts in the place of what.
use retro_cloud_sync.Prelude.{
  ℕ, ◌+◌, ◌≤◌, ◌≡◌, true, List, [], ◌∷◌, ◌++◌, length, drop, Bytes, at, All,
}
use retro_cloud_sync.Patch.Edits.{Edit}
use retro_cloud_sync.Patch.Scanning.{Patch, Target}
use retro_cloud_sync.Patch.Splicing.{in_order, sort_patches, patches_of}
use retro_cloud_sync.Patch.Scanned.{edits_of, IsPatch}

-- The rest of a base from a position on, and the rest of the result: every patch takes its range out,
-- puts its replacement in, and all else stays.
pub data Spliced : ℕ → Bytes → List Patch → Bytes → Type 0 where
  no_patch : {at : ℕ} {rest : Bytes} → Spliced at rest [] rest
  one_patch :
      {at : ℕ} {rest out : Bytes} {p : Patch} {patches : List Patch}
      (kept gone rest_then out_then : Bytes)
      → rest ≡ kept ++ (gone ++ rest_then)
      → out ≡ kept ++ (p.replacement ++ out_then)
      → p.start ≡ at + length kept
      → p.until ≡ p.start + length gone
      → Spliced p.until rest_then patches out_then
      → Spliced at rest (p ∷ patches) out

-- The range of a patch lies in a base of this length.
abbrev InBase : ℕ → Patch → Type 0
InBase total p = (p.start ≤ p.until) × (p.until ≤ total)

-- What is put behind the result, told apart from it.
record Adds (base : Bytes) (cursor : ℕ) (result : Bytes) (patches : List Patch) (out : Bytes)
    : Type 0 where
  tail : Bytes
  whole : out ≡ result ++ tail
  spliced : Spliced cursor (drop cursor base) patches tail

abbrev pub IsFound : Target → Type 0
IsFound t = t.patch.found ≡ true

-- What a patch that succeeds has done: every edit has found its place in the base, and the result is
-- the base with the range of each edit replaced, in the order of the ranges.
pub record IsPatched (base : Bytes) (edits : List Edit) (out : Bytes) : Type 0 where
  pub targets : List Target
  pub same_edits : edits_of targets ≡ edits
  pub found : All IsFound targets
  pub patches : All (IsPatch (length base)) targets
  pub spliced : Spliced 0 base (in_order [] (sort_patches [] (patches_of targets))) out
