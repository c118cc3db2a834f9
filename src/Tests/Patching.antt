-- ===== src/Tests/Patching.antt =====
-- The theorems on resource patches at a card with one name.
use retro_cloud_sync.Prelude.{
  Pairwise, ℕ, ◌≡◌, refl, true, none, some, List, [], ◌∷◌, ◌++◌, codes, Bytes, pos, Pairwise, any,
}
use retro_cloud_sync.Vcard.Document.{Parser}
use retro_cloud_sync.Icalendar.Parsing.{Library}
use retro_cloud_sync.Patch.Folding.{fold_line, add, add_all, fold_pieces, back}
use retro_cloud_sync.Patch.Folded.{IsFolded, fold_line_lem}
use retro_cloud_sync.Patch.Edits.{Edit}
use retro_cloud_sync.Patch.Scanning.{Patch}
use retro_cloud_sync.Patch.Splicing.{sort_patches, in_order}
use retro_cloud_sync.Patch.Ordered.{Before, starting, sort_patches_lem}

abbrev parser : Parser
parser text = some ([], [])

abbrev library : Library ℕ
library = record { parse = λ text. some 0; is_calendar = λ root. true; count_errors = λ root. 0 }

abbrev card : Bytes → Bytes
card name =
    codes "BEGIN:VCARD"
    ++ 13 ∷ 10 ∷ codes "FN:"
    ++ name
    ++ 13 ∷ 10 ∷ codes "END:VCARD"
    ++ 13 ∷ 10 ∷ []

abbrev rename : Edit
rename = record {
  component = 0;
  property = some (codes "FN");
  group = none;
  occurrence = pos 0;
  value = some (codes "Bob");
  parameters = none;
  replacement_group = none;
  replacement_property = none;
}

abbrev bob : Bytes
bob = card (codes "Bob")

fold_line_lem_example : IsFolded [] (codes "FN:" ++ codes "Bob") (codes "FN:Bob" ++ 13 ∷ 10 ∷ [])
unfolding any fold_line add_all add fold_pieces back
fold_line_lem_example =
    fold_line_lem [] (codes "FN:") (codes "Bob") b'F' (codes "N:Bob")
      {after = codes "FN:Bob" ++ 13 ∷ 10 ∷ []} refl refl refl refl

abbrev patches : List Patch
patches =
    (record { start = 4; until = 6; replacement = []; found = true; seen = 1 })
    ∷ (record { start = 2; until = 3; replacement = []; found = true; seen = 1 })
    ∷ []

sort_patches_lem_example :
    Pairwise Before (in_order [] (sort_patches [] patches))
    × (starting 2 (in_order [] (sort_patches [] patches)) ≡ starting 2 patches)
sort_patches_lem_example = sort_patches_lem patches 2
