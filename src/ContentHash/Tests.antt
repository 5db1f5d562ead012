-- ===== src/ContentHash/Tests.antt =====
-- A small set, and the theorems at it.
use astinus.Base.{◌*◌, ◌^◌, ◌≡◌, refl, List, [], ◌∷◌, none, some, Text, codes, text_eq, nat_eq}
use astinus.Base.Dict.{lookup, insert}
use astinus.ContentHash.{Evidence, bloom_hashes, new_base_set, add_all, find_evidence}
use astinus.ContentHash.Laws.{first_evidence, find_evidence-add_all}

abbrev at : Text → Evidence
at p = record { base_path = p; layer_index = 0; size = 3 }

abbrev files : List (Text × Evidence)
files =
    (codes "00000000000000ff00000000000001Fe", at (codes "bin/sh"))
    ∷ (codes "0102zz", at [])
    ∷ (codes "00000000000000ff00000000000001Fe", at (codes "bin/ash"))
    ∷ []

run_hashes :
    (bloom_hashes (codes "00000000000000ff00000000000001Fe") ≡ (255, 510))
    × (bloom_hashes (codes "0102zz") ≡ (258 * 256 ^ 6, 1))
unfolding bloom_hashes
run_hashes = (refl, refl)

run_find :
    (find_evidence (add_all (new_base_set 64 3) files) (codes "0102zz") ≡ some (at []))
    × (find_evidence (add_all (new_base_set 64 3) files) (codes "0103") ≡ none)
unfolding find_evidence add_all new_base_set bloom_hashes lookup insert
run_find = (refl, refl)

find_evidence-add_all_example :
    find_evidence (add_all (new_base_set 64 3) files) (codes "0102zz")
    ≡ first_evidence files (codes "0102zz")
find_evidence-add_all_example = find_evidence-add_all 64 3 files (codes "0102zz")
