-- ===== src/FileArray/Message.antt =====
-- The array of files that a message to an agent carries.
use testbus.Base.{ℕ, ◌+◌, ◌%◌, ◌^◌, ◌≡◌, List, [], ◌∷◌, some}
use testbus.Dict.{Variants, no_variants, variant, append_variant}
use testbus.FileStore.{File, Store, at}
use testbus.FileArray.{FileArray}
use testbus.FileArray.Transfer.{arrived}
use testbus.FileArray.Serial.{serialize}

unfoldable dicts_of : List File → Variants
dicts_of [] = no_variants
dicts_of (x ∷ xs) = variant (serialize x) (dicts_of xs)

unfoldable append_dicts : Variants → List File → Variants
append_dicts vs [] = vs
append_dicts vs (x ∷ xs) = append_dicts (append_variant vs (serialize x)) xs

-- Each file arrived, under the ids from `id` on, at the addresses of the second list.
abbrev pub Arrived : Store → ℕ → List File → List ℕ → Type 0
Arrived s id [] [] = Unit {0}
Arrived s id [] (f ∷ fs) = ⊥
Arrived s id (x ∷ xs) [] = ⊥
Arrived s id (x ∷ xs) (f ∷ fs) =
    (at s f ≡ some (arrived id x)) × Arrived s ((id + 1) % 2 ^ 32) xs fs

-- Nothing of a live file changes.
abbrev pub Untouched : Store → Store → Type 0
Untouched s s' = (a : ℕ) (y : File) → at s a ≡ some y → at s' a ≡ some y
