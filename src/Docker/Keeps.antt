-- ===== src/Docker/Keeps.antt =====
-- What a container keeps of its own when it is recreated, and which images are kept.
use tidewaiter.Common.{
  ℕ, zero, suc, min, String, ◌≡◌, refl, ◌≢◌, ◌⊎◌, List, [], ◌∷◌, ◌++◌, length, arith,
}
use tidewaiter.Model.{ContainerSpec}
use tidewaiter.Docker.Recreate.{ImageDefaults, items}
use tidewaiter.Docker.State.{Image, State, Deps}
use tidewaiter.Docker.Images.{first, beyond, prune}

-- The container was given an entrypoint: it is not the image's, or it has dropped the image's command.
abbrev pub IsOwnEntrypoint : ContainerSpec → ImageDefaults → Type 0
IsOwnEntrypoint spec image =
    (spec.entrypoint ≢ image.entrypoint) ⊎ ((items spec.cmd ≡ []) × (image.cmd ≢ []))

first_lem :
    (n : ℕ) (xs : List String)
    → (first n xs ++ beyond n xs ≡ xs) × (length (first n xs) ≡ min n (length xs))
first_lem zero xs = (refl, ground arith)
first_lem (suc n) [] = (refl, ground arith)
first_lem (suc n) (x ∷ xs) = ground (arith, first_lem n xs)

-- Pruning keeps the newest of the digests left behind, the one left last first: as many as the policy
-- says, or as there are.
pub prune_lem :
    {W : Type 0} (deps : Deps W) (name : String) (old : Image) (kept : List String) (keep : ℕ)
    (s : State W)
    → let history = old.digest ∷ kept in
      let left = (prune deps name old kept keep s).0 in
      (left ++ beyond keep history ≡ history) × (length left ≡ min keep (length history))
unfolding prune
prune_lem deps name old kept keep s = first_lem keep (old.digest ∷ kept)
