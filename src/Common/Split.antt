-- ===== src/Common/Split.antt =====
-- `strings.Split` at one byte.
use Prim.Native.Nat.{ℕ}
use mathlib.Core.Path.{◌≡◌, refl}
use mathlib.Core.Logic.{◌≢◌}
use mathlib.Core.List.{List, [], ◌∷◌, ◌++◌}
use native.Mathlib.Omega.{arith}
use tidewaiter.Common.Tests.{◌==◌, if◌then◌else◌}
use tidewaiter.Common.Lists.{All}

-- The parts between the separators: one more than there are separators.
unfoldable pub split_at : ℕ → List ℕ → List (List ℕ)
split_at sep [] = [] ∷ []
split_at sep (c ∷ cs) =
    if c == sep
    then [] ∷ split_at sep cs
    else elim (split_at sep cs) [ [] ↦ (c ∷ []) ∷ [] | part ∷ parts ↦ (c ∷ part) ∷ parts ]

-- A text without the separator is one part.
pub split_at_whole :
    (sep : ℕ) (part : List ℕ) → All (λ c. c ≢ sep) part → split_at sep part ≡ part ∷ []
unfolding split_at
split_at_whole sep [] h = refl
split_at_whole sep (c ∷ cs) h = ground (arith, split_at_whole sep cs h.1)

-- Up to the first separator is the first part.
pub split_at-append :
    (sep : ℕ) (part rest : List ℕ)
    → All (λ c. c ≢ sep) part
    → split_at sep (part ++ sep ∷ rest) ≡ part ∷ split_at sep rest
unfolding split_at
split_at-append sep [] rest h = ground arith
split_at-append sep (c ∷ cs) rest h = ground (arith, split_at-append sep cs rest h.1)
