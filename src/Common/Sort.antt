-- ===== src/Common/Sort.antt =====
-- `slices.Sort` on texts, by the order of their bytes (which for UTF-8 is the order of their code
-- points), and the sets of texts that the code keeps as maps to true.
use Prim.Native.Nat.{Ordering}
use Prim.Native.String.{String, compare}
use mathlib.Core.Path.{◌≡◌}
use mathlib.Core.Logic.{◌↔◌, ◌⊎◌}
use mathlib.Core.Bool.{Bool, true, false}
use mathlib.Core.List.{List, [], ◌∷◌}
use native.Mathlib.Omega.{arith}
use text.Mathlib.TextEquality.{eq_iff}
use tidewaiter.Common.Tests.{if◌then◌else◌}
use tidewaiter.Common.Lists.{Elem}
use tidewaiter.Common.Text.{contains}

abbrev pub str_leb : String → String → Bool
str_leb s t = elim (compare s t) [ Ordering.gt ↦ false | _ ↦ true ]

abbrev pub place : String → List String → List String
place s [] = s ∷ []
place s (t ∷ ts) = if str_leb s t then s ∷ t ∷ ts else t ∷ place s ts

-- `slices.Sort`: equal texts cannot be told apart, so any sorting gives this list.
abbrev pub sort : List String → List String
sort [] = []
sort (s ∷ ss) = place s (sort ss)

-- `set[name] = true`, over the names set so far.
abbrev pub set_add : String → List String → List String
set_add s set = if contains set s then set else s ∷ set

pub contains_iff : (ss : List String) (s : String) → (contains ss s ≡ true) ↔ Elem s ss
contains_iff [] s = (λ e. cc, λ h. elim h [ ])
contains_iff (t ∷ ts) s = ground (arith, eq_iff t s, contains_iff ts s)

Elem-place : (s t : String) (ts : List String) → Elem s (place t ts) ↔ ((t ≡ s) ⊎ Elem s ts)
Elem-place s t [] = (λ h. h, λ h. h)
Elem-place s t (u ∷ us) = ground (arith, Elem-place s t us)

-- Sorting keeps exactly the items.
pub Elem-sort : (s : String) (ss : List String) → Elem s (sort ss) ↔ Elem s ss
Elem-sort s [] = (λ h. h, λ h. h)
Elem-sort s (t ∷ ts) = ground (arith, Elem-place s t (sort ts), Elem-sort s ts)

pub Elem-set_add :
    (s t : String) (set : List String) → Elem s (set_add t set) ↔ ((t ≡ s) ⊎ Elem s set)
Elem-set_add s t set = ground (arith, contains_iff set t, contains_iff set s)
