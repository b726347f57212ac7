-- ===== src/Docker/Version.antt =====
-- internal/docker/version.go: which version of the Engine API is spoken. An answer of `/version` is a
-- parameter. A part of a version is an int of 64 bits, and so is a difference of two, which wraps.
pub mod Bounds
mod Examples
use tidewaiter.Common.{
  ℕ, zero, suc, ◌+◌, ◌-◌, ◌%◌, ◌≤◌, ◌<◌, String, ◌+s◌, ◌≡◌, refl, ◌⊎◌, Bool, true, false, Option,
  none, some, List, [], ◌∷◌, length, max, leb, ltb, ◌==◌, split, atoi, digits, Whole, plus, minus,
  if◌then◌else◌, str_eq, not, ◌&&◌, arith,
}
use Prim.Native.Nat.{◌^◌}
use Prim.Native.Char.{code}
use tidewaiter.Source.{Answer, answered, errored}

abbrev pub newest_api : String
newest_api = "1.56"

-- `offer`; "" is no oldest version.
pub record Offer : Type 0 where
  pub newest : String
  pub oldest : String

-- The residue of a whole number, of 64 bits.
abbrev pub word : Whole → ℕ
word (plus n) = n % 2 ^ 64
word (minus n) = (2 ^ 64 - n % 2 ^ 64) % 2 ^ 64

-- What `strconv.Atoi` returns besides its error: 0 for what is no number, and the nearest int for one that
-- is out of range.
abbrev pub nearest : Bool → Option ℕ → ℕ
nearest negative none = 0
nearest true (some n) = if leb n (2 ^ 63) then word (minus n) else 2 ^ 63
nearest false (some n) = if ltb n (2 ^ 63) then n else 2 ^ 63 - 1

unfoldable pub int_of : String → ℕ
int_of String.[] = 0
int_of (String.◌∷◌ c s) =
    if code c == 45
    then nearest true (digits s)
    else if code c == 43
    then nearest false (digits s)
    else nearest false (digits (String.◌∷◌ c s))

-- `part`.
abbrev pub part : List String → ℕ → ℕ
part [] i = 0
part (p ∷ ps) zero = int_of p
part (p ∷ ps) (suc i) = part ps i

-- `diff`, and whether it is negative.
abbrev pub diff : ℕ → ℕ → ℕ
diff a b = (a + (2 ^ 64 - b)) % 2 ^ 64

abbrev pub is_negative : ℕ → Bool
is_negative d = leb (2 ^ 63) d

pub data Order : Type 0 where
  below same above : Order

-- The loop of `compareVersions`, for so many parts from the i-th.
unfoldable pub compare_from : ℕ → ℕ → List String → List String → Order
unfolding int_of
compare_from zero i xs ys = same
compare_from (suc n) i xs ys =
    let later = compare_from n (suc i) xs ys in
    let d = diff (part xs i) (part ys i) in
    if d == 0 then later else if is_negative d then below else above

-- `compareVersions`.
unfoldable pub compare_versions : String → String → Order
unfolding compare_from
compare_versions a b =
    let xs = split 46 a in let ys = split 46 b in compare_from (max (length xs) (length ys)) 0 xs ys

abbrev pub is_above : Order → Bool
is_above above = true
is_above _ = false

abbrev pub is_below : Order → Bool
is_below below = true
is_below _ = false

-- `choose`.
unfoldable pub choose : Offer → String
choose offer =
    let version =
      if is_above (compare_versions offer.newest newest_api) then newest_api else offer.newest in
    if not (str_eq offer.oldest "") && is_below (compare_versions version offer.oldest)
    then offer.oldest
    else version

-- `String`.
abbrev pub offer_text : Offer → String
offer_text offer =
    if str_eq offer.oldest ""
    then "up to v" +s offer.newest
    else "v" +s offer.oldest +s " to v" +s offer.newest

-- `apiVersion`, with what it logs: over the version that is kept, "" for none, the error of a context
-- that is done, and what `/version` answers.
unfoldable pub api_version :
    String → Option String → Answer Offer → Answer String × String × List String
unfolding choose
api_version kept cut (answered offer) =
    if not (str_eq kept "")
    then (answered kept, kept, [])
    else let version = choose offer in
      (
        answered version,
        version,
        ("Speaking Docker Engine API v" +s version +s " (Docker offers " +s offer_text offer +s ")")
            ∷ [],
      )
api_version kept cut (errored e) =
    if not (str_eq kept "") then (answered kept, kept, []) else elim cut [
      | some c ↦ (errored ("Docker API /version failed: " +s e), kept, [])
      | none ↦ (
        answered newest_api,
        newest_api,
        ("Docker API /version failed, so speaking v" +s newest_api
              +s " until Docker says otherwise: " +s e)
            ∷ [],
      )
    ]

-- `forget`.
abbrev pub forget : String → String → String
forget version kept = if str_eq kept version then "" else kept
