-- ===== src/Docker/Version/Bounds.antt =====
-- How the versions of internal/docker/version.go are ordered, and where the one that is spoken lies.
use tidewaiter.Common.{
  ℕ, zero, suc, ◌≤◌, ◌<◌, String, ◌≡◌, ◌≢◌, refl, ap, ◌∙◌, ◌⊎◌, Bool, true, false, Option, none,
  some, List, [], ◌∷◌, length, max, ltb, ◌==◌, ==_iff, split, digits, All, map, if◌then◌else◌,
  eq_iff, arith,
}
use tidewaiter.Docker.Version.{
  newest_api, Offer, int_of, part, diff, is_negative, Order, below, same, above, compare_from,
  compare_versions, nearest, is_above, is_below, choose,
}

-- Lists of numbers in order of their parts, the first that differs deciding, and a missing part being 0.
abbrev pub by : ℕ → ℕ → Order → Order
by a b later = if a == b then later else if ltb a b then below else above

abbrev pub order : List ℕ → List ℕ → Order
order [] [] = same
order [] (b ∷ bs) = by 0 b (order [] bs)
order (a ∷ xs) [] = by a 0 (order xs [])
order (a ∷ xs) (b ∷ ys) = by a b (order xs ys)

-- A part that is a number of 63 bits.
abbrev pub IsSmall : ℕ → Type 0
IsSmall n = n < 9223372036854775808

diff-by :
    (a b : ℕ) (later : Order)
    → IsSmall a
    → IsSmall b
    → (if diff a b == 0 then later else if is_negative (diff a b) then below else above)
      ≡ by a b later
diff-by a b later ha hb = ground (arith, ==_iff a b, ==_iff (diff a b) 0)

abbrev rest_of : List String → List String
rest_of [] = []
rest_of (p ∷ ps) = ps

part-suc : (ps : List String) (i : ℕ) → part ps (suc i) ≡ part (rest_of ps) i
part-suc [] i = refl
part-suc (p ∷ ps) i = refl

compare_from-suc :
    (n i : ℕ) (xs ys : List String)
    → compare_from n (suc i) xs ys ≡ compare_from n i (rest_of xs) (rest_of ys)
unfolding compare_from
compare_from-suc zero i xs ys = refl
compare_from-suc (suc n) i xs ys =
    rw (part-suc xs i, part-suc ys i, compare_from-suc n (suc i) xs ys) refl

-- A version of numbers.
abbrev pub AllSmall : List String → Type 0
AllSmall ps = All (λ p. IsSmall (int_of p)) ps

compare_from-order :
    (n : ℕ) (xs ys : List String)
    → length xs ≤ n
    → length ys ≤ n
    → AllSmall xs
    → AllSmall ys
    → compare_from n 0 xs ys ≡ order (map int_of xs) (map int_of ys)
unfolding compare_from
compare_from-order zero [] [] p q a b = refl
compare_from-order zero [] (y ∷ ys) p q a b = absurd (omega arith)
compare_from-order zero (x ∷ xs) ys p q a b = absurd (omega arith)
compare_from-order (suc n) [] [] p q a b = rw (compare_from-suc n 0 [] []) (
    diff-by 0 0 _ (omega arith) (omega arith)
    ∙ compare_from-order n [] [] (omega arith) (omega arith) tt tt)
compare_from-order (suc n) [] (y ∷ ys) p q a b =
    diff-by 0 (int_of y) _ (omega arith) b.0
    ∙ ap (by 0 (int_of y)) (
        compare_from-suc n 0 [] (y ∷ ys)
        ∙ compare_from-order n [] ys (omega arith) (omega arith) tt b.1)
compare_from-order (suc n) (x ∷ xs) [] p q a b =
    diff-by (int_of x) 0 _ a.0 (omega arith)
    ∙ ap (by (int_of x) 0) (
        compare_from-suc n 0 (x ∷ xs) []
        ∙ compare_from-order n xs [] (omega arith) (omega arith) a.1 tt)
compare_from-order (suc n) (x ∷ xs) (y ∷ ys) p q a b =
    diff-by (int_of x) (int_of y) _ a.0 b.0
    ∙ ap (by (int_of x) (int_of y)) (
        compare_from-suc n 0 (x ∷ xs) (y ∷ ys)
        ∙ compare_from-order n xs ys (omega arith) (omega arith) a.1 b.1)

-- Two versions whose parts are numbers of 63 bits are ordered by number, part by part from the first, a
-- part that is missing counting as 0; that their differences are taken in 64 bits makes no difference.
pub compare_versions-order :
    (a b : String)
    → AllSmall (split 46 a)
    → AllSmall (split 46 b)
    → compare_versions a b ≡ order (map int_of (split 46 a)) (map int_of (split 46 b))
unfolding compare_versions
compare_versions-order a b p q =
    compare_from-order (max (length (split 46 a)) (length (split 46 b))) (split 46 a) (split 46 b)
      (omega arith) (omega arith) p q

diff_self : (a : ℕ) → a ≤ 18446744073709551616 → diff a a ≡ 0
diff_self a h = ground arith

nearest-word : (negative : Bool) (n : Option ℕ) → nearest negative n < 18446744073709551616
nearest-word true none = omega arith
nearest-word false none = omega arith
nearest-word true (some n) = ground arith
nearest-word false (some n) = ground arith

int_of-word : (s : String) → int_of s < 18446744073709551616
unfolding int_of
int_of-word String.[] = omega arith
int_of-word (String.◌∷◌ c s) = ground (
  arith,
  nearest-word true (digits s),
  nearest-word false (digits s),
  nearest-word false (digits (String.◌∷◌ c s)),
)

part-word : (ps : List String) (i : ℕ) → part ps i < 18446744073709551616
part-word [] i = omega arith
part-word (p ∷ ps) zero = int_of-word p
part-word (p ∷ ps) (suc i) = part-word ps i

compare_from-same : (n i : ℕ) (xs : List String) → compare_from n i xs xs ≡ same
unfolding compare_from
compare_from-same zero i xs = refl
compare_from-same (suc n) i xs =
    let none_left : diff (part xs i) (part xs i) ≡ 0 =
      diff_self (part xs i) (omega (arith, part-word xs i)) in
    rw none_left (compare_from-same n (suc i) xs)

compare_versions-same : (a : String) → compare_versions a a ≡ same
unfolding compare_versions
compare_versions-same a =
    compare_from-same (max (length (split 46 a)) (length (split 46 a))) 0 (split 46 a)

-- The version that is spoken is the newest that the daemon offers, the newest that is known here, or the
-- daemon's oldest; it is never below the daemon's oldest, where there is one; and it is above the newest
-- that is known here only where it is the daemon's oldest.
pub choose-Bounds :
    (offer : Offer)
    → let version = choose offer in
      ((version ≡ offer.newest) ⊎ (version ≡ newest_api) ⊎ (version ≡ offer.oldest))
      × (offer.oldest ≢ "" → is_below (compare_versions version offer.oldest) ≡ false)
      × ((is_above (compare_versions version newest_api) ≡ false) ⊎ (version ≡ offer.oldest))
unfolding choose
choose-Bounds offer = ground (
  arith,
  eq_iff offer.oldest "",
  compare_versions-same offer.oldest,
  compare_versions-same newest_api,
)
