-- ===== src/Docker/Version/Examples.antt =====
-- Versions of the Engine API.
use tidewaiter.Common.{◌≡◌, refl, ◌≢◌, ◌⊎◌, false, map, split, digits, arith}
use tidewaiter.Docker.Version.{
  newest_api, Offer, int_of, below, compare_versions, is_above, is_below, choose,
}
use tidewaiter.Docker.Version.Bounds.{order, AllSmall, compare_versions-order, choose-Bounds}

choose_old : choose (record { newest = "1.9"; oldest = "" }) ≡ "1.9"
unfolding choose compare_versions split digits
choose_old = refl

abbrev new_docker : Offer
new_docker = record { newest = "1.60"; oldest = "1.44" }

choose_new : choose new_docker ≡ "1.56"
unfolding choose compare_versions split digits
choose_new = refl

choose-Bounds_example :
    let version = choose new_docker in
    ((version ≡ "1.60") ⊎ (version ≡ newest_api) ⊎ (version ≡ "1.44"))
    × (new_docker.oldest ≢ "" → is_below (compare_versions version "1.44") ≡ false)
    × ((is_above (compare_versions version newest_api) ≡ false) ⊎ (version ≡ "1.44"))
choose-Bounds_example = choose-Bounds new_docker

small_9 : AllSmall (split 46 "1.9")
unfolding split int_of digits
small_9 = (omega arith, (omega arith, tt))

small_10 : AllSmall (split 46 "1.10")
unfolding split int_of digits
small_10 = (omega arith, (omega arith, tt))

compare_versions-order_example :
    compare_versions "1.9" "1.10"
    ≡ order (map int_of (split 46 "1.9")) (map int_of (split 46 "1.10"))
compare_versions-order_example = compare_versions-order "1.9" "1.10" small_9 small_10

nine_before_ten : compare_versions "1.9" "1.10" ≡ below
unfolding compare_versions split digits
nine_before_ten = refl
