-- ===== src/Docker/Images.antt =====
-- The images of internal/docker/source.go: an image's repository, and the pruning of those left behind.
use Prim.Native.Char.{code}
use tidewaiter.Common.{
  has_char, ℕ, zero, suc, String, ◌+s◌, not, ◌&&◌, Option, none, some, List, [], ◌∷◌, if◌then◌else◌,
  ◌==◌,
}
use tidewaiter.Docker.State.{Image, State, Deps, say}

-- `strings.Cut` at "@".
abbrev pub before_at : String → String
before_at String.[] = String.[]
before_at (String.◌∷◌ c s) = if code c == 64 then String.[] else String.◌∷◌ c (before_at s)

-- The text up to its last colon, where no slash comes after one.
abbrev pub before_tag : String → Option String
before_tag String.[] = none
before_tag (String.◌∷◌ c s) = elim (before_tag s) [
  | some t ↦ some (String.◌∷◌ c t)
  | none ↦ if code c == 58 && not (has_char 47 s) then some String.[] else none
]

-- `repository`.
unfoldable pub repository : String → String
repository ref = elim (before_tag (before_at ref)) [ some t ↦ t | none ↦ before_at ref ]

-- The first `n` items, and the rest.
abbrev pub first : ℕ → List String → List String
first zero xs = []
first (suc n) [] = []
first (suc n) (x ∷ xs) = x ∷ first n xs

abbrev pub beyond : ℕ → List String → List String
beyond zero xs = xs
beyond (suc n) [] = []
beyond (suc n) (x ∷ xs) = beyond n xs

module _ {W : Type 0} (deps : Deps W) where
  open deps use {engine, dry_run, default_grace_seconds, pull, remove_image, auth_for, gate}

  -- The loop of `prune`.
  abbrev pub remove_images : String → String → List String → State W → State W
  remove_images name ref [] s = s
  remove_images name ref (digest ∷ rest) (k, w) =
      let (failure, w') = remove_image (repository ref +s "@" +s digest) w in
      remove_images name ref rest (
        elim failure [
          | none ↦ k
          | some e ↦ say (name +s ": could not prune image " +s digest +s " (" +s e +s ")") k
        ],
        w',
      )

  -- `prune`; `first` and `beyond` stop at the end of the history, as the source's `min` does.
  unfoldable pub prune : String → Image → List String → ℕ → State W → List String × State W
  prune name superseded kept keep_images s =
      let history = superseded.digest ∷ kept in
      (first keep_images history, remove_images name superseded.ref (beyond keep_images history) s)
