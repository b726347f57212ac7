-- ===== src/Nix/Paths.antt =====
-- Go's path/filepath as internal/nix/closure.go uses it: `filepath.Dir` and `filepath.Join`, on Unix.
use tidewaiter.Common.{
  String, ◌+s◌, Bool, true, false, List, [], ◌∷◌, if◌then◌else◌, str_eq, split, ◌≡◌, refl,
}

-- The texts with a separator between them: `strings.Join`.
abbrev pub join : String → List String → String
join sep [] = ""
join sep (s ∷ []) = s
join sep (s ∷ t ∷ ts) = s +s sep +s join sep (t ∷ ts)

-- A step up from the parts so far, the last of which is first: at the root there is none.
abbrev up : Bool → List String → List String
up true [] = []
up false [] = ".." ∷ []
up rooted (part ∷ parts) = if str_eq part ".." then ".." ∷ part ∷ parts else parts

-- The parts of a path with the empty ones and `.` left out and `..` taken.
walk : Bool → List String → List String → List String
walk rooted [] done = done
walk rooted (part ∷ parts) done =
    if str_eq part ""
    then walk rooted parts done
    else if str_eq part "."
    then walk rooted parts done
    else if str_eq part ".."
    then walk rooted parts (up rooted done)
    else walk rooted parts (part ∷ done)

turned : List String → List String → List String
turned [] done = done
turned (s ∷ ss) done = turned ss (s ∷ done)

abbrev is_rooted : List String → Bool
is_rooted [] = false
is_rooted (part ∷ []) = false
is_rooted (part ∷ q ∷ parts) = str_eq part ""

abbrev spelled : Bool → List String → String
spelled true parts = "/" +s join "/" parts
spelled false [] = "."
spelled false (part ∷ parts) = join "/" (part ∷ parts)

clean_parts : List String → String
unfolding walk turned
clean_parts parts = spelled (is_rooted parts) (turned (walk (is_rooted parts) parts []) [])

-- All but the last part, which is left empty.
abbrev before_last : List String → List String
before_last [] = []
before_last (part ∷ []) = "" ∷ []
before_last (part ∷ q ∷ parts) = part ∷ before_last (q ∷ parts)

-- `filepath.Dir`.
unfoldable pub dir_of : String → String
unfolding clean_parts split
dir_of path = clean_parts (before_last (split 47 path))

-- `filepath.Join`, of three parts of which the last two are not empty.
unfoldable pub join_path : String → String → String → String
unfolding clean_parts split
join_path dir sub name =
    if str_eq dir ""
    then clean_parts (split 47 (sub +s "/" +s name))
    else clean_parts (split 47 (dir +s "/" +s sub +s "/" +s name))

dir_of_profile : dir_of "/nix/var//profiles/./a/../app" ≡ "/nix/var/profiles"
unfolding dir_of
dir_of_profile = refl

dir_of_root : dir_of "/app" ≡ "/"
unfolding dir_of
dir_of_root = refl

dir_of_name : dir_of "app" ≡ "."
unfolding dir_of
dir_of_name = refl

dir_of_above : dir_of "../../app" ≡ "../.."
unfolding dir_of
dir_of_above = refl

join_path_run :
    join_path "/run/systemd/system/" "a.service.d" "x.conf"
    ≡ "/run/systemd/system/a.service.d/x.conf"
unfolding join_path
join_path_run = refl
