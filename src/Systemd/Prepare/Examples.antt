-- ===== src/Systemd/Prepare/Examples.antt =====
-- Two units of which one has no profile yet, on a host that is its profiles.
use tidewaiter.Common.{
  String, ◌≡◌, refl, sym, ap, str_eq, true, inl, inr, Bool-cases, ◌∙◌, false, none, [], ◌∷◌, Map,
  insert, get_or, lookup-insert, eq_iff, arith,
}
use tidewaiter.Source.{answered, answered-injective}
use tidewaiter.Systemd.Settings.{Document, word, item, object}
use tidewaiter.Systemd.Prepare.{PrepareDeps, prepare}
use tidewaiter.Systemd.Prepare.Gentle.{IsGentle, prepare-Keeps}

abbrev unit_file : String → Document
unit_file name = object (
    ("unit", item (word name))
    ∷ ("desired", item (word "/nix/store/new"))
    ∷ ("profile", item (word name))
    ∷ [])

abbrev profiles : PrepareDeps (Map String)
profiles = record {
  read_units = λ w. (
    answered (
        record { name = "a.json"; contents = "/a" }
        ∷ record { name = "b.json"; contents = "/b" }
        ∷ []),
    w,
  );
  decode = unit_file;
  current = λ profile w. (answered (get_or "" profile w), w);
  set_profile = λ profile target w. (none, insert profile target w);
  ensure = λ unit profile target w. (answered false, w);
  daemon_reload = λ w. (none, w);
}

abbrev Old : Map String → Type 0
Old w = get_or "" "/a" w ≡ "/nix/store/old"

other_profile :
    (profile target : String) (w : Map String)
    → Old w
    → answered (get_or "" profile w) ≡ answered ""
    → Old (insert profile target w)
other_profile profile target w p h = elim (Bool-cases (str_eq profile "/a")) [
  | inr n ↦ rw (get_or, lookup-insert profile "/a" target w, n) p
  | inl y ↦
      let same : profile ≡ "/a" = (eq_iff profile "/a").0 y in
      let gone : get_or "" "/a" w ≡ "" =
        ap (λ x. get_or "" x w) (sym same) ∙ answered-injective h in
      let no : str_eq "" "/nix/store/old" ≡ true = (eq_iff "" "/nix/store/old").1 (sym gone ∙ p) in
      absurd (ground arith)
]

profiles-IsGentle : IsGentle profiles Old
profiles-IsGentle = record {
  units = λ w p. p;
  current = λ profile w p. p;
  seeds = other_profile;
  ensures = λ unit profile target w p. p;
  reloads = λ w p. p;
}

prepare-Keeps_example : Old (prepare profiles ([], ("/a", "/nix/store/old") ∷ [])).1.1
prepare-Keeps_example =
    prepare-Keeps profiles Old profiles-IsGentle ([], ("/a", "/nix/store/old") ∷ []) refl
