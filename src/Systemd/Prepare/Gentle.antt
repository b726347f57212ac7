-- ===== src/Systemd/Prepare/Gentle.antt =====
-- What preparing the units leaves alone.
use tidewaiter.Common.{
  String, ◌≡◌, Bool, true, false, Option, none, some, List, [], ◌∷◌, arith, str_eq, eq_iff,
  contains, inl, inr, Bool-cases, Option-cases,
}
use tidewaiter.Source.{Answer-cases, answered}
use tidewaiter.Systemd.Settings.{Policy}
use tidewaiter.Systemd.Parse.{parse_policy}
use tidewaiter.Systemd.State.{UnitFile}
use tidewaiter.Systemd.Prepare.{
  PrepareDeps, Prepared, nothing, Logged, say_all, ensure_bound, seed, prepare_unit, prepare_file,
  prepare_all, reload, prepare,
}

-- What is kept by every look at the world, by a drop-in that is written where there was none, by a reload,
-- and by setting a profile that was just read and not there.
pub record IsGentle {W : Type 0} (deps : PrepareDeps W) (P : W → Type 0) : Type 0 where
  pub units : (w : W) → P w → P (deps.read_units w).1
  pub current : (profile : String) (w : W) → P w → P (deps.current profile w).1
  pub seeds :
      (profile target : String) (w : W)
      → P w
      → (deps.current profile w).0 ≡ answered ""
      → P (deps.set_profile profile target (deps.current profile w).1).1
  pub ensures :
      (unit profile target : String) (w : W) → P w → P (deps.ensure unit profile target w).1
  pub reloads : (w : W) → P w → P (deps.daemon_reload w).1

module _ {W : Type 0} (deps : PrepareDeps W) (P : W → Type 0) (gentle : IsGentle deps P) where
  ensure_bound-Keeps :
      (policy : Policy) (target : String) (seeded : Bool) (s : Logged W)
      → P s.1
      → P (ensure_bound deps policy target seeded s).1.1
  unfolding ensure_bound
  ensure_bound-Keeps policy target seeded (lines, w) p =
      ground (arith, p, gentle.ensures policy.unit policy.profile target w p)

  seed-Keeps :
      (policy : Policy) (s : Logged W)
      → P (deps.set_profile policy.profile policy.desired s.1).1
      → P (seed deps policy s).1.1
  unfolding seed
  seed-Keeps policy (lines, w) p =
      let (failure, w') = deps.set_profile policy.profile policy.desired w in
      elim (Option-cases failure) [
        | inl n ↦ rw (n, seed) (ensure_bound-Keeps policy policy.desired true (_, w') p)
        | inr (e, h) ↦ rw (h, seed) p
      ]

  prepare_unit-Keeps : (policy : Policy) (s : Logged W) → P s.1 → P (prepare_unit deps policy s).1.1
  unfolding prepare_unit
  prepare_unit-Keeps policy (lines, w) p =
      let (answer, w') = deps.current policy.profile w in
      let p' = gentle.current policy.profile w p in
      elim (Answer-cases answer) [
        | inr (e, h) ↦ rw (h, prepare_unit) p'
        | inl (target, h) ↦ elim (Bool-cases (str_eq target "")) [
          | inr n ↦ rw (h, prepare_unit, n) (ensure_bound-Keeps policy target false (lines, w') p')
          | inl y ↦
              let none_there : answer ≡ answered "" = ground (arith, eq_iff target "") in
              rw (h, prepare_unit, y)
                (seed-Keeps policy (lines, w')
                  (gentle.seeds policy.profile policy.desired w p none_there))
        ]
      ]

  prepare_file-Keeps :
      (policy : Option Policy) (finished : List String) (prepared : Prepared) (s : Logged W)
      → P s.1
      → P (prepare_file deps policy finished prepared s).2.1
  unfolding prepare_file
  prepare_file-Keeps none finished prepared s p = p
  prepare_file-Keeps (some policy) finished prepared s p =
      elim (Bool-cases (contains finished policy.unit)) [
        | inl y ↦ rw y p
        | inr n ↦ rw n (prepare_unit-Keeps policy s p)
      ]

  prepare_all-Keeps :
      (files : List UnitFile) (finished : List String) (prepared : Prepared) (s : Logged W)
      → P s.1
      → P (prepare_all deps files finished prepared s).1.1
  unfolding prepare_all
  prepare_all-Keeps [] finished prepared s p = p
  prepare_all-Keeps (file ∷ files) finished prepared (lines, w) p =
      let (policy, warnings) = parse_policy (deps.decode file.contents) file.name in
      let s : Logged W = (say_all warnings lines, w) in
      let (finished', prepared', s') = prepare_file deps policy finished prepared s in
      prepare_all-Keeps files finished' prepared' s'
        (prepare_file-Keeps policy finished prepared s p)

  reload-Keeps : (r : Prepared × Logged W) → P r.1.1 → P (reload deps r).1.1
  unfolding reload
  reload-Keeps (prepared, (lines, w)) p = ground (arith, p, gentle.reloads w p)

  -- Preparing the units keeps whatever is kept by looks at the world, by drop-ins that are written where
  -- they are missing, by a reload, and by setting a profile right after it was read and was not there: so
  -- no profile that is there is ever moved.
  pub prepare-Keeps : (s : Logged W) → P s.1 → P (prepare deps s).1.1
  unfolding prepare
  prepare-Keeps (lines, w) p =
      let (answer, w') = deps.read_units w in
      let p' = gentle.units w p in
      elim (Answer-cases answer) [
        | inr (e, h) ↦ rw (h, prepare) p'
        | inl (files, h) ↦
            rw (h, prepare)
              (reload-Keeps (prepare_all deps files [] nothing (lines, w'))
                (prepare_all-Keeps files [] nothing (lines, w') p'))
      ]
