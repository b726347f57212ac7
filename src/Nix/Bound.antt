-- ===== src/Nix/Bound.antt =====
-- What a drop-in of internal/nix/closure.go says, and what `Ensure` leaves of one.
use tidewaiter.Common.{
  ℕ, String, ◌+s◌, Bool, true, false, Bool-cases, Option, none, some, Option-cases, List, ◌∷◌, ◌||◌,
  str_eq, eq_iff, split, has_char, arith, ◌≡◌, refl, sym, ap, ◌∙◌, ◌≢◌, ◌⊎◌, inl, inr,
}
use package.text.Mathlib.TextLemmas.{append_assoc, cons-append, nil-append}
use tidewaiter.Source.{Answer, Answer-cases, answered, errored, answered-injective}
use tidewaiter.Nix.Paths.{join, dir_of}
use tidewaiter.Nix.Closure.{
  Binder, Read, contents, missing, unreadable, Create, created, exists, refused,
  closure_drop_in_text, drop_in_profile, profile_of, bindings, profile_line, cut_prefix, text, file,
  requisites, ensure, replace, written, add_new, bind,
}

newline : (rest : String) → "\n" +s rest ≡ String.◌∷◌ "\n" rest
newline rest = cons-append "\n" "" rest ∙ ap (String.◌∷◌ "\n") (nil-append rest)

split-append :
    (part rest : String)
    → has_char 10 part ≡ false
    → split 10 (part +s "\n" +s rest) ≡ part ∷ split 10 rest
unfolding split has_char
split-append String.[] rest h = rw (nil-append ("\n" +s rest), newline rest) refl
split-append (String.◌∷◌ c s) rest h =
    rw (cons-append c s ("\n" +s rest)) (ground (arith, split-append s rest))

has_char-append : (n : ℕ) (s t : String) → has_char n (s +s t) ≡ has_char n s || has_char n t
unfolding has_char
has_char-append n String.[] t = rw (nil-append t) refl
has_char-append n (String.◌∷◌ c s) t =
    rw (cons-append c s t) (ground (arith, has_char-append n s t))

cut_prefix-append : (p s : String) → cut_prefix p (p +s s) ≡ some s
unfolding cut_prefix
cut_prefix-append String.[] s = rw (nil-append s) refl
cut_prefix-append (String.◌∷◌ c p) s =
    rw (cons-append c p s) (ground (arith, cut_prefix-append p s))

regrouped :
    (a b t : String) → (a +s "\n" +s b +s "\n" +s t) +s "\n" ≡ a +s "\n" +s b +s "\n" +s t +s "\n"
regrouped a b t = simp (append_assoc)

abbrev comment : String
comment =
    "# Written by tidewaiter before each restart: what the profile points at, and its closure."

named-profile :
    (profile t : String)
    → has_char 10 profile ≡ false
    → split 10 ((comment +s "\n" +s (profile_line +s profile) +s "\n" +s t) +s "\n")
      ≡ comment ∷ (profile_line +s profile) ∷ split 10 (t +s "\n")
unfolding has_char
named-profile profile t h =
    let plain = has_char-append 10 profile_line profile ∙ h in
    rw
      (
        regrouped comment (profile_line +s profile) t,
        split-append comment ((profile_line +s profile) +s "\n" +s t +s "\n") refl,
        split-append (profile_line +s profile) (t +s "\n") plain,
      )
      refl

profile_of-skip :
    (line : String) (lines : List String)
    → cut_prefix profile_line line ≡ none
    → profile_of (line ∷ lines) ≡ profile_of lines
unfolding profile_of
profile_of-skip line lines h = rw (h, profile_of) refl

profile_of-found :
    (line profile : String) (lines : List String)
    → cut_prefix profile_line line ≡ some profile
    → profile_of (line ∷ lines) ≡ profile
unfolding profile_of
profile_of-found line profile lines h = rw (h, profile_of) refl

comment-other : cut_prefix profile_line comment ≡ none
unfolding cut_prefix
comment-other = refl

-- What a drop-in that is written for a profile says that it is for is that profile.
pub drop_in_profile-text :
    (profile : String) (closure : List String)
    → has_char 10 profile ≡ false
    → drop_in_profile (closure_drop_in_text profile closure) ≡ profile
unfolding drop_in_profile closure_drop_in_text
drop_in_profile-text profile closure h =
    let rest = join "\n" ("[Service]" ∷ bindings profile closure) in
    let line = profile_line +s profile in
    let lines = split 10 (rest +s "\n") in
    ap profile_of (named-profile profile rest h)
    ∙ profile_of-skip comment (line ∷ lines) comment-other
    ∙ profile_of-found line profile lines (cut_prefix-append profile_line profile)

-- What is asked of the host: what its drop-in file holds, as `look` tells, is what is read there, which
-- leaves it; and a write or a creation that went through leaves the text in it.
pub record IsHost {W : Type 0} (binder : Binder W) (path : String) (look : W → Option String)
    : Type 0 where
  pub reads : (w : W) → look (binder.read_file path w).1 ≡ look w
  pub finds : (s : String) (w : W) → (binder.read_file path w).0 ≡ contents s → look w ≡ some s
  pub lacks : (w : W) → (binder.read_file path w).0 ≡ missing → look w ≡ none
  pub writes :
      (s : String) (w : W)
      → (binder.write path s w).0 ≡ none
      → look (binder.write path s w).1 ≡ some s
  pub creates :
      (s : String) (w : W)
      → (binder.create path s w).0 ≡ created
      → look (binder.create path s w).1 ≡ some s

-- The drop-in there is one for the profile.
abbrev pub BoundFor : String → Option String → Type 0
BoundFor profile found = (s : String) × (found ≡ some s) × (drop_in_profile s ≡ profile)

-- An answer that it wrote is one for a drop-in for the profile.
abbrev pub Wrote : {W : Type 0} → (W → Option String) → String → Answer Bool × W → Type 0
Wrote look profile (answer, w) = answer ≡ answered true → BoundFor profile (look w)

Create-cases :
    (made : Create) → (made ≡ created) ⊎ ((made ≡ exists) ⊎ ((e : String) × (made ≡ refused e)))
Create-cases created = inl refl
Create-cases exists = inr (inl refl)
Create-cases (refused e) = inr (inr (e, refl))

Read-cases :
    (read : Read)
    → ((s : String) × (read ≡ contents s))
      ⊎ ((read ≡ missing) ⊎ ((e : String) × (read ≡ unreadable e)))
Read-cases (contents s) = inl (s, refl)
Read-cases missing = inr (inl refl)
Read-cases (unreadable e) = inr (inr (e, refl))

module _ {W : Type 0} (binder : Binder W) (unit profile : String) (look : W → Option String)
    (host : IsHost binder (file binder unit) look) (plain : has_char 10 profile ≡ false) where
  -- Text that is for the profile.
  abbrev Writes : Answer String × W → Type 0
  Writes (answer, w) = (s : String) → answer ≡ answered s → drop_in_profile s ≡ profile

  text-Writes : (target : String) (w : W) → Writes (text binder (file binder unit) target profile w)
  unfolding text
  text-Writes target w =
      let (answer, w') = requisites binder target w in
      elim (Answer-cases answer) [
        | inr (e, h) ↦ rw (h, text) (λ s x. absurd cc)
        | inl (closure, h) ↦
            let failure = (binder.make_dir (dir_of (file binder unit)) w').0 in
            elim (Option-cases failure) [
              | inr (e, f) ↦ rw (h, f, text) (λ s x. absurd cc)
              | inl f ↦
                  rw (h, f, text)
                    (λ s x.
                      ap drop_in_profile (sym (answered-injective x))
                      ∙ drop_in_profile-text profile closure plain)
            ]
      ]

  replace-Wrote :
      (s : String) (w : W)
      → drop_in_profile s ≡ profile
      → Wrote look profile (replace binder (file binder unit) s w)
  unfolding replace
  replace-Wrote s w p = elim (Option-cases (binder.write (file binder unit) s w).0) [
    | inr (e, h) ↦ rw (h, replace) (λ x. absurd cc)
    | inl h ↦ rw (h, replace) (λ x. (s, host.writes s w h, p))
  ]

  add_new-Wrote :
      (s : String) (w : W)
      → drop_in_profile s ≡ profile
      → Wrote look profile (add_new binder (file binder unit) s w)
  unfolding add_new
  add_new-Wrote s w p = elim (Create-cases (binder.create (file binder unit) s w).0) [
    | inl h ↦ rw (h, add_new) (λ x. (s, host.creates s w h, p))
    | inr (inl h) ↦ rw (h, add_new) (λ x. absurd cc)
    | inr (inr (e, h)) ↦ rw (h, add_new) (λ x. absurd cc)
  ]

  written-Wrote :
      (put : String → W → Answer Bool × W) (made : Answer String × W)
      → ((s : String) (w : W) → drop_in_profile s ≡ profile → Wrote look profile (put s w))
      → Writes made
      → Wrote look profile (written binder put made)
  written-Wrote put (answered s, w) puts h = puts s w (h s refl)
  written-Wrote put (errored e, w) puts h = λ x. absurd cc

  bind-Bound :
      (target : String) (w : W)
      → (bind binder unit profile target w).0 ≡ none
      → BoundFor profile (look (bind binder unit profile target w).1)
  unfolding bind
  bind-Bound target w =
      let (answer, w') = text binder (file binder unit) target profile w in
      elim (Answer-cases answer) [
        | inr (e, h) ↦ rw (h, bind) (λ x. absurd cc)
        | inl (s, h) ↦ rw (h, bind) (λ x. (s, host.writes s w' x, text-Writes target w s h))
      ]

  -- Where there is a drop-in for the profile already, `Ensure` leaves it as it is and does not say that
  -- it wrote one; and wherever it says so, there is then one that reads back as for the profile, as there
  -- is wherever `Bind` ends with no error. It is asked that the profile's path has no line break,
  -- and of the host that a drop-in is read as it is and written as given.
  pub ensure-Bound :
      (target : String) (w : W)
      → let (answer, w') = ensure binder unit profile target w in
        (BoundFor profile (look w) → (look w' ≡ look w) × (answer ≢ answered true))
        × Wrote look profile (answer, w')
        × ((bind binder unit profile target w).0 ≡ none
            → BoundFor profile (look (bind binder unit profile target w).1))
  unfolding ensure
  ensure-Bound target w =
      let w' = (binder.read_file (file binder unit) w).1 in
      let made = text binder (file binder unit) target profile w' in
      elim (Read-cases (binder.read_file (file binder unit) w).0) [
        | inr (inr (e, h)) ↦
            rw (h, ensure)
              ((λ b. (host.reads w, λ x. absurd cc)), (λ x. absurd cc), bind-Bound target w)
        | inr (inl h) ↦
            rw (h, ensure)
              (
                (λ (s, found, p). let none_there = host.lacks w h in absurd cc),
                written-Wrote (add_new binder (file binder unit)) made add_new-Wrote
                    (text-Writes target w'),
                bind-Bound target w,
              )
        | inl (s, h) ↦ elim (Bool-cases (str_eq (drop_in_profile s) profile)) [
          | inl y ↦
              rw (h, y, ensure)
                ((λ b. (host.reads w, λ x. absurd cc)), (λ x. absurd cc), bind-Bound target w)
          | inr n ↦
              rw (h, n, ensure)
                (
                  (λ (s', found, p).
                      let there = host.finds s w h in
                      let same : drop_in_profile s ≡ profile = cc in
                      let equal = (eq_iff (drop_in_profile s) profile).1 same in absurd cc),
                  written-Wrote (replace binder (file binder unit)) made replace-Wrote
                      (text-Writes target w'),
                  bind-Bound target w,
                )
        ]
      ]
