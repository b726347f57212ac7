-- ===== src/Reboot/Times.antt =====
-- Windows of internal/reboot/reboot.go: what is read from a text, and which minutes a window holds.
use tidewaiter.Common.{
  ℕ, ◌+◌, ◌-◌, ◌*◌, ◌/◌, ◌%◌, ◌≤◌, ◌<◌, ◌≡◌, refl, ap, ◌∙◌, inl, inr, ◌≢◌, ◌↔◌, ◌⊎◌, Bool, true,
  false, Option, none, some, List, [], ◌∷◌, ◌++◌, All, split_at_whole, split_at-append, split_at,
  arith, ltb, if◌then◌else◌,
}
use tidewaiter.Reboot.{
  Window, window, minutes, is_hour, is_minute, two_digits, is_midnight, parse_times, parse_parts,
  parse_window, contains_time,
}

-- Starts at a minute of the day, ends at one or at midnight, and is not empty.
pub record IsValid (w : Window) : Type 0 where
  pub starts : w.start < 1440
  pub ends : w.end ≤ 1440
  pub nonempty : w.start ≢ w.end

-- How many minutes a window lasts.
abbrev pub duration : Window → ℕ
duration w = if ltb w.start w.end then w.end - w.start else w.end + 1440 - w.start

-- A valid window holds a minute of the day exactly when fewer minutes than the window lasts have
-- passed since it last started, midnight between the two or not.
pub contains_time_iff :
    (w : Window) (hour minute : ℕ)
    → IsValid w
    → hour < 24
    → minute < 60
    → (contains_time w hour minute ≡ true)
      ↔ ((hour * 60 + minute + 1440 - w.start) % 1440 < duration w)
unfolding contains_time
contains_time_iff w hour minute v h m = ground arith

hour_bound : (a b : ℕ) → is_hour a b ≡ true → two_digits a b < 24
unfolding is_hour two_digits
hour_bound a b h = ground arith

minute_bound : (a b : ℕ) → is_minute a b ≡ true → two_digits a b < 60
unfolding is_minute two_digits
minute_bound a b h = ground arith

-- What is read of the five bytes of a time.
time_bound :
    (is_end : Bool) (a b c d e n : ℕ)
    → minutes is_end (a ∷ b ∷ c ∷ d ∷ e ∷ []) ≡ some n
    → (n ≤ 1440) × (is_end ≡ false → n < 1440)
unfolding minutes
time_bound is_end a b c d e n h = ground (arith, hour_bound a b, minute_bound d e)

minutes_bound :
    (is_end : Bool) (text : List ℕ) (n : ℕ)
    → minutes is_end text ≡ some n
    → (n ≤ 1440) × (is_end ≡ false → n < 1440)
unfolding minutes
minutes_bound is_end (a ∷ b ∷ c ∷ d ∷ e ∷ []) n h = time_bound is_end a b c d e n h
minutes_bound is_end _ n h = cc

-- The spelling of a time of day, two digits of each.
abbrev pub spell : ℕ → List ℕ
spell n =
    (b'0' + n / 60 / 10)
    ∷ (b'0' + n / 60 % 10)
    ∷ b':'
    ∷ (b'0' + n % 60 / 10)
    ∷ (b'0' + n % 60 % 10)
    ∷ []

minutes-digits :
    (is_end : Bool) (a b d e : ℕ)
    → a * 10 + b < 24
    → b < 10
    → d < 6
    → e < 10
    → minutes is_end ((b'0' + a) ∷ (b'0' + b) ∷ b':' ∷ (b'0' + d) ∷ (b'0' + e) ∷ [])
      ≡ some ((a * 10 + b) * 60 + (d * 10 + e))
unfolding minutes is_hour is_minute two_digits is_midnight
minutes-digits is_end a b d e h hb hd he = ground arith

minutes-spell :
    (is_end : Bool) (n : ℕ)
    → (n < 1440) ⊎ ((n ≡ 1440) × (is_end ≡ true))
    → minutes is_end (spell n) ≡ some n
unfolding minutes is_hour is_minute two_digits is_midnight
minutes-spell is_end n (inl h) =
    minutes-digits is_end (n / 60 / 10) (n / 60 % 10) (n % 60 / 10) (n % 60 % 10) (omega arith)
      (omega arith) (omega arith) (omega arith)
    ∙ ap some (omega arith)
minutes-spell is_end n (inr (e, t)) = rw (e, t)

spell_dashless : (n : ℕ) → All (λ c. c ≢ b'-') (spell n)
spell_dashless n = omega arith

-- A valid window is read back from its spelling: its two times of day, in two digits each, with a
-- dash between them, an end at midnight being 24:00.
pub parse_window-spell :
    (w : Window) → IsValid w → parse_window (spell w.start ++ b'-' ∷ spell w.end) ≡ window w
unfolding parse_window
parse_window-spell w v =
    rw
      (
        split_at-append b'-' (spell w.start) (spell w.end) (spell_dashless w.start),
        split_at_whole b'-' (spell w.end) (spell_dashless w.end),
        parse_parts,
      )
      (ground (
        arith,
        minutes-spell false w.start (inl v.starts),
        minutes-spell true w.end (ground arith),
      ))

parse_times-IsValid :
    (s e : Option ℕ) (w : Window)
    → ((n : ℕ) → s ≡ some n → n < 1440)
    → ((n : ℕ) → e ≡ some n → n ≤ 1440)
    → parse_times s e ≡ window w
    → IsValid w
unfolding parse_times
parse_times-IsValid none e w hs he h = absurd (cc)
parse_times-IsValid (some s) none w hs he h = absurd (cc)
parse_times-IsValid (some s) (some e) w hs he h = ground (arith, hs s refl, he e refl)

parse_parts-IsValid :
    (parts : List (List ℕ)) (w : Window) → parse_parts parts ≡ window w → IsValid w
unfolding parse_parts
parse_parts-IsValid (a ∷ b ∷ []) w h =
    parse_times-IsValid (minutes false a) (minutes true b) w
      (λ n e. (minutes_bound false a n e).1 refl) (λ n e. (minutes_bound true b n e).0) h
parse_parts-IsValid _ w h = absurd (cc)

-- Every window that is read starts at a minute of the day, ends at one or at midnight, and is not
-- empty.
pub parse_window-IsValid : (text : List ℕ) (w : Window) → parse_window text ≡ window w → IsValid w
unfolding parse_window
parse_window-IsValid text w h = parse_parts-IsValid (split_at b'-' text) w h
