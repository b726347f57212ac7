-- ===== src/Daemon/Keeps.antt =====
-- Writing the status and telling systemd, in internal/daemon/daemon.go, change nothing else.
use tidewaiter.Common.{
  ◌≡◌, refl, ap, ◌∙◌, not, ◌&&◌, none, some, List, [], ◌∷◌, if◌then◌else◌, arith, str_eq,
}
use tidewaiter.Daemon.State.{Status, Daemon, Deps, State, Notice, status_line, Failure}
use tidewaiter.Daemon.Publish.{
  publish, write_status, tell, notified, wrote, snapshot, told_line, line_of,
}

-- What writing the status and telling systemd leave alone.
pub record Keeps (d d' : Daemon) : Type 0 where
  pub seen : d'.seen ≡ d.seen
  pub held : d'.held ≡ d.held
  pub asks : d'.asks ≡ d.asks
  pub rebooting : d'.rebooting ≡ d.rebooting
  pub last_failure : d'.last_failure ≡ d.last_failure
  pub last_summary : d'.last_summary ≡ d.last_summary

notified-Keeps : (f : Failure) (d : Daemon) → Keeps d (notified f d)
notified-Keeps none d = ground arith
notified-Keeps (some e) d = ground arith

wrote-Keeps : (f : Failure) (d : Daemon) → Keeps d (wrote f d)
wrote-Keeps none d = ground arith
wrote-Keeps (some e) d = ground arith

notified-written : (f : Failure) (d : Daemon) → (notified f d).written ≡ d.written
notified-written none d = refl
notified-written (some e) d = ground arith

wrote-written : (f : Failure) (d : Daemon) → (wrote f d).written ≡ d.written
wrote-written none d = refl
wrote-written (some e) d = ground arith

module _ {W : Type 0} (deps : Deps W) where
  tell-Keeps : (states : List Notice) (s : State W) → Keeps s.0 (tell deps states s).0
  unfolding tell
  tell-Keeps states (d, w) = ground (
    arith,
    notified-Keeps (deps.notify states w).0
        (record d { last_notified = told_line states d.last_notified }),
  )

  write_status-Keeps : (status : Status) (s : State W) → Keeps s.0 (write_status deps status s).0
  write_status-Keeps status (d, w) =
      ground
        (arith, wrote-Keeps (deps.write status w).0 (record d { written = status ∷ d.written }))

  told : (s : State W) → State W
  told (d, w) =
      let line = line_of d (snapshot deps d w) in
      if not (str_eq line d.last_notified) && not d.stopping
      then tell deps (status_line line ∷ []) (d, w)
      else (d, w)

  told-Keeps : (s : State W) → Keeps s.0 (told s).0
  unfolding told
  told-Keeps (d, w) =
      ground (arith, tell-Keeps (status_line (line_of d (snapshot deps d w)) ∷ []) (d, w))

  pub publish-Keeps : (s : State W) → Keeps s.0 (publish deps s).0
  unfolding publish told
  publish-Keeps (d, w) =
      ground (arith, told-Keeps (d, w), write_status-Keeps (snapshot deps d w) (told (d, w)))

  tell-written : (states : List Notice) (s : State W) → (tell deps states s).0.written ≡ s.0.written
  unfolding tell
  tell-written states (d, w) = ground (
    arith,
    notified-written (deps.notify states w).0
        (record d { last_notified = told_line states d.last_notified }),
  )

  told-written : (s : State W) → (told s).0.written ≡ s.0.written
  unfolding told
  told-written (d, w) =
      ground (arith, tell-written (status_line (line_of d (snapshot deps d w)) ∷ []) (d, w))

  write_status-written :
      (status : Status) (s : State W)
      → (write_status deps status s).0.written ≡ status ∷ s.0.written
  write_status-written status (d, w) =
      wrote-written (deps.write status w).0 (record d { written = status ∷ d.written })

  -- The status that was written last is the daemon's as it stood.
  pub publish-written :
      (d : Daemon) (w : W) → (publish deps (d, w)).0.written ≡ snapshot deps d w ∷ d.written
  unfolding publish told
  publish-written d w =
      write_status-written (snapshot deps d w) (told (d, w))
      ∙ ap (λ l. snapshot deps d w ∷ l) (told-written (d, w))
