-- ===== src/Docker/Host.antt =====
-- A host as the swap of internal/docker sees it: which container each name stands for, and what
-- Docker's calls do to that.
use tidewaiter.Common.{
  ℕ, String, ◌≡◌, sym, ◌∙◌, inl, inr, Bool, true, false, Option, none, some, if◌then◌else◌, str_eq,
  eq_iff, Bool-cases,
}
use text.Mathlib.TextLemmas.{append_cancel_left, append-nil}
use tidewaiter.Model.{ContainerSpec}
use tidewaiter.Docker.Recreate.{rollback_name}
use tidewaiter.Docker.Swap.{Failure, Engine}

-- What a name of the host's stands for.
pub record Container : Type 0 where
  pub id : String
  pub up : Bool

abbrev pub Names : Type 0
Names = String → Option Container

abbrev pub assign : String → Option Container → Names → Names
assign name c names = λ other. if str_eq name other then c else names other

abbrev pub with_up : Bool → Option Container → Option Container
with_up up none = none
with_up up (some c) = some (record c { up = up })

-- A call that gave no error did what it says, and one that gave an error changed nothing.
abbrev pub Does : Failure → Names → Names → Names → Type 0
Does none before after now = (name : String) → now name ≡ after name
Does (some e) before after now = (name : String) → now name ≡ before name

-- What Docker documents of its calls, of a host that shows which container each name stands for.
pub record IsHost {W : Type 0} (engine : Engine W) (names : W → Names) : Type 0 where
  pub fresh : ContainerSpec → W → String
  pub stops :
      (n : String) (grace : ℕ) (w : W)
      → let (e, w') = engine.stop n grace w in
        Does e (names w) (assign n (with_up false (names w n)) (names w)) (names w')
  pub renames :
      (n to : String) (w : W)
      → let (e, w') = engine.rename n to w in
        Does e (names w) (assign to (names w n) (assign n none (names w))) (names w')
  pub creates :
      (spec : ContainerSpec) (w : W)
      → let (e, w') = engine.create spec w in
        Does e
          (names w)
          (assign spec.name (some (record { id = fresh spec w; up = false })) (names w))
          (names w')
  pub connects_only :
      (n : String) (spec : ContainerSpec) (network : String) (w : W)
      → let (e, w') = engine.connect_network n spec network w in
        (name : String) → names w' name ≡ names w name
  pub starts :
      (n : String) (w : W)
      → let (e, w') = engine.start n w in
        Does e (names w) (assign n (with_up true (names w n)) (names w)) (names w')
  pub removes :
      (n : String) (force : Bool) (w : W)
      → let (e, w') = engine.remove n force w in
        Does e (names w) (assign n none (names w)) (names w')

-- The parked name is another.
pub rollback_name-apart : (name : String) → str_eq name (rollback_name name) ≡ false
unfolding rollback_name
rollback_name-apart name = elim (Bool-cases (str_eq name (rollback_name name))) [
  | inr e ↦ e
  | inl e ↦ absurd (
      suffix-ne (
        append_cancel_left name "-tidewaiter-rollback" ""
          (sym ((eq_iff name (rollback_name name)).0 e) ∙ sym (append-nil name))))
]
  where
    suffix-ne : Path String "-tidewaiter-rollback" "" → ⊥
    suffix-ne e = cc

pub did :
    (e : Failure) (before after now : Names)
    → e ≡ none
    → Does e before after now
    → (name : String) → now name ≡ after name
did none before after now h d = d
did (some x) before after now h d = absurd cc

pub did_not :
    (e : Failure) (x : String) (before after now : Names)
    → e ≡ some x
    → Does e before after now
    → (name : String) → now name ≡ before name
did_not none x before after now h d = absurd cc
did_not (some y) x before after now h d = d
