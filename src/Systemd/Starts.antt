-- ===== src/Systemd/Starts.antt =====
-- What a swap of internal/systemd/source.go has done before it changes the first thing.
use tidewaiter.Common.{
  ℕ, String, ◌≡◌, refl, subst, ap, ◌⊎◌, inl, inr, Bool, false, Option, some, arith, str_eq,
  Bool-cases,
}
use tidewaiter.Decide
use tidewaiter.Source.{Table, Answer, answered}
use tidewaiter.Systemd.Settings.{Policy}
use tidewaiter.Systemd.Unit.{UnitState}
use tidewaiter.Systemd.State.{Kept, State, Deps, memory_of, remember}
use tidewaiter.Systemd.Sample.{sample, dump_conntrack}
use tidewaiter.Systemd.Swap.{save}
use tidewaiter.Systemd.Update.{record_of, deferred, swap, recorded, carried_out}
use tidewaiter.Systemd.Saves.{IsDurable, remembered-IsDurable, sample-saved}
use tidewaiter.Systemd.Ends.{saved-memory}

module _ {W : Type 0} (deps : Deps W) where
  -- A sample only looks.
  pub sample-world :
      (policy : Policy) (state : UnitState) (table : Table) (quiet : Bool) (s : State W)
      → (sample deps policy state table quiet s).1.1 ≡ s.1
  unfolding sample
  sample-world policy state table quiet (k, w) = ground arith

  -- A save writes once, or not at all.
  abbrev pub Saved : W → W → Type 0
  Saved w w' = (w' ≡ w) ⊎ ((k : Kept) × (w' ≡ (deps.save k.memories w).1))

  save-Saved : (s : State W) → Saved s.1 (save deps s).1.1
  unfolding save
  save-Saved (k, w) = elim (Bool-cases (str_eq (deps.encode k.memories) k.saved)) [
    | inl e ↦ inl (ground arith)
    | inr e ↦ elim (Bool-cases deps.dry_run) [
      | inl d ↦ inl (ground arith)
      | inr d ↦ inr (k, ground arith)
    ]
  ]

  module _ (policy : Policy) (before : UnitState) (current : String) (previous : ℕ) where
    -- A swap that is put off, over the world that reading the table left.
    abbrev pub PutOff : W → Answer (Option Decide.Action) × State W → Type 0
    PutOff w r = (why : String) × (r.0 ≡ answered (some (deferred why))) × Saved w r.1.1

    -- A swap that is carried out from a state where it is on record, and that record durable, over the
    -- state that the last look at the unit left.
    abbrev pub CarriedOut : State W → Answer (Option Decide.Action) × State W → Type 0
    CarriedOut from r =
        (s : State W) × (r ≡ carried_out deps policy before current previous s)
        × ((memory_of policy.unit s.0).swapping
            ≡ some (record_of policy.desired before.invocation_id current previous))
        × IsDurable deps from s

    recorded-starts :
        (s : State W)
        → let r = recorded deps policy before current previous s in PutOff s.1 r ⊎ CarriedOut s r
    unfolding recorded
    recorded-starts (k, w) =
        let m = memory_of policy.unit k in
        let noted = record m {
          swapping = some (record_of policy.desired before.invocation_id current previous);
        } in
        let k1 = remember policy.unit noted k in
        let s' = (save deps (k1, w)).1 in
        elim (Bool-cases (save deps (k1, w)).0) [
          | inl y ↦ inr (
            s',
            rw (y, recorded) refl,
            ap (λ x. x.swapping) (saved-memory deps policy.unit noted k w),
            remembered-IsDurable deps policy.unit noted k w y,
          )
          | inr n ↦ inl (
            "could not record the swap before starting it",
            rw (n, recorded) refl,
            rw (n, recorded) (save-Saved (k1, w)),
          )
        ]

    -- A swap reads the conntrack table and may save its memories, and then either puts itself off, having
    -- changed nothing else, or is carried out from a state that has the swap on record; and that record is
    -- durable: the store has just taken it with no error, or what was saved last has it already, or the run
    -- is dry.
    pub swap-starts :
        (k : Kept) (w : W)
        → let r = swap deps policy before current previous (k, w) in
          let looked = (dump_conntrack deps w).1 in
          PutOff looked r ⊎ ((k' : Kept) × (k'.saved ≡ k.saved) × CarriedOut (k', looked) r)
    unfolding swap
    swap-starts k w =
        let (table, w1) = dump_conntrack deps w in
        let (fresh, s) = sample deps policy before table false (k, w1) in
        let same = sample-world policy before table false (k, w1) in
        elim (Bool-cases fresh.in_use) [
          | inl y ↦
              inl
                ("someone arrived just before the swap", rw (y, swap) refl, inl (rw (y, swap) same))
          | inr n ↦
              let r = recorded deps policy before current previous s in
              let starts : PutOff w1 r ⊎ CarriedOut (s.0, w1) r =
                subst (λ x. PutOff x r ⊎ CarriedOut (s.0, x) r) same (recorded-starts s) in
              rw (n, swap)
                (elim starts [
                  | inl off ↦ inl off
                  | inr out ↦ inr (s.0, sample-saved deps policy before table false (k, w1), out)
                ])
        ]
