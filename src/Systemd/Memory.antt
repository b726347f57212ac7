-- ===== src/Systemd/Memory.antt =====
-- What the calls of internal/systemd/source.go leave of its memories.
use tidewaiter.Common.{
  String, ◌≡◌, ◌≢◌, refl, sym, str_eq, true, false, Option, none, some, lookup-insert,
  lookup-delete, eq_iff, eq_refl, arith, Bool-cases, Option-cases, ==_iff, inl, inr,
}
use tidewaiter.Systemd.State.{
  UnitMemory, no_memory, is_none, is_no_memory, Kept, State, Deps, memory_of, remember,
}
use tidewaiter.Systemd.Swap.{save}

is_none-none : {A : Type 0} (o : Option A) → is_none o ≡ true → o ≡ none
is_none-none none h = refl
is_none-none (some a) h = cc

is_no_memory-eq : (m : UnitMemory) → is_no_memory m ≡ true → m ≡ no_memory
is_no_memory-eq m h =
    let p : m.pinned ≡ "" = ground (arith, eq_iff m.pinned "") in
    let f : m.failing ≡ "" = ground (arith, eq_iff m.failing "") in
    let n : m.swap_failures ≡ 0 = ground (arith, ==_iff m.swap_failures 0) in
    let g : m.good ≡ none = is_none-none m.good (ground arith) in
    let s : m.swapping ≡ none = is_none-none m.swapping (ground arith) in cc

-- What is remembered of a unit is what was stored of it, though a memory that says nothing is not kept.
pub memory_of-remember :
    (unit : String) (m : UnitMemory) (k : Kept) → memory_of unit (remember unit m k) ≡ m
unfolding remember
memory_of-remember unit m k = elim (Bool-cases (is_no_memory m)) [
  | inl e ↦
      rw (e, memory_of, lookup-delete unit unit k.memories, eq_refl unit)
        (sym (is_no_memory-eq m e))
  | inr e ↦ rw (e, memory_of, lookup-insert unit unit m k.memories, eq_refl unit) refl
]

-- It is all that changes.
pub remember-other :
    (unit other : String) (m : UnitMemory) (k : Kept)
    → unit ≢ other
    → memory_of other (remember unit m k) ≡ memory_of other k
unfolding remember
remember-other unit other m k apart =
    let e : str_eq unit other ≡ false = ground (arith, eq_iff unit other) in
    elim (Bool-cases (is_no_memory m)) [
      | inl h ↦ rw (h, memory_of, lookup-delete unit other k.memories, e) refl
      | inr h ↦ rw (h, memory_of, lookup-insert unit other m k.memories, e) refl
    ]

module _ {W : Type 0} (deps : Deps W) where
  -- Saving changes no memory.
  pub save-memories : (s : State W) → (save deps s).1.0.memories ≡ s.0.memories
  unfolding save
  save-memories (k, w) = elim (Bool-cases (str_eq (deps.encode k.memories) k.saved)) [
    | inl e ↦ rw e refl
    | inr e ↦ rw e (elim (Bool-cases deps.dry_run) [
      | inl d ↦ rw d refl
      | inr d ↦ rw d (elim (Option-cases (deps.save k.memories w).0) [
        | inl n ↦ rw n refl
        | inr (why, h) ↦ rw h refl
      ])
    ])
  ]
