-- ===== src/Demos/Updates/Progress.antt =====
-- The threads that change numbers in files do not wait for ever.
use native.Mathlib.Decide.{dec_lt}
use group_a_cs.Base.{
  ◌≤◌, ◌<◌, ◌≡◌, refl, subst, ap, Option, none, some, List, [], ◌∷◌, ◌++◌, arith, All, ◌⊎◌, inl,
  inr,
}
use group_a_cs.Base.Int.{ℤ, ◌+ℤ◌, to_int}
use group_a_cs.Demos.Updates.{
  File, number, Update, Place, out, scans, changes, opens, prints, signals, Worker, Memory,
  UpdateLine, semop_wait, fscanf, change, fopen_w, fprintf, semop_signal, Machine, MachineStep,
  runs_line, MachineReach,
}
use group_a_cs.Demos.Updates.Sums.{sum, inside, held, stored}
use group_a_cs.Demos.Updates.Kept.{Knows, Right}
use group_a_cs.Demos.Updates.Invariant.{others, MachineInv, from_others, memory_at}
use group_a_cs.Demos.Updates.Result.{updates_kept, total_change, IsOver, MachineReach-Inv, up, down}

abbrev pub CanMove : Machine → Type 0
CanMove s = (s' : Machine) × MachineStep s s'

-- The next line of the thread changes the number that it has read beyond the range of an `int`.
abbrev pub OverflowsAt : Place → Type 0
OverflowsAt p = (u : Update) × (x : ℤ) × (p ≡ changes u x) × (to_int (x +ℤ u.by) ≡ none)

abbrev pub Overflows : Machine → Type 0
Overflows s =
    (before : List Worker) × (w : Worker) × (after : List Worker) × (s.workers
      ≡ before ++ w ∷ after)
    × OverflowsAt w.place

-- A thread with an update that it has not begun, and a thread inside.
record Waiting (ws : List Worker) : Type 0 where
  before : List Worker
  u : Update
  todo : List Update
  after : List Worker
  split : ws ≡ before ++ record { place = out; todo = u ∷ todo } ∷ after

record Busy (ws : List Worker) : Type 0 where
  before : List Worker
  w : Worker
  after : List Worker
  split : ws ≡ before ++ w ∷ after
  is_inside : 0 < inside w.place

update_here :
    (w : Worker) (ws : List Worker) (u : Update) (todo : List Update)
    → w.place ≡ out
    → w.todo ≡ u ∷ todo
    → Waiting (w ∷ ws)
update_here w ws u todo e e' = record {
  before = [];
  u = u;
  todo = todo;
  after = ws;
  split = ap (λ x. x ∷ ws) (λ i. record { place = e i; todo = e' i });
}

later : (w : Worker) (ws : List Worker) → Waiting ws → Waiting (w ∷ ws)
later w ws h = record {
  before = w ∷ h.before;
  u = h.u;
  todo = h.todo;
  after = h.after;
  split = ap (λ l. w ∷ l) h.split;
}

outside-out : (p : Place) → inside p ≡ 0 → p ≡ out
outside-out p h = ground arith

end_or_update :
    (w : Worker) (ws : List Worker) (todo : List Update)
    → w.place ≡ out
    → w.todo ≡ todo
    → All IsOver ws
    → All IsOver (w ∷ ws) ⊎ Waiting (w ∷ ws)
end_or_update w ws [] e e' over = inl ((e, e'), over)
end_or_update w ws (u ∷ todo) e e' over = inr (update_here w ws u todo e e')

-- While no thread is inside, all have returned or one has an update left.
first_update : (ws : List Worker) → sum (λ w. inside w.place) ws ≡ 0 → All IsOver ws ⊎ Waiting ws
first_update [] h = inl tt
first_update (w ∷ ws) h = elim (first_update ws (omega arith)) [
  | inl over ↦ end_or_update w ws w.todo (outside-out w.place (omega arith)) refl over
  | inr one ↦ inr (later w ws one)
]

first_inside : (ws : List Worker) → 0 < sum (λ w. inside w.place) ws → Busy ws
first_inside [] h = absurd (omega arith)
first_inside (w ∷ ws) h = elim (dec_lt 0 (inside w.place)) [
  | yes here ↦ record { before = []; w = w; after = ws; split = refl; is_inside = here }
  | no other ↦
      let b = first_inside ws (omega arith) in
      record {
        before = w ∷ b.before;
        w = b.w;
        after = b.after;
        split = ap (λ l. w ∷ l) b.split;
        is_inside = b.is_inside;
      }
]

held-inside : (f : File) (p : Place) → held f (λ x. 1) p ≤ inside p
held-inside f p = ground arith

sum-held :
    (f : File) (ws : List Worker)
    → sum (λ w. held f (λ x. 1) w.place) ws ≤ sum (λ w. inside w.place) ws
sum-held f [] = omega arith
sum-held f (w ∷ ws) = omega (arith, held-inside f w.place, sum-held f ws)

-- A thread inside can run its next line, but for an overflow.
line_next :
    (m : Memory) (p : Place) (todo : List Update)
    → 0 < inside p
    → Knows m p
    → ((u : Update) → p ≡ scans u → stored (λ x. 1) (m.files u.file) ≡ 1)
    → ((m' : Memory) × (w' : Worker) × UpdateLine m p todo m' w') ⊎ OverflowsAt p
line_next m out todo h k full = absurd (omega arith)
line_next m (scans u) todo h k full = go (m.files u.file) refl (full u refl)
  where
    go :
        (o : Option ℤ)
        → m.files u.file ≡ o
        → stored (λ x. 1) (m.files u.file) ≡ 1
        → ((m' : Memory) × (w' : Worker) × UpdateLine m (scans u) todo m' w')
          ⊎ OverflowsAt (scans u)
    go none e has = absurd (ground (arith, e, has))
    go (some x) e has = inl (_, _, fscanf u x todo e)
line_next m (changes u x) todo h k full = go (to_int (x +ℤ u.by)) refl
  where
    go :
        (o : Option ℤ)
        → to_int (x +ℤ u.by) ≡ o
        → ((m' : Memory) × (w' : Worker) × UpdateLine m (changes u x) todo m' w')
          ⊎ OverflowsAt (changes u x)
    go none e = inr (u, x, refl, e)
    go (some y) e = inl (_, _, change u x y todo e)
line_next m (opens u y) todo h k full = inl (_, _, fopen_w u y todo)
line_next m (prints u y) todo h k full = inl (_, _, fprintf u y todo)
line_next m signals todo h k full = inl (_, _, semop_signal todo)

module _ (numbers : File → ℤ) (programs : List (List Update)) where
  inside_next :
      (s : Machine)
      → MachineInv numbers (up numbers programs) (down numbers programs) s
      → Busy s.workers
      → CanMove s ⊎ Overflows s
  inside_next s inv b = elim (line_next s.memory w.place w.todo b.is_inside knew full) [
    | inl (m', w', line) ↦ inl (_, runs_line b.before w b.after b.split line)
    | inr o ↦ inr (b.before, w, b.after, b.split, o)
  ]
    where
      w : Worker
      w = b.w

      knew : Knows s.memory w.place
      knew =
          memory_at s.memory b.before w b.after
            (subst (All (λ w. Knows s.memory w.place)) b.split inv.knows)

      full : (u : Update) → w.place ≡ scans u → stored (λ x. 1) (s.memory.files u.file) ≡ 1
      full u e =
          let f = u.file in
          let r : Right f (numbers f) (up numbers programs f) (down numbers programs f) s.memory
              w.place w.todo (others f (b.before ++ b.after)) =
            from_others numbers (up numbers programs) (down numbers programs) f s.memory b.before w
              b.after
              (subst
                (λ ws.
                  Right f (numbers f) (up numbers programs f) (down numbers programs f) s.memory out
                    [] (others f ws))
                b.split (inv.right f)) in
          let no_number : held f (λ x. 1) w.place ≡ 0 = rw e refl in
          omega (
            arith,
            r.one_has,
            r.one_inside,
            b.is_inside,
            no_number,
            sum-held f (b.before ++ b.after),
          )

  updates_go_on :
      {s : Machine}
      → MachineReach numbers programs s
      → All IsOver s.workers ⊎ CanMove s ⊎ Overflows s
  updates_go_on {s} r =
      let inv = MachineReach-Inv numbers programs r in
      elim (dec_lt 0 (sum (λ w. inside w.place) s.workers)) [
        | yes busy ↦ inr (inside_next s inv (first_inside s.workers busy))
        | no none_busy ↦ elim (first_update s.workers (omega arith)) [
          | inl over ↦ inl over
          | inr one ↦ inr (
              inl (
                _,
                runs_line one.before _ one.after one.split (
                    semop_wait {n = 0} one.u one.todo
                      (omega (arith, (inv.right number).one_inside))),
              ))
        ]
      ]

  -- Threads with any updates, under the one semaphore: in every state that any interleaving of their
  -- lines leads to, at most one is between its wait and its signal; unless all have returned, some
  -- thread can run its next line, or the next line of one changes the number that it has read beyond
  -- the range of an `int`; and once all have returned, each file has its first number changed by all of the
  -- updates.
  pub no_update_lost :
      {s : Machine}
      → MachineReach numbers programs s
      → (sum (λ w. inside w.place) s.workers ≤ 1)
        × (All IsOver s.workers ⊎ CanMove s ⊎ Overflows s)
        × (All IsOver s.workers
            → (f : File) → s.memory.files f ≡ some (numbers f +ℤ total_change f programs))
  no_update_lost r = let kept = updates_kept numbers programs r in (kept.0, updates_go_on r, kept.1)
