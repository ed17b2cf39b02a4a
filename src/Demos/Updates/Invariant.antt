-- ===== src/Demos/Updates/Invariant.antt =====
-- The invariant of the threads that change numbers in files.
use group_a_cs.Base.{ℕ, ◌+◌, ◌≤◌, ◌≡◌, subst, some, List, [], ◌∷◌, ◌++◌, arith, All}
use group_a_cs.Base.Int.{ℤ, pos_part, neg_part, to_int}
use group_a_cs.Demos.Updates.{
  File, number, Update, Place, out, scans, changes, opens, prints, signals, Worker, Memory,
  UpdateLine, semop_wait, fscanf, change, fopen_w, fprintf, semop_signal, Machine, MachineStep,
  runs_line,
}
use group_a_cs.Demos.Updates.Sums.{sum, sum-middle, inside, adds, takes, left, held}
use group_a_cs.Demos.Updates.Kept.{Knows, Others, Right, UpdateLine-Right}

-- What some threads are for another one.
abbrev pub others : File → List Worker → Others
others f ws = record {
  inside = sum (λ w. inside w.place) ws;
  empties = sum (λ w. held f (λ x. 1) w.place) ws;
  held_pos = sum (λ w. held f pos_part w.place) ws;
  held_neg = sum (λ w. held f neg_part w.place) ws;
  adds = sum (left (adds f)) ws;
  takes = sum (left (takes f)) ws;
}

module _ (numbers : File → ℤ) (up down : File → ℕ) where
  -- The invariant: every file is right, and a thread inside knows the number of its file.
  pub record MachineInv (s : Machine) : Type 0 where
    pub right :
        (f : File) → Right f (numbers f) (up f) (down f) s.memory out [] (others f s.workers)
    pub knows : All (λ w. Knows s.memory w.place) s.workers

  with_others :
      (f : File) (m : Memory) (before : List Worker) (w : Worker) (after : List Worker)
      → Right f (numbers f) (up f) (down f) m w.place w.todo (others f (before ++ after))
      → Right f (numbers f) (up f) (down f) m out [] (others f (before ++ w ∷ after))
  with_others f m before w after r = record {
    one_inside = omega (arith, r.one_inside, sum-middle (λ w. inside w.place) before w after);
    one_has = omega (arith, r.one_has, sum-middle (λ w. held f (λ x. 1) w.place) before w after);
    sums = omega (
      arith,
      r.sums,
      sum-middle (λ w. held f pos_part w.place) before w after,
      sum-middle (λ w. held f neg_part w.place) before w after,
      sum-middle (left (adds f)) before w after,
      sum-middle (left (takes f)) before w after,
    );
  }

  pub from_others :
      (f : File) (m : Memory) (before : List Worker) (w : Worker) (after : List Worker)
      → Right f (numbers f) (up f) (down f) m out [] (others f (before ++ w ∷ after))
      → Right f (numbers f) (up f) (down f) m w.place w.todo (others f (before ++ after))
  from_others f m before w after r = record {
    one_inside = omega (arith, r.one_inside, sum-middle (λ w. inside w.place) before w after);
    one_has = omega (arith, r.one_has, sum-middle (λ w. held f (λ x. 1) w.place) before w after);
    sums = omega (
      arith,
      r.sums,
      sum-middle (λ w. held f pos_part w.place) before w after,
      sum-middle (λ w. held f neg_part w.place) before w after,
      sum-middle (left (adds f)) before w after,
      sum-middle (left (takes f)) before w after,
    );
  }

-- A thread that runs a line has the semaphore, or takes it.
UpdateLine-inside :
    {m m' : Memory} {p : Place} {todo : List Update} {w : Worker}
    → UpdateLine m p todo m' w
    → 1 ≤ m.sem + inside p
UpdateLine-inside (semop_wait u todo e) = omega (arith, e)
UpdateLine-inside (fscanf u x todo e) = omega arith
UpdateLine-inside (change u x y todo e) = omega arith
UpdateLine-inside (fopen_w u y todo) = omega arith
UpdateLine-inside (fprintf u y todo) = omega arith
UpdateLine-inside (semop_signal todo) = omega arith

to_int-value : (a y : ℤ) → to_int a ≡ some y → y ≡ a
to_int-value a y e = ground (arith, e)

UpdateLine-Knows :
    {m m' : Memory} {p : Place} {todo : List Update} {w : Worker}
    → UpdateLine m p todo m' w
    → Knows m p
    → Knows m' w.place
UpdateLine-Knows (semop_wait u todo e) k = tt
UpdateLine-Knows (fscanf u x todo e) k = e
UpdateLine-Knows (change u x y todo e) k = (x, k, to_int-value _ y e)
UpdateLine-Knows (fopen_w u y todo) k = tt
UpdateLine-Knows (fprintf u y todo) k = tt
UpdateLine-Knows (semop_signal todo) k = tt

outside-Knows : (m : Memory) (p : Place) → inside p ≡ 0 → Knows m p
outside-Knows m out h = tt
outside-Knows m (scans u) h = tt
outside-Knows m (changes u x) h = absurd (omega arith)
outside-Knows m (opens u y) h = absurd (omega arith)
outside-Knows m (prints u y) h = tt
outside-Knows m signals h = tt

All-Knows :
    (m : Memory) (before : List Worker) (w : Worker) (after : List Worker)
    → sum (λ w. inside w.place) (before ++ after) ≡ 0
    → Knows m w.place
    → All (λ w. Knows m w.place) (before ++ w ∷ after)
All-Knows m [] w after h k = (k, all_outside after h)
  where
    all_outside :
        (ws : List Worker) → sum (λ w. inside w.place) ws ≡ 0 → All (λ w. Knows m w.place) ws
    all_outside [] h = tt
    all_outside (x ∷ ws) h = (outside-Knows m x.place (omega arith), all_outside ws (omega arith))
All-Knows m (x ∷ before) w after h k =
    (outside-Knows m x.place (omega arith), All-Knows m before w after (omega arith) k)

pub memory_at :
    (m : Memory) (before : List Worker) (w : Worker) (after : List Worker)
    → All (λ w. Knows m w.place) (before ++ w ∷ after)
    → Knows m w.place
memory_at m [] w after h = h.0
memory_at m (x ∷ before) w after h = memory_at m before w after h.1

module _ (numbers : File → ℤ) (up down : File → ℕ) where
  pub MachineStep-Inv :
      {s s' : Machine}
      → MachineStep s s'
      → MachineInv numbers up down s
      → MachineInv numbers up down s'
  MachineStep-Inv {s} (runs_line before w after {m} {w'} split line) inv =
      let knew = memory_at s.memory before w after (subst (All _) split inv.knows) in
      let was : (f : File)
          → Right f (numbers f) (up f) (down f) s.memory w.place w.todo
              (others f (before ++ after)) =
        λ f. from_others numbers up down f s.memory before w after (
          subst (λ ws. Right f (numbers f) (up f) (down f) s.memory out [] (others f ws)) split
            (inv.right f)) in
      record {
        right = λ f. with_others numbers up down f m before w' after (
            UpdateLine-Right f (numbers f) (up f) (down f) (others f (before ++ after)) line knew
              (was f));
        knows =
            All-Knows m before w' after
              (omega (arith, (was number).one_inside, UpdateLine-inside line))
              (UpdateLine-Knows line knew);
      }
