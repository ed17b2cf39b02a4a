-- ===== src/Demos/Updates/Result.antt =====
-- No update of the threads is lost.
use group_a_cs.Base.{
  ℕ, ◌+◌, ◌≤◌, ◌≡◌, refl, ap, Option, none, some, List, [], ◌∷◌, arith, All, if◌then◌else◌,
}
use group_a_cs.Base.Int.{ℤ, pos, ◌+ℤ◌, pos_part, neg_part, +ℤ_parts, eq_of_parts}
use group_a_cs.Demos.Updates.{
  File, number, same_file, Update, Place, out, Worker, Memory, Machine, begin_workers, MachineReach,
  created, then_step,
}
use group_a_cs.Demos.Updates.Sums.{
  sum, inside, adds, takes, sum_updates, left, held, stored, sum_programs, begin-left, begin-none,
}
use group_a_cs.Demos.Updates.Kept.{Knows}
use group_a_cs.Demos.Updates.Invariant.{MachineInv, MachineStep-Inv}

-- What the updates of all threads change a number by.
abbrev pub change_by : File → List Update → ℤ
change_by f [] = pos 0
change_by f (u ∷ us) = if same_file f u.file then u.by +ℤ change_by f us else change_by f us

abbrev pub total_change : File → List (List Update) → ℤ
total_change f [] = pos 0
total_change f (p ∷ programs) = change_by f p +ℤ total_change f programs

change_by-parts :
    (f : File) (us : List Update)
    → pos_part (change_by f us) + sum_updates (takes f) us
      ≡ neg_part (change_by f us) + sum_updates (adds f) us
change_by-parts f [] = refl
change_by-parts f (u ∷ us) = ground (arith, change_by-parts f us, +ℤ_parts u.by (change_by f us))

total_change-parts :
    (f : File) (programs : List (List Update))
    → pos_part (total_change f programs) + sum_programs (takes f) programs
      ≡ neg_part (total_change f programs) + sum_programs (adds f) programs
total_change-parts f [] = refl
total_change-parts f (p ∷ programs) = omega (
  arith,
  change_by-parts f p,
  total_change-parts f programs,
  +ℤ_parts (change_by f p) (total_change f programs),
)

begin-Knows :
    (m : Memory) (programs : List (List Update))
    → All (λ w. Knows m w.place) (begin_workers programs)
begin-Knows m [] = tt
begin-Knows m (p ∷ programs) = (tt, begin-Knows m programs)

-- A thread that has returned.
abbrev pub IsOver : Worker → Type 0
IsOver w = (w.place ≡ out) × (w.todo ≡ [])

over-sum :
    (h : Worker → ℕ) (ws : List Worker)
    → ((w : Worker) → IsOver w → h w ≡ 0)
    → All IsOver ws
    → sum h ws ≡ 0
over-sum h [] k over = refl
over-sum h (w ∷ ws) k over = omega (arith, k w over.0, over-sum h ws k over.1)

over-places :
    (h : Place → ℕ) (ws : List Worker) → h out ≡ 0 → All IsOver ws → sum (λ w. h w.place) ws ≡ 0
over-places h ws e over = over-sum (λ w. h w.place) ws (λ w is. rw is.0 e) over

over-lefts : (g : Update → ℕ) (ws : List Worker) → All IsOver ws → sum (left g) ws ≡ 0
over-lefts g ws over = over-sum (left g) ws (λ w is. rw is.0 (rw is.1 refl)) over

module _ (numbers : File → ℤ) (programs : List (List Update)) where
  abbrev pub up : File → ℕ
  up f = sum_programs (adds f) programs

  abbrev pub down : File → ℕ
  down f = sum_programs (takes f) programs

  pub MachineReach-Inv :
      {s : Machine} → MachineReach numbers programs s → MachineInv numbers up down s
  MachineReach-Inv created = record {
    right = λ f. record {
      one_inside = omega (arith, begin-none inside programs refl);
      one_has = omega (arith, begin-none (held f (λ x. 1)) programs refl);
      sums = omega (
        arith,
        begin-none (held f pos_part) programs refl,
        begin-none (held f neg_part) programs refl,
        begin-left (adds f) programs,
        begin-left (takes f) programs,
      );
    };
    knows = begin-Knows (record { sem = 1; files = λ f. some (numbers f) }) programs;
  }
  MachineReach-Inv (then_step r st) = MachineStep-Inv numbers _ _ st (MachineReach-Inv r)

  right_number :
      (f : File) (o : Option ℤ)
      → stored (λ x. 1) o ≡ 1
      → stored pos_part o + neg_part (numbers f) + down f
        ≡ stored neg_part o + pos_part (numbers f) + up f
      → o ≡ some (numbers f +ℤ total_change f programs)
  right_number f none has sums = absurd (omega (arith, has))
  right_number f (some x) has sums = ap some (
      eq_of_parts x (numbers f +ℤ total_change f programs) (
        omega (
          arith,
          sums,
          total_change-parts f programs,
          +ℤ_parts (numbers f) (total_change f programs),
        )))

  pub updates_kept :
      {s : Machine}
      → MachineReach numbers programs s
      → (sum (λ w. inside w.place) s.workers ≤ 1)
        × (All IsOver s.workers
            → (f : File) → s.memory.files f ≡ some (numbers f +ℤ total_change f programs))
  updates_kept {s} r =
      let inv = MachineReach-Inv r in
      (
        omega (arith, (inv.right number).one_inside),
        λ over f.
            right_number f (s.memory.files f)
              (omega
                (arith, (inv.right f).one_has, over-places (held f (λ x. 1)) s.workers refl over))
              (omega (
                arith,
                (inv.right f).sums,
                over-places (held f pos_part) s.workers refl over,
                over-places (held f neg_part) s.workers refl over,
                over-lefts (adds f) s.workers over,
                over-lefts (takes f) s.workers over,
              )),
      )
