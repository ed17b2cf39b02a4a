-- ===== src/Demos/Updates/Sums.antt =====
-- What the threads have still to add to a number, and what they hold of it.
use group_a_cs.Base.{
  ℕ, ◌+◌, ◌≡◌, refl, Option, none, some, List, [], ◌∷◌, ◌++◌, if◌then◌else◌, arith,
}
use group_a_cs.Base.Int.{ℤ, pos_part, neg_part}
use group_a_cs.Demos.Updates.{
  File, same_file, Update, Place, out, scans, changes, opens, prints, Worker, begin_workers,
}

abbrev pub sum : (Worker → ℕ) → List Worker → ℕ
sum g [] = 0
sum g (w ∷ ws) = g w + sum g ws

pub sum-middle :
    (g : Worker → ℕ) (before : List Worker) (w : Worker) (after : List Worker)
    → sum g (before ++ w ∷ after) ≡ g w + sum g (before ++ after)
sum-middle g [] w after = refl
sum-middle g (x ∷ before) w after = omega (arith, sum-middle g before w after)

-- Whether a thread is between its wait and its signal.
abbrev pub inside : Place → ℕ
inside out = 0
inside _ = 1

-- What an update adds to a file, and what it takes off.
abbrev pub adds : File → Update → ℕ
adds f u = if same_file f u.file then pos_part u.by else 0

abbrev pub takes : File → Update → ℕ
takes f u = if same_file f u.file then neg_part u.by else 0

-- The update of a thread inside, up to the line that empties the file.
abbrev pub ahead : (Update → ℕ) → Place → ℕ
ahead g (scans u) = g u
ahead g (changes u x) = g u
ahead g (opens u y) = g u
ahead g _ = 0

abbrev pub sum_updates : (Update → ℕ) → List Update → ℕ
sum_updates g [] = 0
sum_updates g (u ∷ us) = g u + sum_updates g us

abbrev pub left : (Update → ℕ) → Worker → ℕ
left g w = ahead g w.place + sum_updates g w.todo

-- A thread that has emptied a file has the number for it.
abbrev pub held : File → (ℤ → ℕ) → Place → ℕ
held f part (prints u y) = if same_file f u.file then part y else 0
held f part _ = 0

abbrev pub stored : (ℤ → ℕ) → Option ℤ → ℕ
stored part none = 0
stored part (some x) = part x

abbrev pub sum_programs : (Update → ℕ) → List (List Update) → ℕ
sum_programs g [] = 0
sum_programs g (p ∷ programs) = sum_updates g p + sum_programs g programs

pub begin-left :
    (g : Update → ℕ) (programs : List (List Update))
    → sum (left g) (begin_workers programs) ≡ sum_programs g programs
begin-left g [] = refl
begin-left g (p ∷ programs) = omega (arith, begin-left g programs)

pub begin-none :
    (h : Place → ℕ) (programs : List (List Update))
    → h out ≡ 0
    → sum (λ w. h w.place) (begin_workers programs) ≡ 0
begin-none h [] e = refl
begin-none h (p ∷ programs) e = omega (arith, e, begin-none h programs e)
