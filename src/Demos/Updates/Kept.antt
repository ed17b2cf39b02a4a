-- ===== src/Demos/Updates/Kept.antt =====
-- Every line of a thread keeps the numbers right.
use group_a_cs.Base.{ℕ, ◌+◌, ◌≡◌, ◌∙◌, ap, true, Bool-cases, none, some, List, arith, inl, inr}
use group_a_cs.Base.Int.{ℤ, ◌+ℤ◌, pos_part, neg_part, +ℤ_parts}
use group_a_cs.Demos.Updates.{
  File, number, prod, bill, same_file, Update, Place, changes, opens, prints, signals, Worker,
  Memory, set_file, UpdateLine, semop_wait, fscanf, change, fopen_w, fprintf, semop_signal,
}
use group_a_cs.Demos.Updates.Sums.{inside, adds, takes, ahead, sum_updates, held, stored}

-- What a thread inside knows of the files.
abbrev pub Knows : Memory → Place → Type 0
Knows m (changes u x) = m.files u.file ≡ some x
Knows m (opens u y) = (x : ℤ) × (m.files u.file ≡ some x) × (y ≡ x +ℤ u.by)
Knows m _ = Unit

-- The other threads together: how many are inside, have emptied a file, and what they have for it and
-- have still to add and take.
pub record Others : Type 0 where
  pub inside : ℕ
  pub empties : ℕ
  pub held_pos : ℕ
  pub held_neg : ℕ
  pub adds : ℕ
  pub takes : ℕ

-- The number of a file in the memory, with a thread and others: `n` is what it was at the start, and
-- `up` and `down` are what all threads add and take in all.
pub record Right (f : File) (n : ℤ) (up down : ℕ) (m : Memory) (p : Place) (todo : List Update)
    (o : Others) : Type 0 where
  pub one_inside : m.sem + inside p + o.inside ≡ 1
  pub one_has : stored (λ x. 1) (m.files f) + held f (λ x. 1) p + o.empties ≡ 1
  pub sums :
      stored pos_part (m.files f)
        + held f pos_part p
        + o.held_pos
        + neg_part n
        + (ahead (adds f) p + sum_updates (adds f) todo + o.adds)
        + down
      ≡ stored neg_part (m.files f)
        + held f neg_part p
        + o.held_neg
        + pos_part n
        + (ahead (takes f) p + sum_updates (takes f) todo + o.takes)
        + up

same_file-eq : (f f' : File) → same_file f f' ≡ true → f ≡ f'
same_file-eq number f' h = ground arith
same_file-eq prod f' h = ground arith
same_file-eq bill f' h = ground arith

opened-Right :
    (f : File) (n : ℤ) (up down : ℕ) (m : Memory) (u : Update) (x y : ℤ) (todo : List Update)
    (o : Others)
    → m.files u.file ≡ some x
    → y ≡ x +ℤ u.by
    → Right f n up down m (opens u y) todo o
    → Right f n up down (set_file u.file none m) (prints u y) todo o
opened-Right f n up down m u x y todo o e is r = elim (Bool-cases (same_file f u.file)) [
  | inl h ↦
      let here = ap m.files (same_file-eq f u.file h) ∙ e in
      let parts : pos_part y + neg_part x + neg_part u.by
          ≡ neg_part y + pos_part x + pos_part u.by =
        rw is (+ℤ_parts x u.by) in
      ground (arith, h, here, parts, r.one_inside, r.one_has, r.sums)
  | inr h ↦ ground (arith, h, r.one_inside, r.one_has, r.sums)
]

printed-Right :
    (f : File) (n : ℤ) (up down : ℕ) (m : Memory) (u : Update) (y : ℤ) (todo : List Update)
    (o : Others)
    → Right f n up down m (prints u y) todo o
    → Right f n up down (set_file u.file (some y) m) signals todo o
printed-Right f n up down m u y todo o r = elim (Bool-cases (same_file f u.file)) [
  | inl h ↦ ground (arith, h, r.one_inside, r.one_has, r.sums)
  | inr h ↦ ground (arith, h, r.one_inside, r.one_has, r.sums)
]

pub UpdateLine-Right :
    (f : File) (n : ℤ) (up down : ℕ) {m m' : Memory} {p : Place} {todo : List Update} {w : Worker}
    (o : Others)
    → UpdateLine m p todo m' w
    → Knows m p
    → Right f n up down m p todo o
    → Right f n up down m' w.place w.todo o
UpdateLine-Right f n up down o (semop_wait u todo e) k r =
    ground (arith, e, r.one_inside, r.one_has, r.sums)
UpdateLine-Right f n up down o (fscanf u x todo e) k r =
    ground (arith, r.one_inside, r.one_has, r.sums)
UpdateLine-Right f n up down o (change u x y todo e) k r =
    ground (arith, r.one_inside, r.one_has, r.sums)
UpdateLine-Right f n up down {m} o (fopen_w u y todo) (x, e, is) r =
    opened-Right f n up down m u x y todo o e is r
UpdateLine-Right f n up down {m} o (fprintf u y todo) k r = printed-Right f n up down m u y todo o r
UpdateLine-Right f n up down o (semop_signal todo) k r =
    ground (arith, r.one_inside, r.one_has, r.sums)
