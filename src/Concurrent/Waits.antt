-- ===== src/Concurrent/Waits.antt =====
-- A thread moves, or waits for one semaphore: what each line waits for.
use group_a_cs.Base.{
  ℕ, zero, suc, ◌≡◌, ◌⊎◌, inl, inr, refl, ◌∙◌, some, Option, List, [], ◌∷◌, ◌++◌, Bool-cases,
}
use group_a_cs.Base.Int.{pos, eq_ℤ-eq, eq_ℤ}
use group_a_cs.World.{Table, Lock, Locks, get_lock, set_lock}
use group_a_cs.Concurrent.{
  Section, Line, wait_enter, count_up, test_first, post_enter, wait_leave, count_down, test_last,
  post_leave, Pc, idle, at, joining, join, taking, posting, Thread, follow, read_line, take_wrt,
  behind, move, System, Step,
}

-- Some thread can run its next line.
abbrev pub CanStep : System → Type 0
CanStep s = (s' : System) × Step s s'

-- What a line waits for.
abbrev pub LineWaits : Line → Lock → Type 0
LineWaits wait_enter k = k.mutex ≡ 0
LineWaits wait_leave k = k.mutex ≡ 0
LineWaits test_first k = (k.readers ≡ pos 1) × (k.wrt ≡ 0)
LineWaits _ k = ⊥

-- What a thread waits for.
abbrev pub Waits : Locks → Pc → List Section → Type 0
Waits l idle todo = todo ≡ []
Waits l (at t line) todo = LineWaits line (get_lock t l)
Waits l (joining t line) todo = LineWaits line (get_lock t l)
Waits l (taking held []) todo = ⊥
Waits l (taking held (t ∷ wanted)) todo = (get_lock t l).wrt ≡ 0
Waits l (posting left) todo = ⊥

abbrev pub Moves : Locks → Pc → List Section → Type 0
Moves l p todo = (l' : Locks) × (th' : Thread) × (move l p todo ≡ some (l', th'))

-- A line has a result, or waits.
Result : {A : Type 0} → Option A → Type 0
Result {A} o = (a : A) × (o ≡ some a)

pub zero_or_suc : (n : ℕ) → (n ≡ 0) ⊎ ((m : ℕ) × (n ≡ suc m))
zero_or_suc zero = inl refl
zero_or_suc (suc n) = inr (n, refl)

take_mutex :
    (k : Lock) (line : Line)
    → read_line line k ≡ read_line wait_enter k
    → Result (read_line line k) ⊎ (k.mutex ≡ 0)
unfolding Result
take_mutex k line e = elim (zero_or_suc k.mutex) [
  | inl z ↦ inr z
  | inr (m, h) ↦ inl (record k { mutex = m }, e ∙ rw h)
]

take_wrt_moves : (k : Lock) → Result (take_wrt k) ⊎ (k.wrt ≡ 0)
unfolding Result
take_wrt_moves k = elim (zero_or_suc k.wrt) [
  | inl z ↦ inr z
  | inr (m, h) ↦ inl (record k { wrt = m }, rw h)
]

first_moves : (k : Lock) → Result (read_line test_first k) ⊎ LineWaits test_first k
unfolding Result
first_moves k = elim (Bool-cases (eq_ℤ k.readers (pos 1))) [
  | inl one ↦ elim (zero_or_suc k.wrt) [
    | inl z ↦ inr (eq_ℤ-eq k.readers (pos 1) one, z)
    | inr (m, h) ↦ inl (record k { wrt = m }, rw one (rw h))
  ]
  | inr more ↦ inl (k, rw more)
]

line_moves : (line : Line) (k : Lock) → Result (read_line line k) ⊎ LineWaits line k
unfolding Result
line_moves wait_enter k = take_mutex k wait_enter refl
line_moves count_up k = inl (_, refl)
line_moves test_first k = first_moves k
line_moves post_enter k = inl (_, refl)
line_moves wait_leave k = take_mutex k wait_leave refl
line_moves count_down k = inl (_, refl)
line_moves test_last k = inl (_, refl)
line_moves post_leave k = inl (_, refl)

behind_moves :
    (l : Locks) (t : Table) (p : Pc) (todo : List Section) (o : Option Lock)
    → Result o
    → (l' : Locks) × (th' : Thread) × (behind l t p todo o ≡ some (l', th'))
unfolding Result
behind_moves l t p todo o (k, e) = (set_lock t k l, record { pc = p; todo = todo }, rw e)

pub can_move_or_wait : (l : Locks) (p : Pc) (todo : List Section) → Moves l p todo ⊎ Waits l p todo
unfolding move Result
can_move_or_wait l idle [] = inr refl
can_move_or_wait l idle (s ∷ todo) = inl (_, _, refl)
can_move_or_wait l (at t line) todo = elim (line_moves line (get_lock t l)) [
  | inl r ↦ inl (behind_moves l t (follow t line) todo (read_line line (get_lock t l)) r)
  | inr w ↦ inr w
]
can_move_or_wait l (joining t line) todo = elim (line_moves line (get_lock t l)) [
  | inl r ↦ inl (behind_moves l t (join t line) todo (read_line line (get_lock t l)) r)
  | inr w ↦ inr w
]
can_move_or_wait l (taking held []) todo = inl (_, _, refl)
can_move_or_wait l (taking held (t ∷ wanted)) todo = elim (take_wrt_moves (get_lock t l)) [
  | inl r ↦ inl (behind_moves l t (taking (held ++ t ∷ []) wanted) todo (take_wrt (get_lock t l)) r)
  | inr w ↦ inr w
]
can_move_or_wait l (posting []) todo = inl (_, _, refl)
can_move_or_wait l (posting (t ∷ left)) todo = inl (_, _, refl)
