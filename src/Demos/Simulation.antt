-- ===== src/Demos/Simulation.antt =====
-- The demo programs run as the threads of the data server do.
use group_a_cs.Base.{◌<◌, ◌≡◌, refl, ◌∙◌, ap, Option, none, some, List, [], ◌∷◌, ◌++◌, map, arith}
use group_a_cs.Base.Int.{pos, ◌+ℤ◌}
use group_a_cs.World.{
  Table, buyer, seller, product, billing, order, Lock, Locks, get_lock, set_lock,
}
use group_a_cs.Concurrent.{
  Section, Line, wait_enter, count_up, test_first, post_enter, wait_leave, count_down, test_last,
  post_leave, Pc, idle, at, joining, join, taking, posting, Thread, follow, read_line, take_wrt,
  behind, move, System,
}
use group_a_cs.Demos.Processes.{
  Semaphores, set_semaphores, call, lock_wrt, unlock_wrt, with_semaphores, advance, Process, Demo,
}

-- The semaphores of a file as the server has them, with the value of the counting semaphore for the
-- counter of readers.
abbrev pub lock_of : Semaphores → Lock
lock_of k = record { wrt = k.wrt; mutex = k.mutex; readers = pos k.counter }

abbrev pub locks_of : (Table → Semaphores) → Locks
locks_of l = record {
  customer_info = lock_of (l buyer);
  seller_info = lock_of (l seller);
  product_info = lock_of (l product);
  billing_info = lock_of (l billing);
  customer_order = lock_of (l order);
}

abbrev pub threads_of : List Process → List Thread
threads_of = map Process.thread

abbrev pub system_of : Demo → System
system_of s = record { locks = locks_of s.semaphores; threads = threads_of s.processes }

pub get_lock-locks_of :
    (t : Table) (l : Table → Semaphores) → get_lock t (locks_of l) ≡ lock_of (l t)
get_lock-locks_of buyer l = refl
get_lock-locks_of seller l = refl
get_lock-locks_of product l = refl
get_lock-locks_of billing l = refl
get_lock-locks_of order l = refl

locks_of-set :
    (t : Table) (k : Semaphores) (l : Table → Semaphores)
    → locks_of (set_semaphores t k l) ≡ set_lock t (lock_of k) (locks_of l)
locks_of-set buyer k l = refl
locks_of-set seller k l = refl
locks_of-set product k l = refl
locks_of-set billing k l = refl
locks_of-set order k l = refl

abbrev lock_result : Option Semaphores → Option Lock
lock_result none = none
lock_result (some k) = some (lock_of k)

-- The reader's line is not the one that counts down from zero.
abbrev pub IsCounted : Line → Semaphores → Type 0
IsCounted count_down k = 0 < k.counter
IsCounted _ k = Unit

lock_wrt-lock_of : (k : Semaphores) → lock_result (lock_wrt k) ≡ take_wrt (lock_of k)
lock_wrt-lock_of k = ground arith

call-lock_of :
    (line : Line) (k : Semaphores)
    → IsCounted line k
    → lock_result (call line k) ≡ read_line line (lock_of k)
unfolding ◌+ℤ◌
call-lock_of wait_enter k h = ground arith
call-lock_of count_up k h = ground arith
call-lock_of test_first k h = ground arith
call-lock_of post_enter k h = ground arith
call-lock_of wait_leave k h = ground arith
call-lock_of count_down k h = ground arith
call-lock_of test_last k h = ground arith
call-lock_of post_leave k h = ground arith

abbrev pub result : Option ((Table → Semaphores) × Thread) → Option (Locks × Thread)
result none = none
result (some (l, th)) = some (locks_of l, th)

with_semaphores-result :
    (l : Table → Semaphores) (t : Table) (p : Pc) (todo : List Section) (o : Option Semaphores)
    → result (with_semaphores l t p todo o) ≡ behind (locks_of l) t p todo (lock_result o)
with_semaphores-result l t p todo none = refl
with_semaphores-result l t p todo (some k) = rw (locks_of-set t k l) refl

-- The process is counted where it counts down.
abbrev pub Counted : (Table → Semaphores) → Pc → Type 0
Counted l (at t line) = IsCounted line (l t)
Counted l (joining t line) = IsCounted line (l t)
Counted l _ = Unit

-- A process moves as a thread of the server does, and waits where that waits.
pub advance-move :
    (l : Table → Semaphores) (p : Pc) (todo : List Section)
    → Counted l p
    → result (advance l p todo) ≡ move (locks_of l) p todo
unfolding advance move
advance-move l idle [] h = refl
advance-move l idle (s ∷ todo) h = refl
advance-move l (at t line) todo h =
    with_semaphores-result l t (follow t line) todo (call line (l t))
    ∙ rw (get_lock-locks_of t l) (rw (call-lock_of line (l t) h) refl)
advance-move l (joining t line) todo h =
    with_semaphores-result l t (join t line) todo (call line (l t))
    ∙ rw (get_lock-locks_of t l) (rw (call-lock_of line (l t) h) refl)
advance-move l (taking held []) todo h = refl
advance-move l (taking held (t ∷ wanted)) todo h =
    with_semaphores-result l t (taking (held ++ t ∷ []) wanted) todo (lock_wrt (l t))
    ∙ rw (get_lock-locks_of t l) (rw (lock_wrt-lock_of (l t)) refl)
advance-move l (posting []) todo h = refl
advance-move l (posting (t ∷ left)) todo h =
    rw (get_lock-locks_of t l) (rw (locks_of-set t (unlock_wrt (l t)) l) refl)

pub threads_of-append :
    (before : List Process) (p : Process) (after : List Process)
    → threads_of (before ++ p ∷ after) ≡ threads_of before ++ p.thread ∷ threads_of after
threads_of-append [] p after = refl
threads_of-append (x ∷ before) p after =
    ap (λ ths. x.thread ∷ ths) (threads_of-append before p after)
