-- ===== src/Concurrent/Alone.antt =====
-- The lines of one thread while no other thread runs, against the sections that the handlers run as
-- one step.
use group_a_cs.Base.{ℕ, zero, suc, ◌≡◌, some, none, Option, List, arith}
use group_a_cs.World.{Table, Locks, World, Outcome, done, blocked, begin_read, end_read}
use group_a_cs.Concurrent.{Section, wait_enter, wait_leave, Pc, at, move}

-- `n` lines of one thread. `none`: it waits at one of them.
abbrev pub alone : ℕ → Locks → Pc → List Section → Option Locks
alone zero l p todo = some l
alone (suc n) l p todo = elim (move l p todo) [ none ↦ none | some r ↦ alone n r.0 r.1.pc r.1.todo ]

-- What the lines are for a handler.
abbrev pub of_lines : World → Option Locks → Outcome (Unit {0})
of_lines w none = blocked
of_lines w (some l) = done tt (record w { locks = l })

pub begin_read-alone :
    (t : Table) (todo : List Section) (w : World)
    → begin_read t w ≡ of_lines w (alone 4 w.locks (at t wait_enter) todo)
unfolding begin_read move
begin_read-alone t todo w = ground arith

pub end_read-alone :
    (t : Table) (todo : List Section) (w : World)
    → end_read t w ≡ of_lines w (alone 4 w.locks (at t wait_leave) todo)
unfolding end_read move
end_read-alone t todo w = ground arith
