-- ===== src/Concurrent/Counts.antt =====
-- What the threads do with the semaphores of one file, counted over all threads.
use native.Mathlib.Decide.{dec_lt}
use group_a_cs.Base.{
  ℕ, ◌+◌, ◌<◌, ◌≡◌, refl, true, false, Bool, List, [], ◌∷◌, ◌++◌, arith, if◌then◌else◌, ap,
}
use group_a_cs.World.{
  Table, buyer, seller, product, billing, order, Lock, Locks, get_lock, set_lock,
}
use group_a_cs.Concurrent.{
  Line, wait_enter, test_first, post_enter, wait_leave, count_down, test_last, Pc, at, taking,
  posting, Thread,
}

-- The place of a file in the order in which semaphores are taken.
abbrev pub rank : Table → ℕ
rank buyer = 1
rank seller = 2
rank product = 3
rank billing = 4
rank order = 5

abbrev pub same : Table → Table → Bool
same buyer buyer = true
same seller seller = true
same product product = true
same billing billing = true
same order order = true
same _ _ = false

pub same_refl : (t : Table) → same t t ≡ true
same_refl buyer = refl
same_refl seller = refl
same_refl product = refl
same_refl billing = refl
same_refl order = refl

pub get_lock-set_lock :
    (t t' : Table) (k : Lock) (l : Locks)
    → get_lock t (set_lock t' k l) ≡ (if same t t' then k else get_lock t l)
get_lock-set_lock t buyer k l = ground arith
get_lock-set_lock t seller k l = ground arith
get_lock-set_lock t product k l = ground arith
get_lock-set_lock t billing k l = ground arith
get_lock-set_lock t order k l = ground arith

-- A thread at this line has the semaphore round the counter.
abbrev pub in_mutex : Line → ℕ
in_mutex wait_enter = 0
in_mutex wait_leave = 0
in_mutex _ = 1

-- It is counted as a reader.
abbrev pub counted : Line → ℕ
counted test_first = 1
counted post_enter = 1
counted wait_leave = 1
counted count_down = 1
counted _ = 0

-- It is counted and may not have the writers' semaphore yet; it is not counted any more and may have
-- it still.
abbrev pub arriving : Line → ℕ
arriving test_first = 1
arriving _ = 0

abbrev pub parting : Line → ℕ
parting test_last = 1
parting _ = 0

-- It is between its two visits to the counter, where the file is read.
abbrev pub inside : Line → ℕ
inside wait_leave = 1
inside _ = 0

-- The same of a thread, for one file.
abbrev pub reader : (Line → ℕ) → Table → Pc → ℕ
reader weight t (at t' line) = if same t t' then weight line else 0
reader weight t _ = 0

abbrev pub member : Table → List Table → ℕ
member t [] = 0
member t (t' ∷ ts) = (if same t t' then 1 else 0) + member t ts

-- How often a thread has the writers' semaphore of a file as a writer.
abbrev pub writer : Table → Pc → ℕ
writer t (taking held wanted) = member t held
writer t (posting left) = member t left
writer t _ = 0

pub member-append :
    (t : Table) (ts ts' : List Table) → member t (ts ++ ts') ≡ member t ts + member t ts'
member-append t [] ts' = omega arith
member-append t (x ∷ ts) ts' = omega (arith, member-append t ts ts')

abbrev pub total : (Pc → ℕ) → List Thread → ℕ
total f [] = 0
total f (th ∷ ths) = f th.pc + total f ths

pub total-append :
    (f : Pc → ℕ) (before after : List Thread)
    → total f (before ++ after) ≡ total f before + total f after
total-append f [] after = omega arith
total-append f (th ∷ before) after = omega (arith, total-append f before after)

-- A thread of weight above zero is among the threads.
pub record Among (f : Thread → ℕ) (ths : List Thread) : Type 0 where
  pub before : List Thread
  pub th : Thread
  pub after : List Thread
  pub split : ths ≡ before ++ th ∷ after
  pub weighs : 0 < f th

pub first_Among : (f : Thread → ℕ) (th : Thread) (ths : List Thread) → 0 < f th → Among f (th ∷ ths)
first_Among f th ths p = record { before = []; th = th; after = ths; split = refl; weighs = p }

pub later_Among :
    (f : Thread → ℕ) (th : Thread) {ths : List Thread} → Among f ths → Among f (th ∷ ths)
later_Among f th a = record {
  before = th ∷ a.before;
  th = a.th;
  after = a.after;
  split = ap (λ l. th ∷ l) a.split;
  weighs = a.weighs;
}

pub total-Among : (f : Pc → ℕ) (ths : List Thread) → 0 < total f ths → Among (λ th. f th.pc) ths
total-Among f [] h = absurd (omega arith)
total-Among f (th ∷ ths) h = elim (dec_lt 0 (f th.pc)) [
  | yes p ↦ first_Among (λ x. f x.pc) th ths p
  | no p ↦ later_Among (λ x. f x.pc) th (total-Among f ths (omega arith))
]
