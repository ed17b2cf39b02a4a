-- ===== src/Concurrent/Moved.antt =====
-- The lines that a thread can move by, one constructor for each clause of `move`.
use group_a_cs.Base.{◌≡◌, refl, ap, subst, Option, none, some, List, [], ◌∷◌, ◌++◌}
use group_a_cs.World.{Table, Lock, Locks, get_lock, set_lock}
use group_a_cs.Concurrent.{
  Section, Line, Pc, idle, at, joining, join, taking, posting, Thread, start, follow, behind,
  read_line, take_wrt, post_wrt, move,
}

pub data Moved (l : Locks) : Pc → List Section → Locks → Thread → Type 0 where
  starts :
      (s : Section) (todo : List Section)
      → Moved l idle (s ∷ todo) l (record { pc = start s; todo = todo })
  reads :
      (t : Table) (line : Line) (k : Lock) (todo : List Section)
      → read_line line (get_lock t l) ≡ some k
      → Moved l (at t line) todo (set_lock t k l) (record { pc = follow t line; todo = todo })
  joins :
      (t : Table) (line : Line) (k : Lock) (todo : List Section)
      → read_line line (get_lock t l) ≡ some k
      → Moved l (joining t line) todo (set_lock t k l) (record { pc = join t line; todo = todo })
  works :
      (held : List Table) (todo : List Section)
      → Moved l (taking held []) todo l (record { pc = posting held; todo = todo })
  takes :
      (t : Table) (held wanted : List Table) (k : Lock) (todo : List Section)
      → take_wrt (get_lock t l) ≡ some k
      → Moved l
          (taking held (t ∷ wanted))
          todo
          (set_lock t k l)
          (record { pc = taking (held ++ t ∷ []) wanted; todo = todo })
  posts :
      (t : Table) (left : List Table) (todo : List Section)
      → Moved l
          (posting (t ∷ left))
          todo
          (set_lock t (post_wrt (get_lock t l)) l)
          (record { pc = posting left; todo = todo })
  ends : (todo : List Section) → Moved l (posting []) todo l (record { pc = idle; todo = todo })

abbrev value_or : {A : Type 0} → A → Option A → A
value_or d none = d
value_or d (some a) = a

-- The result of a move is that of its constructor.
result :
    {l l' l'' : Locks} {p : Pc} {todo : List Section} {th' th'' : Thread}
    → Moved l p todo l'' th''
    → ◌≡◌ {A = Option (Locks × Thread)} (some (l'', th'')) (some (l', th'))
    → Moved l p todo l' th'
result {l} {l'} {l''} {p} {todo} {th'} {th''} m e =
    subst (λ (x : Locks × Thread). Moved l p todo x.0 x.1) (ap (value_or (l'', th'')) e) m

reads_by :
    (l : Locks) (t : Table) (line : Line) (todo : List Section) (o : Option Lock) {l' : Locks}
    {th' : Thread}
    → read_line line (get_lock t l) ≡ o
    → behind l t (follow t line) todo o ≡ some (l', th')
    → Moved l (at t line) todo l' th'
reads_by l t line todo none e h = cc
reads_by l t line todo (some k) e h = result (reads t line k todo e) h

joins_by :
    (l : Locks) (t : Table) (line : Line) (todo : List Section) (o : Option Lock) {l' : Locks}
    {th' : Thread}
    → read_line line (get_lock t l) ≡ o
    → behind l t (join t line) todo o ≡ some (l', th')
    → Moved l (joining t line) todo l' th'
joins_by l t line todo none e h = cc
joins_by l t line todo (some k) e h = result (joins t line k todo e) h

takes_by :
    (l : Locks) (t : Table) (held wanted : List Table) (todo : List Section) (o : Option Lock)
    {l' : Locks} {th' : Thread}
    → take_wrt (get_lock t l) ≡ o
    → behind l t (taking (held ++ t ∷ []) wanted) todo o ≡ some (l', th')
    → Moved l (taking held (t ∷ wanted)) todo l' th'
takes_by l t held wanted todo none e h = cc
takes_by l t held wanted todo (some k) e h = result (takes t held wanted k todo e) h

pub move-Moved :
    (l : Locks) (p : Pc) (todo : List Section) {l' : Locks} {th' : Thread}
    → move l p todo ≡ some (l', th')
    → Moved l p todo l' th'
unfolding move
move-Moved l idle [] h = cc
move-Moved l idle (s ∷ todo) h = result (starts s todo) h
move-Moved l (at t line) todo h = reads_by l t line todo _ refl h
move-Moved l (joining t line) todo h = joins_by l t line todo _ refl h
move-Moved l (taking held []) todo h = result (works held todo) h
move-Moved l (taking held (t ∷ wanted)) todo h = takes_by l t held wanted todo _ refl h
move-Moved l (posting []) todo h = result (ends todo) h
move-Moved l (posting (t ∷ left)) todo h = result (posts t left todo) h
