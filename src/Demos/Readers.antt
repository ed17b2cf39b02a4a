-- ===== src/Demos/Readers.antt =====
-- Demos/2_Race_Fix/ReadWriteDemo.c, the fixed version: readers that count themselves without a lock.
use group_a_cs.Base.{
  ℕ, zero, suc, ◌-◌, ◌≤◌, ◌≡◌, refl, subst, Bool, true, false, Option, none, some, List, [], ◌∷◌,
  ◌++◌, All, if◌then◌else◌, ◌==◌, arith,
}

-- The semaphore, `numReader` and `readOpen`.
pub record Shared : Type 0 where
  pub sem : ℕ
  pub num_reader : ℕ
  pub read_open : Bool

-- The next line of a reader.
pub data ReaderLine : Type 0 where
  increments tests_one waits opens_up spins reads decrements tests_zero signals shuts : ReaderLine
  returned : ReaderLine

-- The next line of a writer; it reads and writes the file in one.
pub data WriterLine : Type 0 where
  locks writes unlocks finished : WriterLine

pub data Actor : Type 0 where
  reader : ReaderLine → Actor
  writer : WriterLine → Actor

abbrev pub semop_p : Shared → Option Shared
semop_p m = elim m.sem [ zero ↦ none | suc n ↦ some (record m { sem = n }) ]

abbrev pub goes_to : Actor → Option Shared → Option (Shared × Actor)
goes_to a none = none
goes_to a (some m) = some (m, a)

-- One line. `none`: it waits, or there is none. `while(!readOpen){}` stays where it is.
unfoldable pub act : Shared → Actor → Option (Shared × Actor)
act m (reader increments) = some (record m { num_reader = suc m.num_reader }, reader tests_one)
act m (reader tests_one) = some (m, if m.num_reader == 1 then reader waits else reader spins)
act m (reader waits) = goes_to (reader opens_up) (semop_p m)
act m (reader opens_up) = some (record m { read_open = true }, reader spins)
act m (reader spins) = some (m, if m.read_open then reader reads else reader spins)
act m (reader reads) = some (m, reader decrements)
act m (reader decrements) = some (record m { num_reader = m.num_reader - 1 }, reader tests_zero)
act m (reader tests_zero) = some (m, if m.num_reader == 0 then reader signals else reader returned)
act m (reader signals) = some (record m { sem = suc m.sem }, reader shuts)
act m (reader shuts) = some (record m { read_open = false }, reader returned)
act m (reader returned) = none
act m (writer locks) = goes_to (writer writes) (semop_p m)
act m (writer writes) = some (m, writer unlocks)
act m (writer unlocks) = some (record m { sem = suc m.sem }, writer finished)
act m (writer finished) = none

pub record Stage : Type 0 where
  pub shared : Shared
  pub actors : List Actor

pub data Acts (s : Stage) : Stage → Type 0 where
  acts :
      (before : List Actor) (a : Actor) (after : List Actor) {m : Shared} {a' : Actor}
      → s.actors ≡ before ++ a ∷ after
      → act s.shared a ≡ some (m, a')
      → Acts s (record { shared = m; actors = before ++ a' ∷ after })

-- The states that any interleaving leads to from a state.
pub data Later (s : Stage) : Stage → Type 0 where
  now : Later s s
  on : {s' s'' : Stage} → Later s s' → Acts s' s'' → Later s s''

-- The state that `main` sets up, before the threads.
abbrev pub at_start : List Actor → Stage
at_start actors = record {
  shared = record { sem = 1; num_reader = 0; read_open = false };
  actors = actors;
}

-- A reader that has not come past its loop, or a writer.
abbrev pub IsEarly : Actor → Type 0
IsEarly (reader increments) = Unit
IsEarly (reader tests_one) = Unit
IsEarly (reader spins) = Unit
IsEarly (reader _) = ⊥
IsEarly (writer line) = Unit

-- Readers have counted themselves, and none has been the first.
record Shut (s : Stage) : Type 0 where
  closed : s.shared.read_open ≡ false
  several : 2 ≤ s.shared.num_reader
  early : All IsEarly s.actors

act-Shut :
    (m : Shared) (a : Actor) {m' : Shared} {a' : Actor}
    → act m a ≡ some (m', a')
    → m.read_open ≡ false
    → 2 ≤ m.num_reader
    → IsEarly a
    → (m'.read_open ≡ false) × (2 ≤ m'.num_reader) × IsEarly a'
unfolding act
act-Shut m (reader line) e c h i = ground (arith, e, c, h, i)
act-Shut m (writer line) e c h i = ground (arith, e, c, h, i)

middle_actor :
    (before : List Actor) (a a' : Actor) (after : List Actor)
    → All IsEarly (before ++ a ∷ after)
    → IsEarly a × (IsEarly a' → All IsEarly (before ++ a' ∷ after))
middle_actor [] a a' after h = (h.0, λ k. (k, h.1))
middle_actor (x ∷ before) a a' after h =
    let (k, f) = middle_actor before a a' after h.1 in (k, λ i. (h.0, f i))

Acts-Shut : {s s' : Stage} → Acts s s' → Shut s → Shut s'
Acts-Shut {s} (acts before a after {m} {a'} split line) h =
    let (early, rest) = middle_actor before a a' after (subst (All IsEarly) split h.early) in
    let (closed, several, early') = act-Shut s.shared a line h.closed h.several early in
    record { closed = closed; several = several; early = rest early' }

Later-Shut : {s s' : Stage} → Later s s' → Shut s → Shut s'
Later-Shut now h = h
Later-Shut (on l a) h = Acts-Shut a (Later-Shut l h)

-- Two readers and any other readers and writers that have not begun: an interleaving leads to a state
-- after which, whatever line is run next and for ever, every reader is still before its loop or in it,
-- so that none reads the file.
pub readers_shut_out :
    (others : List Actor)
    → All IsEarly others
    → (s : Stage) × Later (at_start (reader increments ∷ reader increments ∷ others)) s
      × ((s' : Stage) → Later s s' → All IsEarly s'.actors)
unfolding act
readers_shut_out others h =
    let one = on now (acts [] (reader increments) (reader increments ∷ others) refl refl) in
    let two = on one (acts (reader tests_one ∷ []) (reader increments) others refl refl) in
    (
      _,
      two,
      λ s' l.
          (Later-Shut l
            (record { closed = refl; several = omega arith; early = (tt, (tt, h)) })).early,
    )
