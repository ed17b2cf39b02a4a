-- ===== src/World/Semaphores.antt =====
-- The reader and writer sections that Roden.c writes out round each use of a file.
use group_a_cs.Base.{List, Bytes, zero, suc, if◌then◌else◌}
use group_a_cs.Base.Int.{ℤ, pos, ◌+ℤ◌, eq_ℤ, is_zero}
use group_a_cs.World.Monad.{
  World, Files, Table, buyer, seller, product, billing, order, Lock, Locks, done, blocked, M, ◌>>=◌,
  ◌>>◌, pure,
}

abbrev pub get_lock : Table → Locks → Lock
get_lock buyer l = l.customer_info
get_lock seller l = l.seller_info
get_lock product l = l.product_info
get_lock billing l = l.billing_info
get_lock order l = l.customer_order

abbrev pub set_lock : Table → Lock → Locks → Locks
set_lock buyer k l = record l { customer_info = k }
set_lock seller k l = record l { seller_info = k }
set_lock product k l = record l { product_info = k }
set_lock billing k l = record l { billing_info = k }
set_lock order k l = record l { customer_order = k }

-- `sem_wait` on a semaphore of value zero waits.
abbrev pub sem_wait_wrt : Table → M (Unit {0})
sem_wait_wrt t w =
    let k = get_lock t w.locks in
    elim k.wrt [
      | zero ↦ blocked
      | suc n ↦ done tt (record w { locks = set_lock t (record k { wrt = n }) w.locks })
    ]

abbrev pub sem_post_wrt : Table → M (Unit {0})
sem_post_wrt t w =
    let k = get_lock t w.locks in
    done tt (record w { locks = set_lock t (record k { wrt = suc k.wrt }) w.locks })

abbrev pub sem_wait_mutex : Table → M (Unit {0})
sem_wait_mutex t w =
    let k = get_lock t w.locks in
    elim k.mutex [
      | zero ↦ blocked
      | suc n ↦ done tt (record w { locks = set_lock t (record k { mutex = n }) w.locks })
    ]

abbrev pub sem_post_mutex : Table → M (Unit {0})
sem_post_mutex t w =
    let k = get_lock t w.locks in
    done tt (record w { locks = set_lock t (record k { mutex = suc k.mutex }) w.locks })

-- `counter += by`, and the new value.
abbrev pub add_readers : Table → ℤ → M ℤ
add_readers t by w =
    let k = get_lock t w.locks in
    let n = k.readers +ℤ by in
    done n (record w { locks = set_lock t (record k { readers = n }) w.locks })

unfoldable pub begin_read : Table → M (Unit {0})
unfolding ◌+ℤ◌
begin_read t = do
  sem_wait_mutex t
  n ← add_readers t (pos 1)
  if eq_ℤ n (pos 1) then sem_wait_wrt t else pure tt
  sem_post_mutex t

unfoldable pub end_read : Table → M (Unit {0})
unfolding ◌+ℤ◌
end_read t = do
  sem_wait_mutex t
  n ← add_readers t (ℤ.negsuc 0)
  if is_zero n then sem_post_wrt t else pure tt
  sem_post_mutex t

abbrev pub free : Lock
free = record { wrt = 1; mutex = 1; readers = pos 0 }

-- The semaphores as `main` of dataServer.c opens them.
abbrev pub all_free : Locks
all_free = record {
  customer_info = free;
  seller_info = free;
  product_info = free;
  billing_info = free;
  customer_order = free;
}

-- A state in which no handler holds a semaphore.
abbrev pub quiet : Files → List ℤ → List Bytes → World
quiet files deleted sent = record {
  files = files;
  locks = all_free;
  deleted_products = deleted;
  sent = sent;
}
