-- ===== src/User/MutexAttr/Laws.antt =====
-- The attributes of mutexes are independent of each other.
use l4ertl.Base.{ℕ, Ptr, null, ◌≡◌, ◌≢◌, arith, ◌==◌, false}
use l4ertl.User.{Objects}
use l4ertl.User.ThreadAttr.Laws.{Stores}
use l4ertl.User.MutexAttr.{
  MutexAttr, pthread_mutexattr_init, pthread_mutexattr_setprotocol, pthread_mutexattr_getprotocol,
  pthread_mutexattr_setprioceiling, pthread_mutexattr_getprioceiling, pthread_mutexattr_settype,
  pthread_mutexattr_gettype,
}

-- Attributes that are initialised and then all set, one after the other.
abbrev pub mutexattr_set : Ptr → ℕ → ℕ → ℕ → Objects MutexAttr → Objects MutexAttr
mutexattr_set attr protocol ceiling type o =
    let o1 = (pthread_mutexattr_init attr o).objects in
    let o2 = (pthread_mutexattr_setprotocol attr protocol o1).objects in
    let o3 = (pthread_mutexattr_setprioceiling attr ceiling o2).objects in
    (pthread_mutexattr_settype attr type o3).objects

-- Of attributes of a mutex that have been initialised and then all set, the calls that read them each
-- return 0 and store what was set, if no pointer is NULL; no other attributes and no error number have
-- changed.
pub mutexattr_set-Stores :
    (attr protocol ceiling type out : ℕ) (o : Objects MutexAttr)
    → attr ≢ null
    → out ≢ null
    → (let o1 = mutexattr_set attr protocol ceiling type o in
        Stores protocol (pthread_mutexattr_getprotocol attr out o1)
        × Stores ceiling (pthread_mutexattr_getprioceiling attr out o1)
        × Stores type (pthread_mutexattr_gettype attr out o1)
        × ((other : Ptr) → other ≢ attr → o1.object other ≡ o.object other)
        × (o1.errno ≡ o.errno))
unfolding pthread_mutexattr_init pthread_mutexattr_setprotocol pthread_mutexattr_getprotocol
    pthread_mutexattr_setprioceiling pthread_mutexattr_getprioceiling pthread_mutexattr_settype
    pthread_mutexattr_gettype
mutexattr_set-Stores attr protocol ceiling type out o real real_out =
    let t1 : (attr == null) ≡ false = ground (arith, real) in
    let t2 : (out == null) ≡ false = ground (arith, real_out) in
    (
      (ground (arith, t1, t2), ground (arith, t1, t2)),
      (ground (arith, t1, t2), ground (arith, t1, t2)),
      (ground (arith, t1, t2), ground (arith, t1, t2)),
      λ other ne. ground (arith, t1),
      ground (arith, t1),
    )
