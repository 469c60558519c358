-- ===== src/User/ThreadAttr/Laws.antt =====
-- The attributes are independent of each other.
use l4ertl.Base.{ℕ, Ptr, null, some, ◌≡◌, ◌≢◌, ◌<◌, arith, ◌==◌, false}
use l4ertl.Kernel.{success}
use l4ertl.User.{Objects, Reply}
use l4ertl.User.ThreadAttr.{
  ThreadAttr, SchedParam, pthread_attr_init, pthread_attr_setstacksize, pthread_attr_getstacksize,
  pthread_attr_setstackaddr, pthread_attr_getstackaddr, pthread_attr_setdetachstate,
  pthread_attr_getdetachstate, pthread_attr_setschedpolicy, pthread_attr_getschedpolicy,
  pthread_attr_setschedparam, pthread_attr_getschedparam,
}

-- A call of the sequence returns 0.
abbrev pub IsDone : {A V : Type 0} → Reply A V → Type 0
IsDone r = r.returned ≡ success

-- A call returns 0 and stores the value.
abbrev pub Stores : {A V : Type 0} → V → Reply A V → Type 0
Stores v r = (r.returned ≡ success) × (r.stored ≡ some v)

-- Attributes that are initialised and then all set, one after the other.
abbrev pub all_set :
    Ptr → ℕ → Ptr → ℕ → ℕ → Ptr → SchedParam → Objects ThreadAttr → Objects ThreadAttr
all_set attr size addr detach policy param values o =
    let o1 = (pthread_attr_init attr o).objects in
    let o2 = (pthread_attr_setstacksize attr size o1).objects in
    let o3 = (pthread_attr_setstackaddr attr addr o2).objects in
    let o4 = (pthread_attr_setdetachstate attr detach o3).objects in
    let o5 = (pthread_attr_setschedpolicy attr policy o4).objects in
    (pthread_attr_setschedparam attr param values o5).objects

-- Of attributes that have been initialised and then all set, with a detach state of 0 or 1, the calls that
-- read them each return 0 and store what was set, if no pointer is NULL; no other attributes and no
-- error number have changed.
pub all_set-Stores :
    (attr size addr detach policy param out : ℕ) (values : SchedParam) (o : Objects ThreadAttr)
    → attr ≢ null
    → param ≢ null
    → out ≢ null
    → detach < 2
    → (let o1 = all_set attr size addr detach policy param values o in
        Stores size (pthread_attr_getstacksize attr out o1)
        × Stores addr (pthread_attr_getstackaddr attr out o1)
        × Stores detach (pthread_attr_getdetachstate attr out o1)
        × Stores policy (pthread_attr_getschedpolicy attr out o1)
        × Stores values (pthread_attr_getschedparam attr out o1)
        × ((other : Ptr) → other ≢ attr → o1.object other ≡ o.object other)
        × (o1.errno ≡ o.errno))
unfolding pthread_attr_init pthread_attr_setstacksize pthread_attr_getstacksize
    pthread_attr_setstackaddr pthread_attr_getstackaddr pthread_attr_setdetachstate
    pthread_attr_getdetachstate pthread_attr_setschedpolicy pthread_attr_getschedpolicy
    pthread_attr_setschedparam pthread_attr_getschedparam
all_set-Stores attr size addr detach policy param out values o real real_param real_out small =
    let t1 : (attr == null) ≡ false = ground (arith, real) in
    let t2 : (param == null) ≡ false = ground (arith, real_param) in
    let t3 : (out == null) ≡ false = ground (arith, real_out) in
    (
      (ground (arith, t1, t2, t3), ground (arith, t1, t2, t3)),
      (ground (arith, t1, t2, t3), ground (arith, t1, t2, t3)),
      (ground (arith, t1, t2, t3), ground (arith, t1, t2, t3)),
      (ground (arith, t1, t2, t3), ground (arith, t1, t2, t3)),
      (ground (arith, t1, t2, t3), ground (arith, t1, t2, t3)),
      λ other ne. ground (arith, t1, t2),
      ground (arith, t1, t2),
    )
