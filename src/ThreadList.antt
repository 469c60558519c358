-- ===== src/ThreadList.antt =====
-- include/ertl_core/pthread_list.h: the lists of threads that wait on an object. A node stands for
-- the thread that it belongs to, its field `this`.
pub mod Lists
use l4ertl.Base.{ℕ, ◌==◌, if◌then◌else◌, Ptr, null, update}
use l4ertl.Kernel.{Links}
use l4ertl.Chain.{bypass_next, bypass_prev}

-- What a function that is given `**h` leaves: the head, the links, and what it returns.
pub record Listed (A : Type 0) : Type 0 where
  pub head : Ptr
  pub links : Links
  pub result : A

unfoldable pub init_pthread_list : Ptr
init_pthread_list = null

unfoldable pub insert_pthread_list : Ptr → Ptr → Links → Listed (Unit {0})
insert_pthread_list h p l = record {
  head = p;
  links = record {
    prev = if h == null then l.prev else update l.prev h p;
    next = update l.next p h;
  };
  result = tt;
}

unfoldable pub remove_pthread_list : Ptr → Ptr → Links → Listed (Unit {0})
remove_pthread_list h p l =
    let prev1 = bypass_prev l.next l.prev p in
    let next1 = bypass_next l.next prev1 p in
    record {
      head = if h == p then next1 p else h;
      links = record { prev = update prev1 p null; next = update next1 p null };
      result = tt;
    }

unfoldable pub remove_head_pthread_list : Ptr → Links → Listed Ptr
remove_head_pthread_list h l =
    let h1 = if h == null then h else l.next h in
    let prev1 = if h1 == null then l.prev else update l.prev h1 null in
    record {
      head = h1;
      links = record {
        prev = if h == null then prev1 else update prev1 h null;
        next = if h == null then l.next else update l.next h null;
      };
      result = if h == null then null else h;
    }
