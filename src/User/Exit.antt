-- ===== src/User/Exit.antt =====
-- `atexit` and `exit` of server/ulibc/stdlib.c. `call` calls a registered function, which may register
-- others; `_exit`, which follows the last one, ends the program.
pub mod Order
use l4ertl.Base.{ℕ, zero, suc, Ptr, ◌+◌, ltb, if◌then◌else◌, update}
use l4ertl.Kernel.{success, failure}

abbrev pub atexit_max : ℕ
atexit_max = 32

pub record AtExit : Type 0 where
  pub atexit_func : ℕ → Ptr
  pub atexit_nr : ℕ

unfoldable pub atexit : Ptr → AtExit → ℕ × AtExit
atexit function t =
    if ltb t.atexit_nr atexit_max
    then (
      success,
      record {
        atexit_func = update t.atexit_func t.atexit_nr function;
        atexit_nr = t.atexit_nr + 1;
      },
    )
    else (failure, t)

-- The loop over the functions below `n`, from the last one on.
unfoldable pub call_all :
    {S : Type 0} → (Ptr → AtExit × S → AtExit × S) → ℕ → AtExit × S → AtExit × S
call_all call zero s = s
call_all call (suc n) s = call_all call n (call (s.0.atexit_func n) s)

-- What `_exit` is given, and the state in which it is called.
unfoldable pub exit :
    {S : Type 0} → (Ptr → AtExit × S → AtExit × S) → ℕ → AtExit × S → ℕ × (AtExit × S)
unfolding call_all
exit call status s = (status, call_all call s.0.atexit_nr s)
