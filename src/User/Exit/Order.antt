-- ===== src/User/Exit/Order.antt =====
-- The functions are called in the opposite order of their registration.
use l4ertl.Base.{
  ℕ, suc, Ptr, List, [], ◌∷◌, length, ◌+◌, ◌≤◌, ◌<◌, ◌≡◌, refl, arith, ap, ◌∙◌, sym, true, ltb,
  update,
}
use l4ertl.User.Exit.{AtExit, atexit, call_all, exit, atexit_max}
use l4ertl.Kernel.{success}

-- The functions registered one after the other.
abbrev pub register : List Ptr → AtExit → AtExit
register [] t = t
register (f ∷ fs) t = register fs (atexit f t).1

abbrev pub no_functions : AtExit
no_functions = record { atexit_func = λ n. 0; atexit_nr = 0 }

-- The effects of the functions, that of the first one last.
abbrev pub last_first : {S : Type 0} → (Ptr → S → S) → List Ptr → S → S
last_first act [] s = s
last_first act (f ∷ fs) s = act f (last_first act fs s)

-- A function that leaves the table alone.
abbrev pub leaving_table : {S : Type 0} → (Ptr → S → S) → Ptr → AtExit × S → AtExit × S
leaving_table act f s = (s.0, act f s.1)

-- The table with one function more.
abbrev pushed : Ptr → AtExit → AtExit
pushed f t = record {
  atexit_func = update t.atexit_func t.atexit_nr f;
  atexit_nr = t.atexit_nr + 1;
}

atexit_room : (f : Ptr) (t : AtExit) → t.atexit_nr < atexit_max → atexit f t ≡ (success, pushed f t)
unfolding atexit
atexit_room f t room =
    let test : ltb t.atexit_nr atexit_max ≡ true = ground (arith, room) in rw test refl

register_more :
    (f : Ptr) (fs : List Ptr) (t : AtExit)
    → t.atexit_nr < atexit_max
    → register (f ∷ fs) t ≡ register fs (pushed f t)
register_more f fs t room = ap (λ (r : ℕ × AtExit). register fs r.1) (atexit_room f t room)

register_kept :
    (fs : List Ptr) (t : AtExit) (i : ℕ)
    → t.atexit_nr + length fs ≤ atexit_max
    → i < t.atexit_nr
    → (register fs t).atexit_func i ≡ t.atexit_func i
register_kept [] t i room lt = refl
register_kept (f ∷ fs) t i room lt =
    ap (λ (r : AtExit). r.atexit_func i) (register_more f fs t (omega (arith, room)))
    ∙ register_kept fs (pushed f t) i (omega (arith, room)) (omega (arith, lt))
    ∙ ground (arith, lt)

register_nr :
    (fs : List Ptr) (t : AtExit)
    → t.atexit_nr + length fs ≤ atexit_max
    → (register fs t).atexit_nr ≡ t.atexit_nr + length fs
register_nr [] t room = omega arith
register_nr (f ∷ fs) t room =
    ap (λ (r : AtExit). r.atexit_nr) (register_more f fs t (omega (arith, room)))
    ∙ register_nr fs (pushed f t) (omega (arith, room))
    ∙ omega arith

module _ {S : Type 0} (act : Ptr → S → S) where
  call_all_registered :
      (fs : List Ptr) (t u : AtExit) (s : S)
      → t.atexit_nr + length fs ≤ atexit_max
      → register fs t ≡ u
      → call_all (leaving_table act) (t.atexit_nr + length fs) (u, s)
        ≡ call_all (leaving_table act) t.atexit_nr (u, last_first act fs s)
  unfolding call_all
  call_all_registered [] t u s room e =
      ap (λ n. call_all (leaving_table act) n (u, s))
        (let same : t.atexit_nr + 0 ≡ t.atexit_nr = omega arith in same)
  call_all_registered (f ∷ fs) t u s room e =
      let t1 = pushed f t in
      let e1 : register fs t1 ≡ u = sym (register_more f fs t (omega (arith, room))) ∙ e in
      let own : u.atexit_func t.atexit_nr ≡ f =
        sym (ap (λ (r : AtExit). r.atexit_func t.atexit_nr) e1)
        ∙ register_kept fs t1 t.atexit_nr (omega (arith, room)) (omega arith)
        ∙ ground arith in
      ap (λ n. call_all (leaving_table act) n (u, s))
        (let same : t.atexit_nr + suc (length fs) ≡ t1.atexit_nr + length fs = omega arith in same)
      ∙ call_all_registered fs t1 u s (omega (arith, room)) e1
      ∙ ap (λ n. call_all (leaving_table act) n (u, last_first act fs s))
          (let next : t.atexit_nr + 1 ≡ suc t.atexit_nr = omega arith in next)
      ∙ ap (λ g. call_all (leaving_table act) t.atexit_nr (u, act g (last_first act fs s))) own

  -- After at most 32 functions have been registered, `exit` calls each of them once, the last one first,
  -- if they leave the table alone, and gives its status to `_exit`.
  pub exit-last_first :
      (fs : List Ptr) (status : ℕ) (s : S)
      → length fs ≤ 32
      → exit (leaving_table act) status (register fs no_functions, s)
        ≡ (status, (register fs no_functions, last_first act fs s))
  unfolding exit call_all
  exit-last_first fs status s few =
      let u = register fs no_functions in
      ap (λ n. (status, call_all (leaving_table act) n (u, s)))
        (register_nr fs no_functions (omega (arith, few)))
      ∙ ap (λ r. (status, r)) (call_all_registered fs no_functions u s (omega (arith, few)) refl)
