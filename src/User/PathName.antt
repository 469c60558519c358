-- ===== src/User/PathName.antt =====
-- `basename` of server/ulibc/libgen.c. `fuel` is for the loops of `strrchr`, and `rounds` for taking off
-- slashes at the end; `none` is fuel that ran out.
pub mod LastPart
use l4ertl.Base.{ℕ, zero, suc, Ptr, null, Option, some, none, ◌+◌, ◌==◌, if◌then◌else◌, update}
use l4ertl.Memory.{Memory}
use l4ertl.Strings.{strrchr}

-- '/'
abbrev pub slash : ℕ
slash = 47

unfoldable pub basename : ℕ → ℕ → Ptr → Memory → Option (Ptr × Memory)
unfolding strrchr
basename fuel zero path m = none
basename fuel (suc rounds) path m = elim (strrchr fuel m path slash) [
  | none ↦ none
  | some c ↦
      let again = basename fuel rounds path (update m c 0) in
      if c == null
      then some (path, m)
      else if m (c + 1) == 0
      then (if c == path then some (c, m) else again)
      else some (c + 1, m)
]
