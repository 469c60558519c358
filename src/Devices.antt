-- ===== src/Devices.antt =====
-- The table of drivers, in server/core/port/dev.c, and opening a file, in server/core/port/fs.c. The
-- literal "/dev/" and the array `dname` of open_sys stand at addresses that are arguments. What
-- init_devs prints is left out.
use l4ertl.Kernel.{failure}
use l4ertl.Files.{enoent, driver, Dev, System}
use l4ertl.Base.{
  leb, zero, word, ◌%◌, ◌||◌, ◌==◌, not, ltb, [], none, some, if◌then◌else◌, ◌-◌, ◌+◌, ◌∷◌, Option,
  ℕ, List, Ptr,
}
use l4ertl.Convert.{isdigit}
use l4ertl.Strings.{strncpy, strncmp, strlen, strcmp}
use Prim.Native.Nat.{suc, ℕ}
use l4ertl.Memory.{memmove, memset, Memory}

-- The loop of `init_devs`, with what the last driver returned.
unfoldable pub init_from : {W : Type 0} → List (Dev W) → ℕ → System W → ℕ × System W
init_from [] ret s = (ret, s)
init_from (d ∷ ds) ret s = let done_one = d.init s in init_from ds done_one.0 done_one.1

unfoldable pub init_devs : {W : Type 0} → List (Dev W) → System W → ℕ × System W
unfolding init_from
init_devs devtab s = init_from devtab 0 s

-- The loop of `devno` from the index `i`.
unfoldable pub devno_from : {W : Type 0} → List (Dev W) → ℕ → ℕ → ℕ
devno_from [] i dc = failure
devno_from (d ∷ ds) i dc = let rest = devno_from ds (i + 1) dc in if d.dc == dc then i else rest

unfoldable pub devno : {W : Type 0} → List (Dev W) → ℕ → ℕ
unfolding devno_from
devno devtab dc = devno_from devtab 0 dc

-- What is returned, and the memory.
unfoldable pub readstr : ℕ → ℕ → Ptr → ℕ → Ptr → Memory → Option (ℕ × Memory)
unfolding strlen memmove
readstr fuel off buf n str m = elim (strlen fuel m str) [
  | none ↦ none
  | some size ↦
      let n1 = if ltb size ((off + n) % word) then size - off else n in
      some (if leb size off then (0, m) else (n1, (memmove buf (str + off) n1 m).1))
]

unfoldable pub devinit : {W : Type 0} → System W → ℕ × System W
devinit s = (0, s)

unfoldable pub devopen : {W : Type 0} → Ptr → ℕ → System W → ℕ × System W
devopen name omode s = (0, s)

unfoldable pub devread : {W : Type 0} → ℕ → Ptr → ℕ → ℕ → System W → ℕ × System W
devread fd str n offset s = (0, s)

unfoldable pub devwrite : {W : Type 0} → ℕ → Ptr → ℕ → ℕ → System W → ℕ × System W
devwrite fd str n offset s = (0, s)

unfoldable pub devclose : {W : Type 0} → ℕ → System W → System W
devclose fd s = s

-- Where the loop over the `left` characters from the index `i` stops: at a digit or a slash.
unfoldable pub name_end : Memory → Ptr → ℕ → ℕ → ℕ
unfolding isdigit
name_end m path i zero = i
name_end m path i (suc left) =
    let rest = name_end m path (i + 1) left in
    let c = m (path + i) in if c == 0 || isdigit c || c == 47 then i else rest

-- The driver of the name at `dname`: the second part is `some` if there is one; the first is `none` if
-- fuel runs out.
unfoldable pub named : {W : Type 0} → ℕ → Memory → List (Dev W) → Ptr → Option (Option (Dev W))
unfolding strcmp
named fuel m [] dname = some none
named fuel m (d ∷ ds) dname =
    let rest = named fuel m ds dname in
    elim (strcmp fuel m d.name dname) [
      | none ↦ none
      | some order ↦ if order == 0 then some (some d) else rest
    ]

-- The name of the device, copied to `dname`.
unfoldable pub copy_name : Ptr → Ptr → ℕ → Memory → Memory
unfolding memset strncpy
copy_name dname path i m = strncpy (i - 5) dname (path + 5) (memset dname 0 (i + 1) m).1

-- What follows the comparison of `path` with "/dev/", for a path of `len` bytes.
unfoldable pub open_dev :
    {W : Type 0} → ℕ → List (Dev W) → Ptr → Ptr → ℕ → ℕ → System W → Option (ℕ × System W)
unfolding name_end copy_name named
open_dev fuel devtab dname path len mode s =
    let i = name_end s.memory path 5 (len - 5) in
    let s1 = record s { memory = copy_name dname path i s.memory } in
    if i == len
    then some (failure, record s { errno = enoent })
    else elim (named fuel s1.memory devtab dname) [
      | none ↦ none
      | some none ↦ some (failure, record s1 { errno = enoent })
      | some (some d) ↦ some (d.dev_open path mode s1)
    ]

-- The argument `flags` is not used.
unfoldable pub open_sys :
    {W : Type 0} → ℕ → List (Dev W) → Ptr → Ptr → Ptr → ℕ → ℕ → System W → Option (ℕ × System W)
unfolding strncmp strlen driver devno open_dev
open_sys fuel devtab dev dname path flags mode s =
    if not (strncmp 5 s.memory path dev == 0)
    then elim (driver devtab (devno devtab 47)) [
      | none ↦ none
      | some d ↦ some (d.dev_open path mode s)
    ]
    else elim (strlen fuel s.memory path) [
      | none ↦ none
      | some len ↦ open_dev fuel devtab dname path len mode s
    ]
