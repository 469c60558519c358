-- ===== src/Console.antt =====
-- The drivers of the console and of the trace, in server/core/port/devcons.c and devtrace.c. The
-- literals stand at addresses that are arguments: the five names of contab, the path that consinit
-- opens, and the words of the trace. `write_cons` belongs to the processor and is an argument.
-- Reading from the console, which prints the list of the drivers, and the events of the trace are not
-- modelled.
use l4ertl.Kernel.{eperm, failure}
use l4ertl.Devices.{devno}
use l4ertl.Memory.{Memory}
use l4ertl.Base.{
  ◌&&◌, update, zero, ◌||◌, none, not, leb, ◌+◌, some, if◌then◌else◌, ◌==◌, Option, List, Ptr, ℕ,
}
use l4ertl.Strings.{strncpy, strlen, strcmp, strncmp}
use Prim.Native.Nat.{suc, ℕ}
use l4ertl.Files.{enoent, ebadf, max_files, mkqid, Driven, Dev, freefd, newfd, System}

abbrev pub enomem : ℕ
enomem = 12

-- The number of the first names that is at `pn`, from the `left` entries of contab from `i` on.
unfoldable pub find_name : ℕ → Memory → (ℕ → Ptr) → Ptr → ℕ → ℕ → Option ℕ
unfolding strcmp
find_name fuel m names pn i zero = some i
find_name fuel m names pn i (suc left) =
    let rest = find_name fuel m names pn (i + 1) left in
    elim (strcmp fuel m pn (names i)) [
      | none ↦ none
      | some order ↦ if order == 0 then some i else rest
    ]

-- A free descriptor for the file `path` of the driver `dc`.
unfoldable pub open_new : {W : Type 0} → List (Dev W) → ℕ → ℕ → System W → ℕ × System W
unfolding newfd freefd devno
open_new devtab dc path s =
    let fd = newfd s in
    let opened = record (s.files fd) { type = devno devtab dc; qid = mkqid path 0 0; pos = 0 } in
    if leb max_files fd
    then (failure, record (freefd fd s).1 { errno = enomem })
    else (fd, record s { files = update s.files fd opened })

-- strlen ("/dev/console/")
abbrev pub console_prefix : ℕ
console_prefix = 13

unfoldable pub consopen :
    {W : Type 0} → ℕ → List (Dev W) → (ℕ → Ptr) → Ptr → ℕ → System W → Option (ℕ × System W)
unfolding find_name open_new
consopen fuel devtab names name omode s =
    elim (find_name fuel s.memory names (name + console_prefix) 0 5) [
      | none ↦ none
      | some i ↦
          some (if i == 5 then (failure, record s { errno = ebadf }) else open_new devtab 99 i s)
    ]

-- The loop of `consinit` over the `left` descriptors from `i`; `path` is "/dev/console/cons".
unfoldable pub open_standard :
    {W : Type 0} → ℕ → List (Dev W) → (ℕ → Ptr) → Ptr → ℕ → ℕ → System W → Option (ℕ × System W)
unfolding consopen
open_standard fuel devtab names path i zero s = some (0, s)
open_standard fuel devtab names path i (suc left) s = elim (consopen fuel devtab names path 0 s) [
  | none ↦ none
  | some opened ↦
      if opened.0 == i
      then open_standard fuel devtab names path (i + 1) left opened.1
      else some (failure, opened.1)
]

unfoldable pub consinit :
    {W : Type 0} → ℕ → List (Dev W) → (ℕ → Ptr) → Ptr → System W → Option (ℕ × System W)
unfolding open_standard
consinit fuel devtab names path s = open_standard fuel devtab names path 0 3 s

unfoldable pub conswrite :
    {W : Type 0} → (ℕ → Ptr → ℕ → Driven W) → ℕ → Ptr → ℕ → ℕ → System W → ℕ × System W
conswrite write_cons fd str n offset s =
    let path = (s.files fd).qid.path in
    if path == 0
    then write_cons fd str n s
    else if path == 1
    then (failure, record s { errno = eperm })
    else if path == 3
    then (n, s)
    else (failure, record s { errno = enoent })

-- `ctl` is "/dev/trace/ctl".
unfoldable pub traceopen : {W : Type 0} → List (Dev W) → Ptr → Ptr → ℕ → System W → ℕ × System W
unfolding strncmp open_new
traceopen devtab ctl name omode s =
    if not (strncmp 10 s.memory name ctl == 0)
    then (failure, record s { errno = ebadf })
    else open_new devtab 69 0 s

-- What is returned, whether the trace is on, and the rest; `enable` and `disable` are those words.
unfoldable pub tracewrite :
    {W : Type 0} → ℕ → Ptr → Ptr → ℕ → Ptr → ℕ → System W → Option (ℕ × ℕ × System W)
unfolding strncmp strlen
tracewrite fuel enable disable fd str traceenabled s =
    let path = (s.files fd).qid.path in
    let on = strncmp 6 s.memory str enable == 0 in
    let off = strncmp 7 s.memory str disable == 0 in
    if not (path == 0) || (not on && not off)
    then some (failure, traceenabled, record s { errno = enoent })
    else elim (strlen fuel s.memory str) [
      | none ↦ none
      | some length ↦ some (length, (if on then 1 else 0), s)
    ]

-- The word for the state of the trace is copied to `str`, and its length is returned.
unfoldable pub traceread :
    {W : Type 0} → ℕ → Ptr → Ptr → ℕ → Ptr → ℕ → System W → Option (ℕ × System W)
unfolding strncpy strlen
traceread fuel enable disable fd str traceenabled s =
    let m1 =
      if traceenabled == 0 then strncpy 8 str disable s.memory else strncpy 7 str enable s.memory in
    if not ((s.files fd).qid.path == 0)
    then some (failure, record s { errno = enoent })
    else elim (strlen fuel m1 str) [
      | none ↦ none
      | some length ↦ some (length, record s { memory = m1 })
    ]
