-- ===== src/Files.antt =====
-- Files and devices: server/core/port/fs.c and dev.c. A driver, a `struct Dev`, is a record of its
-- functions, and what they keep is `world`; `devtab` is the list of the drivers before its NULL.
-- Where a call is undefined, by an index behind the table, there is no outcome.
pub mod Laws
use l4ertl.Kernel.{failure, einval, success}
use l4ertl.Base.{
  update, zero, [], ◌%◌, ◌==◌, ◌||◌, ◌∷◌, ◌-◌, ◌+◌, none, leb, some, int_ltb, Option, word,
  if◌then◌else◌, Ptr, List, ℕ,
}
use Prim.Native.Nat.{suc, ℕ}
use l4ertl.Memory.{Memory}

pub record Qid : Type 0 where
  pub path : ℕ
  pub vers : ℕ
  pub qtype : ℕ

-- struct File
pub record File : Type 0 where
  pub type : ℕ
  pub qid : Qid
  pub flags : ℕ
  pub pos : ℕ

abbrev pub nodev : ℕ
nodev = word - 1

abbrev pub max_files : ℕ
max_files = 128

abbrev pub enoent : ℕ
enoent = 2

abbrev pub ebadf : ℕ
ebadf = 9

-- The table of files, the caller's errno, the memory, and what the drivers keep.
pub record System (W : Type 0) : Type 0 where
  pub files : ℕ → File
  pub errno : ℕ
  pub memory : Memory
  pub world : W

-- What a driver's function returns and leaves.
abbrev pub Driven : Type 0 → Type 0
Driven W = System W → ℕ × System W

-- struct Dev; `mmap` may be NULL, and it returns what it stores through its last argument, too.
pub record Dev (W : Type 0) : Type 0 where
  pub dc : ℕ
  pub name : Ptr
  pub init : Driven W
  pub dev_open : Ptr → ℕ → Driven W
  pub read : ℕ → Ptr → ℕ → ℕ → Driven W
  pub write : ℕ → Ptr → ℕ → ℕ → Driven W
  pub close : ℕ → System W → System W
  pub ioctl : ℕ → ℕ → ℕ → Driven W
  pub mmap : Option (ℕ → Ptr → ℕ → ℕ → ℕ → ℕ → System W → ℕ × Ptr × System W)

abbrev pub mkqid : ℕ → ℕ → ℕ → Qid
mkqid path vers type = record { path = path; vers = vers; qtype = type }

-- A file that is not in use.
abbrev pub no_file : File
no_file = record { type = nodev; qid = mkqid 0 0 0; flags = 0; pos = 0 }

-- The loop over the `left` descriptors from `fd`; where it stops.
unfoldable pub free_descriptor : (ℕ → File) → ℕ → ℕ → ℕ
free_descriptor files fd zero = fd
free_descriptor files fd (suc left) =
    let rest = free_descriptor files (fd + 1) left in if (files fd).type == nodev then fd else rest

unfoldable pub newfd : {W : Type 0} → System W → ℕ
unfolding free_descriptor
newfd s = free_descriptor s.files 0 max_files

unfoldable pub freefd : {W : Type 0} → ℕ → System W → ℕ × System W
freefd fd s =
    if int_ltb fd 0 || int_ltb max_files fd
    then (failure, s)
    else (success, record s { files = update s.files fd no_file })

unfoldable pub checkfd : {W : Type 0} → ℕ → System W → ℕ × System W
checkfd fd s =
    if leb max_files fd || (s.files fd).type == nodev
    then (failure, record s { errno = ebadf })
    else (success, s)

-- `devtab [i]`
unfoldable pub driver : {W : Type 0} → List (Dev W) → ℕ → Option (Dev W)
driver [] i = none
driver (d ∷ ds) i = let rest = driver ds (i - 1) in if i == 0 then some d else rest

-- What follows `checkfd` in a call on a file: `use` is given the driver.
unfoldable pub on_file :
    {W A : Type 0}
    → List (Dev W)
    → ℕ
    → (ℕ → A)
    → (Dev W → File → System W → Option (A × System W))
    → System W
    → Option (A × System W)
unfolding checkfd driver
on_file devtab fd failed call s =
    let checked = checkfd fd s in
    if int_ltb checked.0 0
    then some (failed checked.0, checked.1)
    else elim (driver devtab (s.files fd).type) [
      | none ↦ none
      | some d ↦ call d (s.files fd) checked.1
    ]

-- `if (ret < 0) ret = -ret`
abbrev pub positive : ℕ → ℕ
positive ret = if int_ltb ret 0 then (word - ret) % word else ret

unfoldable pub close_sys : {W : Type 0} → List (Dev W) → ℕ → System W → Option (ℕ × System W)
unfolding on_file freefd
close_sys devtab fd s =
    on_file devtab fd (λ ret. ret) (λ d f s1. some (success, (freefd fd (d.close fd s1)).1)) s

unfoldable pub write_sys :
    {W : Type 0} → List (Dev W) → ℕ → Ptr → ℕ → System W → Option (ℕ × System W)
unfolding on_file
write_sys devtab fd buf count s =
    on_file devtab fd (λ ret. ret)
      (λ d f s1. let result = d.write fd buf count f.pos s1 in some (positive result.0, result.1)) s

unfoldable pub read_sys :
    {W : Type 0} → List (Dev W) → ℕ → Ptr → ℕ → System W → Option (ℕ × System W)
unfolding on_file
read_sys devtab fd buf count s =
    on_file devtab fd (λ ret. ret)
      (λ d f s1. let result = d.read fd buf count f.pos s1 in some (positive result.0, result.1)) s

-- A result that is not an address is EBADF, EINVAL or what the driver returns.
unfoldable pub mmap_sys :
    {W : Type 0} → List (Dev W) → Ptr → ℕ → ℕ → ℕ → ℕ → ℕ → System W → Option (Ptr × System W)
unfolding on_file
mmap_sys devtab start length prot flags fd offset s =
    on_file devtab fd (λ ret. ebadf)
      (λ d f s1. elim d.mmap [
        | none ↦ some (einval, s1)
        | some map ↦
            let result = map fd start length prot flags offset s1 in
            some (if result.0 == 0 then result.1 else result.0, result.2)
      ])
      s

unfoldable pub ioctl_sys :
    {W : Type 0} → List (Dev W) → ℕ → ℕ → ℕ → System W → Option (ℕ × System W)
unfolding on_file
ioctl_sys devtab fd cmd arg s =
    on_file devtab fd (λ ret. ret)
      (λ d f s1.
        let result = d.ioctl fd cmd arg s1 in
        some (if int_ltb result.0 0 then (word - result.0) % word else success, result.1))
      s

unfoldable pub munmap_sys : {W : Type 0} → Ptr → ℕ → System W → ℕ × System W
munmap_sys start length s = (success, s)

unfoldable pub lseek_sys : {W : Type 0} → ℕ → ℕ → ℕ → System W → ℕ × System W
lseek_sys fd offset whence s = (success, s)
