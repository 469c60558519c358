-- ===== src/Files/Laws.antt =====
-- Closing a file and the free descriptors.
use l4ertl.Kernel.{failure, success}
use l4ertl.Base.{
  true, ◌||◌, refl, false, int_ltb, leb, ==_refl, update, ◌==◌, zero, if◌then◌else◌, ap, ℕ_discrete,
  suc, some, arith, ◌≢◌, ◌≡◌, ◌+◌, List, ◌<◌, ◌≤◌, ℕ,
}
use l4ertl.Files.{
  ebadf, failure, no_file, success, driver, nodev, Dev, freefd, checkfd, File, on_file, ℕ, newfd,
  free_descriptor, close_sys, System,
}

free_descriptor-least :
    (files : ℕ → File) (fd left i : ℕ)
    → fd ≤ i
    → i < fd + left
    → (files i).type ≡ nodev
    → free_descriptor files fd left ≤ i
unfolding free_descriptor
free_descriptor-least files fd zero i low high free = absurd (omega (arith, low, high))
free_descriptor-least files fd (suc left) i low high free = elim (ℕ_discrete fd i) [
  | yes here ↦ ground (arith, here, free, ap (λ j. (files j).type) here)
  | no later ↦ ground (
    arith,
    low,
    free_descriptor-least files (fd + 1) left i (omega (arith, low, later)) (omega (arith, high))
        free,
  )
]

checkfd-used :
    {W : Type 0} (fd : ℕ) (s : System W)
    → fd < 128
    → (s.files fd).type ≢ nodev
    → checkfd fd s ≡ (success, s)
unfolding checkfd
checkfd-used fd s inside used =
    let low : leb 128 fd ≡ false = ground (arith, inside) in
    let in_use : ((s.files fd).type == nodev) ≡ false = ground (arith, used) in
    rw (low, in_use) refl

checkfd-free :
    {W : Type 0} (fd : ℕ) (s : System W)
    → (s.files fd).type ≡ nodev
    → checkfd fd s ≡ (failure, record s { errno = ebadf })
unfolding checkfd
checkfd-free fd s free =
    let test : (leb 128 fd || (s.files fd).type == nodev) ≡ true = ground (arith, free) in
    rw test refl

freefd-inside :
    {W : Type 0} (fd : ℕ) (s : System W)
    → fd < 128
    → freefd fd s ≡ (success, record s { files = update s.files fd no_file })
unfolding freefd
freefd-inside fd s inside =
    let test : (int_ltb fd 0 || int_ltb 128 fd) ≡ false = ground (arith, inside) in rw test refl

-- Closing a file that is in use, with a driver that keeps the table of files, succeeds; then its
-- descriptor is free and the other files are as before, a further close of it fails with EBADF and
-- changes nothing but errno, and the next new descriptor is at most this one.
pub close_sys-frees :
    {W : Type 0} (devtab : List (Dev W)) (d : Dev W) (fd : ℕ) (s : System W)
    → fd < 128
    → ((s.files fd).type ≢ nodev)
    → driver devtab (s.files fd).type ≡ some d
    → ((s1 : System W) → (d.close fd s1).files ≡ s1.files)
    → (s' : System W) × (close_sys devtab fd s ≡ some (success, s'))
      × ((i : ℕ) → s'.files i ≡ (if i == fd then no_file else s.files i))
      × (close_sys devtab fd s' ≡ some (failure, record s' { errno = ebadf }))
      × (newfd s' ≤ fd)
unfolding close_sys newfd on_file
close_sys-frees devtab d fd s inside used found kept =
    let s' = record (d.close fd s) { files = update (d.close fd s).files fd no_file } in
    let now_free : (s'.files fd).type ≡ nodev = rw (==_refl fd) refl in
    (
      s',
      rw
          (
            checkfd-used fd s inside used,
            found,
            checkfd-used fd s inside used,
            freefd-inside fd (d.close fd s) inside,
          )
          refl,
      (λ i. ground (arith, ap (λ f. f i) (kept s))),
      rw (checkfd-free fd s' now_free, close_sys) refl,
      free_descriptor-least s'.files 0 128 fd (omega arith) (omega (arith, inside)) now_free,
    )
