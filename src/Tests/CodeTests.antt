-- ===== src/Tests/CodeTests.antt =====
-- Memory, strings, numbers, files and regions at concrete values.
use l4ertl.Format.{ltostr}
use l4ertl.Format.RoundTrip.{strtoul-ltostr}
use l4ertl.Region.Free.{IsFreeList}
use l4ertl.Region.Laws.{alloc_region-IsFreeList}
use l4ertl.Files.Laws.{close_sys-frees}
use l4ertl.Convert.Decimal.{strtoul-decimal}
use l4ertl.Chain.{has}
use l4ertl.Kernel.{failure, success}
use l4ertl.Memory.Copy.{memmove-copied, copied}
use l4ertl.Strings.{strcmp}
use l4ertl.Convert.{strtoul}
use l4ertl.Strings.Laws.{strcmp-equal, IsString}
use l4ertl.Base.{
  inl, false, List, refl, ◌+◌, ◌≤◌, ◌⊎◌, ◌<◌, true, arith, ◌↔◌, Ptr, [], null, some, ◌∷◌, ◌||◌, ℕ,
  ◌≡◌, ◌==◌, none, if◌then◌else◌,
}
use l4ertl.Files.{newfd, ebadf, nodev, no_file, close_sys, driver, System, Dev}
use l4ertl.Region.{Regions, alloc_region}
use l4ertl.Memory.{memmove, Memory}

-- "42" at 100 and at 200, zeros elsewhere.
abbrev some_memory : Memory
some_memory p = if p == 100 || p == 200 then 52 else if p == 101 || p == 201 then 50 else 0

memmove-copied_example : memmove 101 100 3 some_memory ≡ (101, copied 101 100 3 some_memory)
memmove-copied_example = memmove-copied 101 100 3 some_memory

abbrev some_text : List ℕ
some_text = 52 ∷ 50 ∷ []

some_text-IsString : IsString some_memory 100 some_text
unfolding IsString
some_text-IsString = (refl, omega arith, omega arith, (refl, omega arith, omega arith, refl))

same_text-IsString : IsString some_memory 200 some_text
unfolding IsString
same_text-IsString = (refl, omega arith, omega arith, (refl, omega arith, omega arith, refl))

strcmp-equal_example :
    (r : ℕ) × (strcmp 3 some_memory 100 200 ≡ some r) × ((r ≡ 0) ↔ (some_text ≡ some_text))
strcmp-equal_example =
    strcmp-equal 3 some_memory 100 200 some_text some_text some_text-IsString same_text-IsString
      (omega arith)

-- "97 " at 100.
abbrev some_number : Memory
some_number p = if p == 100 then 57 else if p == 101 then 55 else if p == 102 then 32 else 0

strtoul-decimal_example :
    strtoul 3 some_number 100 (some 0) 10 ≡ some (record { value = 97; endptr = some 102 })
strtoul-decimal_example =
    strtoul-decimal 3 some_number 100 (some 0) 9 (7 ∷ [])
      (refl, omega arith, (refl, omega arith, (omega arith, inl (omega arith)))) (omega arith)

-- A driver that does nothing.
abbrev idle_driver : Dev (Unit {0})
idle_driver = record {
  dc = 99;
  name = 100;
  init = λ s. (0, s);
  dev_open = λ path mode s. (0, s);
  read = λ fd buf count pos s. (0, s);
  write = λ fd buf count pos s. (0, s);
  close = λ fd s. s;
  ioctl = λ fd cmd arg s. (0, s);
  mmap = none;
}

abbrev some_system : System (Unit {0})
some_system = record {
  files = λ fd. record no_file { type = if fd == 0 then 0 else nodev };
  errno = 0;
  memory = some_memory;
  world = tt;
}

close_sys-frees_example :
    (s' : System (Unit {0})) × (close_sys (idle_driver ∷ []) 0 some_system ≡ some (success, s'))
    × ((i : ℕ) → s'.files i ≡ (if i == 0 then no_file else some_system.files i))
    × (close_sys (idle_driver ∷ []) 0 s' ≡ some (failure, record s' { errno = ebadf }))
    × (newfd s' ≤ 0)
unfolding driver
close_sys-frees_example =
    close_sys-frees (idle_driver ∷ []) idle_driver 0 some_system (omega arith)
      (λ e. absurd (omega (arith, e))) refl (λ s1. refl)

-- A free block of 100 bytes at 1000.
abbrev some_regions : Regions
some_regions = record {
  size = λ x. if x == 1000 then 100 else 0;
  prev_phys = λ x. null;
  next_phys = λ x. null;
  next = λ x. null;
  prev = λ x. null;
  head = 1000;
}

some_regions-IsFreeList : IsFreeList some_regions (1000 ∷ [])
some_regions-IsFreeList = record {
  chain = (refl, (λ e. absurd (omega (arith, e))), refl, refl, refl);
  sizes = λ x h. ground arith;
  apart = λ x y h h' lt. ground (arith, h, h', lt);
}

alloc_region-IsFreeList_example :
    ((alloc_region 2 40 some_regions ≡ some (null, some_regions))
      × ((x : Ptr) → has x (1000 ∷ []) ≡ true → some_regions.size x < 40))
    ⊎ ((x : Ptr) × (r' : Regions) × (ys : List Ptr) × (alloc_region 2 40 some_regions
          ≡ some (x + 12, r'))
        × (has x (1000 ∷ []) ≡ true)
        × (40 ≤ some_regions.size x)
        × IsFreeList r' ys
        × ((y : Ptr) → has y ys ≡ true → (y + 12 + r'.size y ≤ x) ⊎ (x + 12 + 40 ≤ y)))
alloc_region-IsFreeList_example =
    alloc_region-IsFreeList 2 40 some_regions (1000 ∷ []) (omega arith) some_regions-IsFreeList
      (omega arith)

strtoul-ltostr_example :
    strtoul 12 (ltostr 100 12 4711 10 false (λ p. 0)).1 100 (some 7) 10
    ≡ some (record { value = 4711; endptr = some (100 + (ltostr 100 12 4711 10 false (λ p. 0)).0) })
strtoul-ltostr_example =
    strtoul-ltostr 12 100 12 4711 false (λ p. 0) (some 7) (omega arith) (omega arith) (omega arith)
      (omega arith)
