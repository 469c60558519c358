-- ===== src/Ready/Prio.antt =====
-- Priorities as a row and a column.
use l4ertl.Base.{bit_and, ℕ, ◌+◌, ◌*◌, ◌/◌, ◌%◌, ◌<◌, ◌≡◌, arith}
use l4ertl.Bits.{bit_and-mask, bit_or-disjoint}
use l4ertl.Ready.{prio2ij, ij2prio}

pub prio2ij-eq : (prio : ℕ) → ((prio2ij prio).0 ≡ prio % 1024 / 32) × ((prio2ij prio).1 ≡ prio % 32)
unfolding prio2ij
prio2ij-eq prio = (omega (arith, bit_and-mask 10 prio), bit_and-mask 5 prio)

pub prio2ij-lt : (prio : ℕ) → ((prio2ij prio).0 < 32) × ((prio2ij prio).1 < 32)
prio2ij-lt prio = omega (arith, prio2ij-eq prio)

pub ij2prio-eq : (i j : ℕ) → i < 32 → j < 32 → ij2prio i j ≡ i * 32 + j
unfolding ij2prio
ij2prio-eq i j hi hj =
    let row : bit_and i 0x1f ≡ i = omega (arith, bit_and-mask 5 i) in
    let column : bit_and j 0x1f ≡ j = omega (arith, bit_and-mask 5 j) in
    rw (row, column) (bit_or-disjoint 5 i j hj)

-- The 1024 priorities and the cells of the matrix correspond one to one.
pub prio2ij-ij2prio :
    (prio i j : ℕ)
    → prio < 1024
    → i < 32
    → j < 32
    → (ij2prio (prio2ij prio).0 (prio2ij prio).1 ≡ prio) × (prio2ij (ij2prio i j) ≡ (i, j))
prio2ij-ij2prio prio i j hp hi hj = (
  omega (
    arith,
    prio2ij-eq prio,
    ij2prio-eq (prio2ij prio).0 (prio2ij prio).1 (prio2ij-lt prio).0 (prio2ij-lt prio).1,
  ),
  ground (arith, ij2prio-eq i j hi hj, prio2ij-eq (ij2prio i j)),
)
