-- ===== src/Vm/Machine/Bytes.antt =====
-- The bytes of a word in memory: what a write leaves, a read finds.
use cs350project.Prelude.{
  ℕ, zero, suc, ◌+◌, ◌*◌, ◌/◌, ◌%◌, ◌^◌, ◌<◌, ◌≤◌, ◌≡◌, refl, arith, ◌==◌, if◌then◌else◌, ℤ, pos,
  negsuc, some,
}
use cs350project.Vm.Machine.{
  unsigned, signed, signed_char, little_endian, load, write_bytes, store, with_entry,
}

-- What an access of the size keeps of a value.
abbrev pub narrowed : ℕ → ℤ → ℤ
narrowed size v =
    if size == 1
    then signed_char (unsigned v % 256)
    else if size == 2
    then pos (unsigned v % 2 ^ 16)
    else signed (unsigned v)

pub unsigned-lt : (v : ℤ) → unsigned v < 2 ^ 32
unfolding unsigned
unsigned-lt (pos n) = omega arith
unsigned-lt (negsuc n) = omega arith

pub write_bytes-below :
    (n a w j : ℕ) (memory : ℕ → ℕ) → j < a → write_bytes n a w memory j ≡ memory j
unfolding write_bytes
write_bytes-below zero a w j memory h = refl
write_bytes-below (suc n) a w j memory h =
    ground
      (arith, write_bytes-below n (a + 1) (w / 256) j (with_entry memory a (w % 256)) (omega arith))

pub write_bytes-above :
    (n a w j : ℕ) (memory : ℕ → ℕ) → a + n ≤ j → write_bytes n a w memory j ≡ memory j
unfolding write_bytes
write_bytes-above zero a w j memory h = refl
write_bytes-above (suc n) a w j memory h =
    ground
      (arith, write_bytes-above n (a + 1) (w / 256) j (with_entry memory a (w % 256)) (omega arith))

-- The low `n` bytes of a word, digit by digit.
abbrev low_bytes : ℕ → ℕ → ℕ
low_bytes zero w = 0
low_bytes (suc n) w = w % 256 + 256 * low_bytes n (w / 256)

little_endian-write_bytes :
    (n a w : ℕ) (memory : ℕ → ℕ) → little_endian n a (write_bytes n a w memory) ≡ low_bytes n w
unfolding little_endian write_bytes
little_endian-write_bytes zero a w memory = refl
little_endian-write_bytes (suc n) a w memory =
    let memory' = with_entry memory a (w % 256) in
    ground (
      arith,
      write_bytes-below n (a + 1) (w / 256) a memory' (omega arith),
      little_endian-write_bytes n (a + 1) (w / 256) memory',
    )

low_bytes_all : (w : ℕ) → w < 2 ^ 32 → low_bytes 4 w ≡ w
low_bytes_all w h = omega arith

-- A read of the bytes that were just written.
pub load-store :
    (size a : ℕ) (v : ℤ) (memory memory' : ℕ → ℕ)
    → store size a v memory ≡ some memory'
    → load size a memory' ≡ some (narrowed size v)
unfolding store load
load-store size a v memory memory' h =
    let one = little_endian-write_bytes 1 a (unsigned v) memory in
    let two = little_endian-write_bytes 2 a (unsigned v) memory in
    let four = little_endian-write_bytes 4 a (unsigned v) memory in
    let all = low_bytes_all (unsigned v) (unsigned-lt v) in ground (arith, one, two, four, all)
