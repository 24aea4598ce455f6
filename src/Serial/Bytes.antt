-- ===== src/Serial/Bytes.antt =====
-- Bytes and signed integers (core/MutoLibCore.py, core/servo.py): `& 0xFF` and `struct`.
use muto_rs_deployment_test.Prelude.{
  ℕ, ◌+◌, ◌-◌, ◌*◌, ◌%◌, ◌<◌, Bool, true, List, [], ◌∷◌, ltb, leb, ◌≡◌, arith, if◌then◌else◌,
}
pub use muto_rs_deployment_test.Prelude.Integers.{ℤ}

-- `value & 0xFF`
abbrev pub low_byte : ℤ → ℕ
low_byte (ℤ.pos n) = n % 256
low_byte (ℤ.negsuc n) = 255 - n % 256

-- `struct.unpack('b', ...)`
abbrev pub signed_byte : ℕ → ℤ
signed_byte b = if ltb b 128 then ℤ.pos b else ℤ.negsuc (255 - b)

-- `struct.unpack('>h', ...)`
abbrev pub signed_word : ℕ → ℕ → ℤ
signed_word hi lo = let n = hi * 256 + lo in if ltb n 32768 then ℤ.pos n else ℤ.negsuc (65535 - n)

-- `lo <= x <= hi` for bounds with `lo = -below`
abbrev pub within : ℕ → ℕ → ℤ → Bool
within below hi (ℤ.pos n) = leb n hi
within below hi (ℤ.negsuc n) = ltb n below

-- `max(0, min(hi, x))`
abbrev pub clamp : ℕ → ℤ → ℕ
clamp hi (ℤ.pos n) = if leb n hi then n else hi
clamp hi (ℤ.negsuc n) = 0

abbrev pub sum : List ℕ → ℕ
sum [] = 0
sum (x ∷ xs) = x + sum xs

abbrev pub IsByte : ℕ → Type 0
IsByte n = n < 256

pub low_byte-IsByte : (z : ℤ) → IsByte (low_byte z)
low_byte-IsByte (ℤ.pos n) = omega arith
low_byte-IsByte (ℤ.negsuc n) = omega arith

-- The byte of an integer between -128 and 127, read back as a signed byte, is the integer.
pub signed_byte-low_byte : (z : ℤ) → within 128 127 z ≡ true → signed_byte (low_byte z) ≡ z
signed_byte-low_byte (ℤ.pos n) h = ground arith
signed_byte-low_byte (ℤ.negsuc n) h = ground arith
