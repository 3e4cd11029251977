-- ===== src/Registry/Integers.antt =====
-- Go's signed integers, where a request may carry a negative number.
use green_lab.Prelude.{ℕ, ◌-◌, ◌%◌, Bool, true, false, ◌&&◌, leb, ◌==◌}

pub data ℤ : Type 0 where
  pos negsuc : ℕ → ℤ

-- `low <= n && n <= high`
abbrev pub within : ℕ → ℕ → ℤ → Bool
within low high (pos n) = leb low n && leb n high
within low high (negsuc n) = false

abbrev pub is_zero : ℤ → Bool
is_zero n = within 0 0 n

abbrev pub same : ℤ → ℤ → Bool
same (pos m) (pos n) = m == n
same (negsuc m) (negsuc n) = m == n
same (pos m) (negsuc n) = false
same (negsuc m) (pos n) = false

-- `m <= n`
abbrev pub at_most : ℤ → ℤ → Bool
at_most (pos m) (pos n) = leb m n
at_most (negsuc m) (negsuc n) = leb n m
at_most (negsuc m) (pos n) = true
at_most (pos m) (negsuc n) = false

-- The conversion to uint8.
abbrev pub as_byte : ℤ → ℕ
as_byte (pos n) = n % 256
as_byte (negsuc n) = 255 - n % 256
