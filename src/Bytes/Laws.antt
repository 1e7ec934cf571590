-- ===== src/Bytes/Laws.antt =====
-- Big-endian numbers (encoding/binary) and equality of byte slices.
use go_connect.Base.{
  ℕ, ◌+◌, ◌*◌, ◌/◌, ◌%◌, ◌^◌, ◌<◌, ◌≡◌, ◌↔◌, refl, Bool, true, false, ◌&&◌, List, [], ◌∷◌, ◌++◌,
  ◌==◌, arith, length, All,
}

abbrev pub Bytes : Type 0
Bytes = List ℕ

abbrev pub IsByte : ℕ → Type 0
IsByte b = b < 256

-- binary.BigEndian.PutUint32, into a slice of four bytes.
unfoldable pub put_u32 : ℕ → Bytes
put_u32 n = (n / 2 ^ 24 % 256) ∷ (n / 2 ^ 16 % 256) ∷ (n / 2 ^ 8 % 256) ∷ (n % 256) ∷ []

-- binary.BigEndian.Uint32. It is called on four bytes only; on fewer it would panic.
unfoldable pub get_u32 : Bytes → ℕ
get_u32 (a ∷ b ∷ c ∷ d ∷ _) = a * 2 ^ 24 + b * 2 ^ 16 + c * 2 ^ 8 + d
get_u32 _ = 0

-- binary.BigEndian.PutUint64, into a slice of eight bytes.
unfoldable pub put_u64 : ℕ → Bytes
unfolding put_u32
put_u64 n = put_u32 (n / 2 ^ 32) ++ put_u32 n

pub get-put_u32 : (n : ℕ) (rest : Bytes) → n < 2 ^ 32 → get_u32 (put_u32 n ++ rest) ≡ n
unfolding put_u32 get_u32
get-put_u32 n rest h = omega arith

pub get-put_u32_self : (n : ℕ) → n < 2 ^ 32 → get_u32 (put_u32 n) ≡ n
unfolding put_u32 get_u32
get-put_u32_self n h = omega arith

pub length-put_u32 : (n : ℕ) → length (put_u32 n) ≡ 4
unfolding put_u32
length-put_u32 n = refl

pub put_u32-mod : (n : ℕ) → put_u32 (n % 2 ^ 32) ≡ put_u32 n
unfolding put_u32
put_u32-mod n = ground arith

pub length-put_u64 : (n : ℕ) → length (put_u64 n) ≡ 8
unfolding put_u64
length-put_u64 n = refl

-- Different numbers below 2 ^ 64 have different encodings.
pub put_u64-injective : (m n : ℕ) → m < 2 ^ 64 → n < 2 ^ 64 → put_u64 m ≡ put_u64 n → m ≡ n
unfolding put_u64
put_u64-injective m n hm hn e = ground arith

-- A header of four bytes is the encoding of the number that it is read as.
pub put-get_u32 : (xs : Bytes) → length xs ≡ 4 → All IsByte xs → put_u32 (get_u32 xs) ≡ xs
unfolding put_u32 get_u32
put-get_u32 [] h k = absurd (omega arith)
put-get_u32 (a ∷ []) h k = absurd (omega arith)
put-get_u32 (a ∷ b ∷ []) h k = absurd (omega arith)
put-get_u32 (a ∷ b ∷ c ∷ []) h k = absurd (omega arith)
put-get_u32 (a ∷ b ∷ c ∷ d ∷ []) h k = ground arith
put-get_u32 (a ∷ b ∷ c ∷ d ∷ e ∷ xs) h k = absurd (omega arith)

-- Equality of byte slices, as a loop over two slices.
unfoldable pub bytes_eq : Bytes → Bytes → Bool
bytes_eq [] [] = true
bytes_eq (x ∷ xs) (y ∷ ys) = x == y && bytes_eq xs ys
bytes_eq _ _ = false

pub bytes_eq_iff : (xs ys : Bytes) → (bytes_eq xs ys ≡ true) ↔ (xs ≡ ys)
unfolding bytes_eq
bytes_eq_iff [] [] = ground arith
bytes_eq_iff [] (y ∷ ys) = ground arith
bytes_eq_iff (x ∷ xs) [] = ground arith
bytes_eq_iff (x ∷ xs) (y ∷ ys) = ground (arith, bytes_eq_iff xs ys)
