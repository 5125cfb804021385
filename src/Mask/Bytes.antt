-- ===== src/Mask/Bytes.antt =====
-- Bytes: equality of texts as keys, and the searches of the bytes package.
use nova_vei.Base.{
  ℕ, ◌+◌, ◌≡◌, ◌↔◌, refl, Bool, true, false, ◌&&◌, ◌||◌, List, [], ◌∷◌, Option, none, some,
  if◌then◌else◌, ◌==◌, nat_eq, nat_beq, Keyed, arith,
}

abbrev pub Bytes : Type 0
Bytes = List ℕ

abbrev pub bytes_beq : Bytes → Bytes → Bool
bytes_beq [] [] = true
bytes_beq [] (y ∷ ys) = false
bytes_beq (x ∷ xs) [] = false
bytes_beq (x ∷ xs) (y ∷ ys) = nat_beq x y && bytes_beq xs ys

bytes_beq_to : (xs ys : Bytes) → bytes_beq xs ys ≡ true → xs ≡ ys
bytes_beq_to [] [] h = refl
bytes_beq_to [] (y ∷ ys) h = ground arith
bytes_beq_to (x ∷ xs) [] h = ground arith
bytes_beq_to (x ∷ xs) (y ∷ ys) h = ground (arith, bytes_beq_to xs ys)

bytes_beq_refl : (xs : Bytes) → bytes_beq xs xs ≡ true
bytes_beq_refl [] = refl
bytes_beq_refl (x ∷ xs) = ground (arith, bytes_beq_refl xs)

pub bytes_beq_iff : (xs ys : Bytes) → (bytes_beq xs ys ≡ true) ↔ (xs ≡ ys)
bytes_beq_iff xs ys = (bytes_beq_to xs ys, λ e. rw e (bytes_beq_refl ys))

instance abbrev pub bytes_eq : Keyed Bytes
bytes_eq = record { agree = bytes_beq; agree_iff = bytes_beq_iff }

-- Whether the text begins with the byte twice.
unfoldable pub starts_twice : ℕ → Bytes → Bool
starts_twice c [] = false
starts_twice c (x ∷ []) = false
starts_twice c (x ∷ y ∷ xs) = (x == c) && (y == c)

-- `bytes.Contains(buf, []byte{c, c})`
unfoldable pub contains_twice : ℕ → Bytes → Bool
unfolding starts_twice
contains_twice c [] = false
contains_twice c (x ∷ xs) = starts_twice c (x ∷ xs) || contains_twice c xs

-- `bytes.LastIndex(buf, []byte{c, c})`; `none` is -1.
unfoldable pub last_twice : ℕ → Bytes → Option ℕ
unfolding starts_twice
last_twice c [] = none
last_twice c (x ∷ xs) = elim (last_twice c xs) [
  | some i ↦ some (i + 1)
  | none ↦ if starts_twice c (x ∷ xs) then some 0 else none
]

-- The last byte, and the text before it.
unfoldable pub ends_with : ℕ → Bytes → Bool
ends_with c [] = false
ends_with c (x ∷ []) = x == c
ends_with c (x ∷ y ∷ xs) = ends_with c (y ∷ xs)

unfoldable pub but_last : Bytes → Bytes
but_last [] = []
but_last (x ∷ []) = []
but_last (x ∷ y ∷ xs) = x ∷ but_last (y ∷ xs)
