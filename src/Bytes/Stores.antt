-- ===== src/Bytes/Stores.antt =====
-- bytes.hpp: what the stores leave in the buffer, and that the loads read it back.
use full_duplex_radio.Prelude.{
  zero, get_or, ℕ, suc, ◌+◌, ◌/◌, ◌%◌, ◌^◌, ◌≤◌, ◌<◌, ◌≡◌, refl, sym, ◌∙◌, List, [], ◌∷◌, arith,
  length, length-drop, set, take, drop, get_or, get_or-drop, get_or-take, drop-set, take-set,
  drop-set_zero, take-set_zero, drop-drop, length-set, bit_and, bit_and_ones,
}
use native.Mathlib.Nat.{add-zero, add_assoc}
use full_duplex_radio.Bytes.{
  IsByte, byte_at, load_be16, load_be32, load_be64, load_le32, store_be16, store_be32, store_be64,
  store_le32,
}
use full_duplex_radio.Bytes.Laws.{byte_at_lem, join16, join32, join64, join_le32}

IsByte-mod : (x : ℕ) → IsByte (x % 256)
IsByte-mod x = omega arith

start4 :
    (l : List ℕ) (a b c e : ℕ)
    → 4 ≤ length l
    → set (set (set (set l 0 a) 1 b) 2 c) 3 e ≡ a ∷ b ∷ c ∷ e ∷ drop 4 l
start4 [] a b c e h = absurd (omega arith)
start4 (x ∷ []) a b c e h = absurd (omega arith)
start4 (x ∷ y ∷ []) a b c e h = absurd (omega arith)
start4 (x ∷ y ∷ z ∷ []) a b c e h = absurd (omega arith)
start4 (x ∷ y ∷ z ∷ w ∷ l) a b c e h = refl

start2 : (l : List ℕ) (a b : ℕ) → 2 ≤ length l → set (set l 0 a) 1 b ≡ a ∷ b ∷ drop 2 l
start2 [] a b h = absurd (omega arith)
start2 (x ∷ []) a b h = absurd (omega arith)
start2 (x ∷ y ∷ l) a b h = refl

ruleset set_laws = (take-set, drop-set, take-set_zero, drop-set_zero)

drop-set4 :
    (d : List ℕ) (p a b c e : ℕ)
    → p + 4 ≤ length d
    → drop p (set (set (set (set d p a) (p + 1) b) (p + 2) c) (p + 3) e)
      ≡ a ∷ b ∷ c ∷ e ∷ drop (p + 4) d
drop-set4 d p a b c e h =
    simp set_laws (rw (start4 (drop p d) a b c e (omega (arith, length-drop p d)), drop-drop p 4 d))

drop-set2 :
    (d : List ℕ) (p a b : ℕ)
    → p + 2 ≤ length d
    → drop p (set (set d p a) (p + 1) b) ≡ a ∷ b ∷ drop (p + 2) d
drop-set2 d p a b h =
    simp set_laws (rw (start2 (drop p d) a b (omega (arith, length-drop p d)), drop-drop p 2 d))

-- The most significant byte of a 32-bit value.
top32 : (v : ℕ) → v < 2 ^ 32 → v / 2 ^ 24 % 256 ≡ v / 2 ^ 24
top32 v h = omega arith

drop-store_be16 :
    (d : List ℕ) (p v : ℕ)
    → p + 2 ≤ length d
    → drop p (store_be16 d p v) ≡ v / 2 ^ 8 % 256 ∷ v / 1 % 256 ∷ drop (p + 2) d
unfolding store_be16
drop-store_be16 d p v h =
    drop-set2 d p (byte_at v 8) (byte_at v 0) h ∙ rw (byte_at_lem v 8, byte_at_lem v 0)

drop-store_be32 :
    (d : List ℕ) (p v : ℕ)
    → p + 4 ≤ length d
    → drop p (store_be32 d p v)
      ≡ v / 2 ^ 24 % 256 ∷ v / 2 ^ 16 % 256 ∷ v / 2 ^ 8 % 256 ∷ v / 1 % 256 ∷ drop (p + 4) d
unfolding store_be32
drop-store_be32 d p v h =
    drop-set4 d p (byte_at v 24) (byte_at v 16) (byte_at v 8) (byte_at v 0) h
    ∙ rw (byte_at_lem v 24, byte_at_lem v 16, byte_at_lem v 8, byte_at_lem v 0)

drop-store_le32 :
    (d : List ℕ) (p v : ℕ)
    → p + 4 ≤ length d
    → drop p (store_le32 d p v)
      ≡ v / 1 % 256 ∷ v / 2 ^ 8 % 256 ∷ v / 2 ^ 16 % 256 ∷ v / 2 ^ 24 % 256 ∷ drop (p + 4) d
unfolding store_le32
drop-store_le32 d p v h =
    drop-set4 d p (byte_at v 0) (byte_at v 8) (byte_at v 16) (byte_at v 24) h
    ∙ rw (byte_at_lem v 24, byte_at_lem v 16, byte_at_lem v 8, byte_at_lem v 0)

take-store_be32 : (d : List ℕ) (p v : ℕ) → take p (store_be32 d p v) ≡ take p d
unfolding store_be32
take-store_be32 d p v = simp set_laws

-- A load at `p` is a load at the start of what lies behind `p`.
pub load_be16-drop : (oob : ℕ) (d : List ℕ) (p : ℕ) → load_be16 oob d p ≡ load_be16 oob (drop p d) 0
unfolding load_be16
load_be16-drop oob d p = simp (get_or-drop, add-zero)

pub load_be32-drop : (oob : ℕ) (d : List ℕ) (p : ℕ) → load_be32 oob d p ≡ load_be32 oob (drop p d) 0
unfolding load_be32
load_be32-drop oob d p = simp (get_or-drop, add-zero)

load_le32-drop : (oob : ℕ) (d : List ℕ) (p : ℕ) → load_le32 oob d p ≡ load_le32 oob (drop p d) 0
unfolding load_le32
load_le32-drop oob d p = simp (get_or-drop, add-zero)

read_be32 :
    (oob v : ℕ) (r : List ℕ)
    → v < 2 ^ 32
    → load_be32 oob (v / 2 ^ 24 % 256 ∷ v / 2 ^ 16 % 256 ∷ v / 2 ^ 8 % 256 ∷ v / 1 % 256 ∷ r) 0 ≡ v
unfolding load_be32
read_be32 oob v r h =
    join32 (v / 2 ^ 24 % 256) (v / 2 ^ 16 % 256) (v / 2 ^ 8 % 256) (v / 1 % 256) (IsByte-mod _)
      (IsByte-mod _) (IsByte-mod _) (IsByte-mod _)
    ∙ omega arith

pub load-store_be16 :
    (oob : ℕ) (d : List ℕ) (p v : ℕ)
    → p + 2 ≤ length d
    → v < 2 ^ 16
    → load_be16 oob (store_be16 d p v) p ≡ v
load-store_be16 oob d p v h hv =
    load_be16-drop oob (store_be16 d p v) p ∙ rw (drop-store_be16 d p v h) read
  where
    read : load_be16 oob (v / 2 ^ 8 % 256 ∷ v / 1 % 256 ∷ drop (p + 2) d) 0 ≡ v
    read =
        unfold load_be16 in
        join16 (v / 2 ^ 8 % 256) (v / 1 % 256) (IsByte-mod _) (IsByte-mod _) ∙ omega arith

pub load-store_be32 :
    (oob : ℕ) (d : List ℕ) (p v : ℕ)
    → p + 4 ≤ length d
    → v < 2 ^ 32
    → load_be32 oob (store_be32 d p v) p ≡ v
load-store_be32 oob d p v h hv =
    load_be32-drop oob (store_be32 d p v) p
    ∙ rw (drop-store_be32 d p v h) (read_be32 oob v (drop (p + 4) d) hv)

-- What `store_le32` writes at an offset where four bytes fit, `load_le32` reads back, for a value
-- of 32 bits.
pub load-store_le32 :
    (oob : ℕ) (d : List ℕ) (p v : ℕ)
    → p + 4 ≤ length d
    → v < 2 ^ 32
    → load_le32 oob (store_le32 d p v) p ≡ v
load-store_le32 oob d p v h hv =
    load_le32-drop oob (store_le32 d p v) p ∙ rw (drop-store_le32 d p v h) read
  where
    read :
        load_le32 oob
          (v / 1 % 256 ∷ v / 2 ^ 8 % 256 ∷ v / 2 ^ 16 % 256 ∷ v / 2 ^ 24 % 256 ∷ drop (p + 4) d)
          0
        ≡ v
    read =
        unfold load_le32 in
        join_le32 (v / 1 % 256) (v / 2 ^ 8 % 256) (v / 2 ^ 16 % 256) (v / 2 ^ 24 % 256)
          (IsByte-mod _) (IsByte-mod _) (IsByte-mod _) (IsByte-mod _)
        ∙ omega arith

-- A load does not see what lies behind its last byte.
load_be32-take :
    (oob : ℕ) (d : List ℕ) (p q : ℕ) → p + 4 ≤ q → load_be32 oob (take q d) p ≡ load_be32 oob d p
unfolding load_be32
load_be32-take oob d p q h = rw (
  get_or-take q p d oob (omega arith),
  get_or-take q (p + 1) d oob (omega arith),
  get_or-take q (p + 2) d oob (omega arith),
  get_or-take q (p + 3) d oob (omega arith),
)

pub length-store_be32 : (d : List ℕ) (p v : ℕ) → length (store_be32 d p v) ≡ length d
unfolding store_be32
length-store_be32 d p v = simp length-set

load_be32-store_below :
    (oob : ℕ) (d : List ℕ) (p v : ℕ) → load_be32 oob (store_be32 d (p + 4) v) p ≡ load_be32 oob d p
load_be32-store_below oob d p v =
    sym (load_be32-take oob (store_be32 d (p + 4) v) p (p + 4) (omega arith))
    ∙ rw (take-store_be32 d (p + 4) v) (load_be32-take oob d p (p + 4) (omega arith))

low32 : (v : ℕ) → bit_and v 0xFFFFFFFF ≡ v % 2 ^ 32
low32 v = bit_and_ones 32 v

-- What `store_be64` writes at an offset where eight bytes fit, `load_be64` reads back, for a value
-- of 64 bits.
pub load-store_be64 :
    (oob : ℕ) (d : List ℕ) (p v : ℕ)
    → p + 8 ≤ length d
    → v < 2 ^ 64
    → load_be64 oob (store_be64 d p v) p ≡ v
unfolding load_be64 store_be64
load-store_be64 oob d p v h hv = rw (low32 v) (
    rw
      (
        load_be32-store_below oob d1 p lo,
        load-store_be32 oob d p hi (omega arith) (omega arith),
        load-store_be32 oob d1 (p + 4) lo (omega (arith, length-store_be32 d p hi)) (omega arith),
      )
      (join64 hi lo (omega arith) (omega arith) ∙ omega arith))
  where
    hi : ℕ
    hi = v / 2 ^ 32 % 2 ^ 32

    lo : ℕ
    lo = v % 2 ^ 32 % 2 ^ 32

    d1 : List ℕ
    d1 = store_be32 d p hi

-- The loads read back the bytes that the stores compute, also at the start of a longer buffer.
pub load_be16_bytes :
    (oob v : ℕ) (r : List ℕ) → v < 2 ^ 16 → load_be16 oob (byte_at v 8 ∷ byte_at v 0 ∷ r) 0 ≡ v
unfolding load_be16
load_be16_bytes oob v r h =
    rw (byte_at_lem v 8, byte_at_lem v 0)
      (join16 (v / 2 ^ 8 % 256) (v / 1 % 256) (IsByte-mod _) (IsByte-mod _) ∙ omega arith)

pub load_be32_bytes :
    (oob v : ℕ) (r : List ℕ)
    → v < 2 ^ 32
    → load_be32 oob (byte_at v 24 ∷ byte_at v 16 ∷ byte_at v 8 ∷ byte_at v 0 ∷ r) 0 ≡ v
load_be32_bytes oob v r h =
    rw (byte_at_lem v 24, byte_at_lem v 16, byte_at_lem v 8, byte_at_lem v 0) (read_be32 oob v r h)

-- The high and the low half of a 64-bit value, as `store_be64` passes them on.
abbrev pub high_half : ℕ → ℕ
high_half v = v / 2 ^ 32 % 2 ^ 32

abbrev pub low_half : ℕ → ℕ
low_half v = bit_and v 0xFFFFFFFF % 2 ^ 32

pub load_be64_halves :
    (oob v : ℕ) (d : List ℕ)
    → v < 2 ^ 64
    → load_be32 oob d 0 ≡ high_half v
    → load_be32 oob d 4 ≡ low_half v
    → load_be64 oob d 0 ≡ v
unfolding load_be64
load_be64_halves oob v d h eh el =
    rw (eh, el, low32 v)
      (join64 (high_half v) (v % 2 ^ 32 % 2 ^ 32) (omega arith) (omega arith) ∙ omega arith)

pub load_be64-drop : (oob : ℕ) (d : List ℕ) (p : ℕ) → load_be64 oob d p ≡ load_be64 oob (drop p d) 0
unfolding load_be64 load_be32
load_be64-drop oob d p = simp (get_or-drop, add-zero, add_assoc)

-- In range, a load does not depend on what a read past the end would give.
module _ (a b : ℕ) (d : List ℕ) where
  pub get_or-in_range : (i : ℕ) → i < length d → get_or d i a ≡ get_or d i b
  get_or-in_range i h = same d i h
    where
      same : (d : List ℕ) (i : ℕ) → i < length d → get_or d i a ≡ get_or d i b
      same [] i h = absurd (omega arith)
      same (x ∷ d) zero h = refl
      same (x ∷ d) (suc i) h = same d i (omega arith)

  pub load_be16-in_range : (p : ℕ) → p + 2 ≤ length d → load_be16 a d p ≡ load_be16 b d p
  unfolding load_be16
  load_be16-in_range p h =
      rw (get_or-in_range p (omega arith), get_or-in_range (p + 1) (omega arith))

  pub load_be32-in_range : (p : ℕ) → p + 4 ≤ length d → load_be32 a d p ≡ load_be32 b d p
  unfolding load_be32
  load_be32-in_range p h = rw (
    get_or-in_range p (omega arith),
    get_or-in_range (p + 1) (omega arith),
    get_or-in_range (p + 2) (omega arith),
    get_or-in_range (p + 3) (omega arith),
  )

  pub load_be64-in_range : (p : ℕ) → p + 8 ≤ length d → load_be64 a d p ≡ load_be64 b d p
  unfolding load_be64
  load_be64-in_range p h =
      rw (load_be32-in_range p (omega arith), load_be32-in_range (p + 4) (omega arith))
