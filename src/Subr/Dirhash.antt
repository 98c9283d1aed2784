-- ===== src/Subr/Dirhash.antt =====
-- `hammer2_dirhash`. The CRC is not part of the repository's code: `hammer2_icrc32` wraps the
-- kernel's crc32c(), and is a parameter.
use Prim.Native.Nat.{bit_xor}
use mathlib.Core.List.{append_assoc, append-nil}
use linux_hammer.Base.{
  ℕ, ◌+◌, ◌*◌, ◌/◌, ◌%◌, ◌^◌, ◌≤◌, ◌<◌, ◌≡◌, refl, Bool, ◌||◌, ◌==◌, if◌then◌else◌, List, [], ◌∷◌,
  ◌++◌, arith, Bool-cases, inl, inr, ◌∙◌, ap, sym,
}

abbrev is_separator : ℕ → Bool
is_separator c = c == b'.' || c == b'-' || c == b'_' || c == b'~'

module _ (icrc32 : List ℕ → ℕ) where
  -- `if (i != j) crcx += hammer2_icrc32(aname + j, i - j);` where `field` holds the bytes from `j`
  -- to `i`.
  abbrev add_field : ℕ → List ℕ → ℕ
  add_field crcx [] = crcx
  add_field crcx (c ∷ field) = (crcx + icrc32 (c ∷ field)) % 2 ^ 32

  -- The loop of the top 32 bits, over the bytes from `i` on.
  unfoldable pub hash_fields : ℕ → List ℕ → List ℕ → ℕ
  hash_fields crcx field [] = add_field crcx field
  hash_fields crcx field (c ∷ rest) =
      hash_fields (if is_separator c then add_field crcx field else crcx)
        (if is_separator c then [] else field ++ c ∷ []) rest

  unfoldable pub hammer2_dirhash : List ℕ → ℕ
  unfolding hash_fields
  hammer2_dirhash aname =
      let crcx = hash_fields 0 [] aname in
      let top = 2 ^ 31 + crcx % 2 ^ 31 in
      let whole = icrc32 aname % 2 ^ 32 in
      let mixed = bit_xor whole (whole * 2 ^ 16 % 2 ^ 32) in
      top * 2 ^ 32 + mixed / 2 ^ 16 % 2 ^ 16 * 2 ^ 16 + 2 ^ 15

-- The fields between the separators, from the right.
abbrev extend : ℕ → List (List ℕ) → List (List ℕ)
extend c [] = (c ∷ []) ∷ []
extend c (field ∷ fields) = (c ∷ field) ∷ fields

pub fields_of : List ℕ → List (List ℕ)
fields_of [] = [] ∷ []
fields_of (c ∷ rest) = if is_separator c then [] ∷ fields_of rest else extend c (fields_of rest)

abbrev prefix : List ℕ → List (List ℕ) → List (List ℕ)
prefix front [] = front ∷ []
prefix front (field ∷ fields) = (front ++ field) ∷ fields

module _ (icrc32 : List ℕ → ℕ) where
  abbrev field_crc : List ℕ → ℕ
  field_crc [] = 0
  field_crc (c ∷ field) = icrc32 (c ∷ field)

  -- The sum of the CRCs of the fields that are not empty.
  pub crc_sum : List (List ℕ) → ℕ
  crc_sum [] = 0
  crc_sum (field ∷ fields) = field_crc field + crc_sum fields

  add_field_lem :
      (crcx : ℕ) (field : List ℕ)
      → crcx < 2 ^ 32
      → add_field icrc32 crcx field ≡ (crcx + field_crc field) % 2 ^ 32
  add_field_lem crcx [] lt = omega arith
  add_field_lem crcx (c ∷ field) lt = refl

  prefix-extend :
      (front : List ℕ) (c : ℕ) (fields : List (List ℕ))
      → prefix front (extend c fields) ≡ prefix (front ++ c ∷ []) fields
  prefix-extend front c [] = refl
  prefix-extend front c (field ∷ fields) = rw (append_assoc front (c ∷ []) field)

  crc_sum-prefix : (fields : List (List ℕ)) → crc_sum (prefix [] fields) ≡ crc_sum fields
  unfolding crc_sum
  crc_sum-prefix [] = omega arith
  crc_sum-prefix (field ∷ fields) = refl

  hash_fields_lem :
      (crcx : ℕ) (front aname : List ℕ)
      → crcx < 2 ^ 32
      → hash_fields icrc32 crcx front aname
        ≡ (crcx + crc_sum (prefix front (fields_of aname))) % 2 ^ 32
  unfolding hash_fields crc_sum fields_of
  hash_fields_lem crcx front [] lt =
      rw (append-nil front) (omega (arith, add_field_lem crcx front lt))
  hash_fields_lem crcx front (c ∷ rest) lt = elim (Bool-cases (is_separator c)) [
    | inl sep ↦ rw sep (
        rw (append-nil front) (
          omega (
            arith,
            add_field_lem crcx front lt,
            crc_sum-prefix (fields_of rest),
            hash_fields_lem (add_field icrc32 crcx front) [] rest
                (omega (arith, add_field_lem crcx front lt)),
          )))
    | inr plain ↦ rw plain (
        hash_fields_lem crcx (front ++ c ∷ []) rest lt
        ∙ ap (λ fs. (crcx + crc_sum fs) % 2 ^ 32) (sym (prefix-extend front c (fields_of rest))))
  ]

  -- The upper half of the hash is bit 31 and the low 31 bits of the sum of the CRCs of the name's
  -- fields, the pieces between separators that are not empty.
  dirhash_fields :
      (aname : List ℕ)
      → hammer2_dirhash icrc32 aname / 2 ^ 32 ≡ 2 ^ 31 + crc_sum (fields_of aname) % 2 ^ 31
  unfolding hammer2_dirhash
  dirhash_fields aname =
      omega (arith, hash_fields_lem 0 [] aname (omega arith), crc_sum-prefix (fields_of aname))

  -- For every CRC and every name, the hash is a 64-bit number with bit 63 set, and its low 16 bits are
  -- 0x8000: bit 15 is set, and 0 to 0x7fff are left to the artificial entries.
  dirhash_bits :
      (aname : List ℕ)
      → (2 ^ 63 ≤ hammer2_dirhash icrc32 aname)
        × (hammer2_dirhash icrc32 aname < 2 ^ 64)
        × (hammer2_dirhash icrc32 aname % 2 ^ 16 ≡ 0x8000)
  unfolding hammer2_dirhash
  dirhash_bits aname = omega arith
