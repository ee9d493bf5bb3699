-- ===== src/Storage/Table/Blocks.antt =====
-- What the search of a block finds of what was added to it.
use crabstash.Base.{
  bytes_eq, nat_eq, ℕ, zero, suc, ◌<◌, ◌≤◌, ◌^◌, Bytes, ◌≡◌, refl, ap, inl, inr, false, Option,
  none, some, List, [], ◌∷◌, ◌++◌, All, length, length-append, is_empty, ◌==◌, eqb, arith,
  Bool-cases, if◌then◌else◌,
}
use crabstash.Storage.Codec.{
  put_le, get_le, and_then, read_exact, length-put_le, get_le-put_le, read_exact-append,
  read_exact-put_le,
}
use crabstash.Storage.Table.{
  tombstone_len, put_value, encode_entry, parse_value, parse_entry, answer, search_loop,
  search_block,
}

abbrev pub Row : Type 0
Row = Bytes × Option Bytes

abbrev pub encode_all : List Row → Bytes
encode_all [] = []
encode_all ((k, v) ∷ rows) = encode_entry k v ++ encode_all rows

-- The value of the first row with the key; a deletion counts as none.
abbrev pub first_value : Bytes → List Row → Option Bytes
first_value key [] = none
first_value key ((k, v) ∷ rows) = if k == key then v else first_value key rows

-- A value is shorter than the mark of a deletion.
abbrev pub FitsValue : Option Bytes → Type 0
FitsValue none = Unit
FitsValue (some v) = length v < tombstone_len

-- The lengths of the row fit their four bytes.
abbrev pub Fits : Row → Type 0
Fits (k, v) = (length k < 2 ^ 32) × FitsValue v

append_assoc : (xs ys zs : Bytes) → (xs ++ ys) ++ zs ≡ xs ++ (ys ++ zs)
append_assoc [] ys zs = refl
append_assoc (x ∷ xs) ys zs = ap (◌∷◌ x) (append_assoc xs ys zs)

parse_value-put_value :
    (k : Bytes) (v : Option Bytes) (rest : Bytes)
    → FitsValue v
    → and_then (read_exact 4 (put_value v ++ rest)) (λ (n, tail). parse_value k (get_le n) tail)
      ≡ some (k, v, rest)
unfolding and_then
parse_value-put_value k none rest fits =
    rw (read_exact-put_le 4 tombstone_len rest, get_le-put_le 4 tombstone_len (omega arith)) refl
parse_value-put_value k (some v) rest fits =
    let small : eqb (length v) tombstone_len ≡ false = ground arith in
    rw
      (
        append_assoc (put_le 4 (length v)) v rest,
        read_exact-put_le 4 (length v) (v ++ rest),
        get_le-put_le 4 (length v) (omega arith),
        small,
        read_exact-append v rest,
      )
      refl

parse_entry-encode_entry :
    (k : Bytes) (v : Option Bytes) (rest : Bytes)
    → Fits (k, v)
    → parse_entry (encode_entry k v ++ rest) ≡ some (k, v, rest)
unfolding parse_entry encode_entry and_then
parse_entry-encode_entry k v rest fits =
    rw
      (
        append_assoc (put_le 4 (length k)) (k ++ put_value v) rest,
        append_assoc k (put_value v) rest,
        read_exact-put_le 4 (length k) (k ++ (put_value v ++ rest)),
        get_le-put_le 4 (length k) fits.0,
        read_exact-append k (put_value v ++ rest),
      )
      (parse_value-put_value k v rest fits.1)

is_empty-encode_entry :
    (k : Bytes) (v : Option Bytes) (rest : Bytes) → is_empty (encode_entry k v ++ rest) ≡ false
unfolding encode_entry put_le
is_empty-encode_entry k v rest = refl

length-encode_entry : (k : Bytes) (v : Option Bytes) → 1 ≤ length (encode_entry k v)
unfolding encode_entry
length-encode_entry k v =
    omega (
      arith,
      length-append {0} (put_le 4 (length k)) (k ++ put_value v),
      length-put_le 4 (length k),
    )

rows-le-length : (rows : List Row) → length rows ≤ length (encode_all rows)
rows-le-length [] = omega arith
rows-le-length ((k, v) ∷ rows) = omega (
  arith,
  rows-le-length rows,
  length-encode_entry k v,
  length-append {0} (encode_entry k v) (encode_all rows),
)

search_loop-encode_all :
    (fuel : ℕ) (rows : List Row) (key : Bytes)
    → length rows < fuel
    → All Fits rows
    → search_loop fuel (encode_all rows) key ≡ answer (first_value key rows)
unfolding search_loop
search_loop-encode_all zero rows key lt fits = absurd (omega arith)
search_loop-encode_all (suc fuel) [] key lt fits = refl
search_loop-encode_all (suc fuel) ((k, v) ∷ rows) key lt fits =
    rw
      (
        is_empty-encode_entry k v (encode_all rows),
        parse_entry-encode_entry k v (encode_all rows) fits.0,
      )
      (elim (Bool-cases (k == key)) [
        | inl same ↦ rw same refl
        | inr other ↦ rw other (search_loop-encode_all fuel rows key (omega arith) fits.1)
      ])

-- The search of a block, as `add` fills it with rows whose lengths fit, answers the value of the first
-- row with the key; it never panics or runs on. A deletion and an absent key have the same answer.
pub search_block-encode_all :
    (rows : List Row) (key : Bytes)
    → All Fits rows
    → search_block (encode_all rows) key ≡ answer (first_value key rows)
unfolding search_block
search_block-encode_all rows key fits =
    search_loop-encode_all (suc (length (encode_all rows))) rows key
      (omega (arith, rows-le-length rows)) fits
