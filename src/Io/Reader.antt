-- ===== src/Io/Reader.antt =====
-- pkg/io/binaryReader.go: BinReader over a byte buffer (NewBinReaderFromBuf).
use epicchain_go.Common.{
  ℕ, zero, suc, ◌+◌, ◌*◌, Bool, true, false, not, Option, none, some, List, [], ◌∷◌, ◌++◌, length,
  take, drop, replicate, ltb, ◌==◌, if◌then◌else◌,
}
use mathlib.Core.List.{reverse}

-- The errors that a reader or a writer can hold; those of io.ReadFull first.
pub data IoError : Type 0 where
  eof unexpected_eof drained : IoError
  too_big : ℕ → IoError

-- The unread bytes and the sticky error. The scratch array `uv` is always written before it is read.
pub record BinReader : Type 0 where
  pub rest : List ℕ
  pub err : Option IoError

abbrev pub from_buf : List ℕ → BinReader
from_buf b = record { rest = b; err = none }

abbrev pub max_array_size : ℕ
max_array_size = 0x1000000

-- `Len` of a reader over bytes.Reader.
unfoldable pub len : BinReader → ℕ
len r = length r.rest

abbrev pub failed : Option IoError → Bool
failed none = false
failed (some e) = true

-- io.ReadFull on a bytes.Reader: nothing at all is EOF, too little is ErrUnexpectedEOF, and what there
-- was is consumed and stands in the buffer.
unfoldable pub read_full : List ℕ → List ℕ → List ℕ × BinReader
read_full buf src =
    if length buf == 0
    then (buf, record { rest = src; err = none })
    else if length src == 0
    then (buf, record { rest = src; err = some eof })
    else if ltb (length src) (length buf)
    then (src ++ drop (length src) buf, record { rest = []; err = some unexpected_eof })
    else (take (length buf) src, record { rest = drop (length buf) src; err = none })

-- ReadBytes fills `buf` and returns it.
unfoldable pub read_bytes : List ℕ → BinReader → List ℕ × BinReader
read_bytes buf r = if failed r.err then (buf, r) else read_full buf r.rest

-- binary.LittleEndian and binary.BigEndian
abbrev pub le_value : List ℕ → ℕ
le_value [] = 0
le_value (b ∷ bs) = b + 256 * le_value bs

-- The fixed-width reads share their shape: `size` bytes into the scratch array, zero on a failure.
unfoldable pub read_fixed : ℕ → (List ℕ → ℕ) → BinReader → ℕ × BinReader
read_fixed size value r =
    let (uv, r') = read_bytes (replicate size 0) r in
    if failed r'.err then (0, r') else (value uv, r')

unfoldable pub read_u64_le : BinReader → ℕ × BinReader
read_u64_le = read_fixed 8 le_value

unfoldable pub read_u32_le : BinReader → ℕ × BinReader
read_u32_le = read_fixed 4 le_value

unfoldable pub read_u16_le : BinReader → ℕ × BinReader
read_u16_le = read_fixed 2 le_value

unfoldable pub read_u16_be : BinReader → ℕ × BinReader
read_u16_be = read_fixed 2 (λ uv. le_value (reverse uv))

unfoldable pub read_b : BinReader → ℕ × BinReader
read_b = read_fixed 1 le_value

unfoldable pub read_bool : BinReader → Bool × BinReader
read_bool r = let (b, r') = read_b r in (not (b == 0), r')

unfoldable pub read_var_uint : BinReader → ℕ × BinReader
read_var_uint r =
    if failed r.err
    then (0, r)
    else let (b, r') = read_b r in
      if b == 0xfd
      then read_u16_le r'
      else if b == 0xfe
      then read_u32_le r'
      else if b == 0xff
      then read_u64_le r'
      else (b, r')

-- ReadVarBytes(maxSize); `none` stands for the nil slice of a length that is refused. The call with no
-- argument has `max_array_size`.
unfoldable pub read_var_bytes : ℕ → BinReader → Option (List ℕ) × BinReader
read_var_bytes max_size r =
    let (n, r') = read_var_uint r in
    if ltb max_size n
    then (none, record r' { err = some (too_big n) })
    else (let (b, r'') = read_bytes (replicate n 0) r' in (some b, r''))

-- ReadString: a nil slice is the empty string.
unfoldable pub read_string : ℕ → BinReader → List ℕ × BinReader
read_string max_size r =
    let (b, r') = read_var_bytes max_size r in (elim b [ none ↦ [] | some s ↦ s ], r')

module _ {A : Type 0} (decode_binary : BinReader → A × BinReader) where
  -- The loop of ReadArray: it goes on after a failure, on a reader that then reads nothing.
  unfoldable pub read_elems : ℕ → BinReader → List A × BinReader
  read_elems zero r = ([], r)
  read_elems (suc l) r =
      let (a, r') = decode_binary r in let (as', r'') = read_elems l r' in (a ∷ as', r'')

  -- ReadArray; `none` where the slice is left as it was.
  unfoldable pub read_array : ℕ → BinReader → Option (List A) × BinReader
  read_array max_size r =
      if failed r.err
      then (none, r)
      else let (lu, r') = read_var_uint r in
        if ltb max_size lu
        then (none, record r' { err = some (too_big lu) })
        else (let (arr, r'') = read_elems lu r' in (some arr, r''))
