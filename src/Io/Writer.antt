-- ===== src/Io/Writer.antt =====
-- pkg/io/binaryWriter.go and binaryBufWriter.go: BinWriter over a bytes.Buffer, whose Write does not fail.
-- pkg/io/size.go: the estimate of an encoded size.
use epicchain_go.Common.{
  ℕ, zero, suc, ◌+◌, ◌/◌, ◌%◌, ◌^◌, Bool, Option, none, some, List, [], ◌∷◌, ◌++◌, length, take,
  drop, replicate, ltb, leb, if◌then◌else◌,
}
use epicchain_go.Io.Reader.{IoError, drained, failed}
use mathlib.Core.List.{reverse}

-- The bytes in the buffer and the sticky error.
pub record BinWriter : Type 0 where
  pub buf : List ℕ
  pub err : Option IoError

abbrev pub new_buf_bin_writer : BinWriter
new_buf_bin_writer = record { buf = []; err = none }

unfoldable pub write_bytes : List ℕ → BinWriter → BinWriter
write_bytes b w = if failed w.err then w else record w { buf = w.buf ++ b }

-- PutUint16, PutUint32, PutUint64: the low bytes of `v`, lowest first.
abbrev pub le_bytes : ℕ → ℕ → List ℕ
le_bytes zero v = []
le_bytes (suc n) v = (v % 256) ∷ le_bytes n (v / 256)

unfoldable pub write_u64_le : ℕ → BinWriter → BinWriter
write_u64_le v = write_bytes (le_bytes 8 v)

unfoldable pub write_u32_le : ℕ → BinWriter → BinWriter
write_u32_le v = write_bytes (le_bytes 4 v)

unfoldable pub write_u16_le : ℕ → BinWriter → BinWriter
write_u16_le v = write_bytes (le_bytes 2 v)

unfoldable pub write_u16_be : ℕ → BinWriter → BinWriter
write_u16_be v = write_bytes (reverse (le_bytes 2 v))

unfoldable pub write_b : ℕ → BinWriter → BinWriter
write_b v = write_bytes (v ∷ [])

unfoldable pub write_bool : Bool → BinWriter → BinWriter
write_bool b = write_b (if b then 1 else 0)

-- What PutVarUint puts in front of `data`, and how many bytes that is.
unfoldable pub var_uint_bytes : ℕ → List ℕ
var_uint_bytes val =
    if ltb val 0xfd
    then (val % 256) ∷ []
    else if ltb val 0xFFFF
    then 0xfd ∷ le_bytes 2 (val % 2 ^ 16)
    else if ltb val 0xFFFFFFFF
    then 0xfe ∷ le_bytes 4 (val % 2 ^ 32)
    else 0xff ∷ le_bytes 8 val

-- PutVarUint; `none` is the panic of `data[8]` on a short slice.
unfoldable pub put_var_uint : List ℕ → ℕ → Option (ℕ × List ℕ)
put_var_uint buf val =
    let b = var_uint_bytes val in
    if ltb (length buf) 9 then none else some (length b, b ++ drop (length b) buf)

-- `w.uv[:n]` after PutVarUint; the scratch array has nine bytes, so there is no panic.
abbrev pub put_prefix : Option (ℕ × List ℕ) → List ℕ
put_prefix none = []
put_prefix (some (n, uv)) = take n uv

unfoldable pub write_var_uint : ℕ → BinWriter → BinWriter
write_var_uint val w =
    if failed w.err then w else write_bytes (put_prefix (put_var_uint (replicate 9 0) val)) w

unfoldable pub write_var_bytes : List ℕ → BinWriter → BinWriter
write_var_bytes b w = write_bytes b (write_var_uint (length b) w)

unfoldable pub write_string : List ℕ → BinWriter → BinWriter
write_string s w =
    let w' = write_var_uint (length s) w in
    if failed w'.err then w' else record w' { buf = w'.buf ++ s }

module _ {A : Type 0} (encode_binary : A → BinWriter → BinWriter) where
  unfoldable pub write_elems : List A → BinWriter → BinWriter
  write_elems [] w = w
  write_elems (a ∷ as') w = write_elems as' (encode_binary a w)

  unfoldable pub write_array : List A → BinWriter → BinWriter
  write_array as' w = if failed w.err then w else write_elems as' (write_var_uint (length as') w)

-- BufBinWriter.Len, Bytes (nil after an error) and Reset
unfoldable pub len : BinWriter → ℕ
len w = length w.buf

unfoldable pub bytes : BinWriter → Option (List ℕ) × BinWriter
bytes w = if failed w.err then (none, w) else (some w.buf, record w { err = some drained })

unfoldable pub reset : BinWriter → BinWriter
reset w = record { buf = []; err = none }

-- getVarIntSize, and GetVarSize of a string or of a slice of bytes
unfoldable pub get_var_int_size : ℕ → ℕ
get_var_int_size value = if ltb value 0xFD then 1 else if leb value 0xFFFF then 3 else 5

unfoldable pub get_var_size : List ℕ → ℕ
get_var_size value = get_var_int_size (length value) + length value
