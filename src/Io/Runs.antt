-- ===== src/Io/Runs.antt =====
-- pkg/io: the reader and the writer on concrete bytes, and the theorems at them.
use epicchain_go.Common.{
  ℕ, ◌≡◌, ◌<◌, ◌≢◌, ◌↔◌, refl, true, false, none, some, List, [], ◌∷◌, ◌++◌, arith, length,
}
use epicchain_go.Io.Reader.{
  eof, unexpected_eof, BinReader, from_buf, failed, read_full, read_bytes, read_fixed, read_u64_le,
  read_u32_le, read_u16_le, read_u16_be, read_b, read_bool, read_var_uint, read_var_bytes,
  read_string, read_array,
}
use epicchain_go.Io.Writer.{
  BinWriter, new_buf_bin_writer, write_bytes, le_bytes, var_uint_bytes, write_var_uint,
  write_var_bytes, write_array, write_u16_le, get_var_size,
}
use epicchain_go.Io.RoundTrip.{
  Codec, read_fixed-append, read_var_uint-write_var_uint, read_var_bytes-write_var_bytes,
  read_array-write_array,
}
use epicchain_go.Io.Errors.{WithinLimit, read-IsSticky, read_var_bytes-le, read_var_uint_cut}
use epicchain_go.Io.Size.{get_var_size_iff}

var_uint_300 : var_uint_bytes 300 ≡ 0xfd ∷ 0x2c ∷ 0x01 ∷ []
unfolding var_uint_bytes
var_uint_300 = refl

-- 65535 is written in five bytes.
var_uint_65535 : var_uint_bytes 0xFFFF ≡ 0xfe ∷ 0xff ∷ 0xff ∷ 0 ∷ 0 ∷ []
unfolding var_uint_bytes
var_uint_65535 = refl

truncated : (read_u16_le (from_buf (7 ∷ []))).1 ≡ record { rest = []; err = some unexpected_eof }
unfolding read_u16_le read_fixed read_bytes read_full
truncated = refl

abbrev broken : BinReader
broken = record { rest = 1 ∷ 2 ∷ []; err = some eof }

read_var_uint-write_var_uint_example :
    read_var_uint (from_buf ((write_var_uint 70000 new_buf_bin_writer).buf ++ (9 ∷ [])))
    ≡ (70000, from_buf (9 ∷ []))
read_var_uint-write_var_uint_example = read_var_uint-write_var_uint 70000 (9 ∷ []) (omega arith)

read_var_bytes-write_var_bytes_example :
    read_var_bytes 16
      (from_buf ((write_var_bytes (1 ∷ 2 ∷ 3 ∷ []) new_buf_bin_writer).buf ++ (9 ∷ [])))
    ≡ (some (1 ∷ 2 ∷ 3 ∷ []), from_buf (9 ∷ []))
read_var_bytes-write_var_bytes_example =
    read_var_bytes-write_var_bytes 16 (1 ∷ 2 ∷ 3 ∷ []) (9 ∷ []) (omega arith) (omega arith)

encode_u16 :
    (v : ℕ) (w : BinWriter)
    → w.err ≡ none
    → write_u16_le v w ≡ record { buf = w.buf ++ le_bytes 2 v; err = none }
unfolding write_u16_le write_bytes
encode_u16 v w h = ground arith

decode_u16 :
    (v : ℕ) (rest : List ℕ)
    → v < 65536
    → read_u16_le (from_buf (le_bytes 2 v ++ rest)) ≡ (v, from_buf rest)
unfolding read_u16_le
decode_u16 v rest h = read_fixed-append 2 v rest (omega arith)

-- Elements of two bytes.
abbrev u16_codec : Codec ℕ
u16_codec = record {
  encode_binary = write_u16_le;
  decode_binary = read_u16_le;
  wire = le_bytes 2;
  IsWritable = λ v. v < 65536;
  encode_lem = encode_u16;
  decode_lem = decode_u16;
}

read_array-write_array_example :
    read_array read_u16_le 8
      (from_buf ((write_array write_u16_le (7 ∷ 500 ∷ []) new_buf_bin_writer).buf ++ (9 ∷ [])))
    ≡ (some (7 ∷ 500 ∷ []), from_buf (9 ∷ []))
read_array-write_array_example =
    read_array-write_array u16_codec 8 (7 ∷ 500 ∷ []) (9 ∷ []) (omega arith) (omega arith)
      (omega arith)

read-IsSticky_example :
    (read_bytes (7 ∷ 8 ∷ []) broken ≡ (7 ∷ 8 ∷ [], broken))
    × (read_array read_b 8 broken ≡ (none, broken))
    × (read_u64_le broken ≡ (0, broken))
    × (read_u32_le broken ≡ (0, broken))
    × (read_u16_le broken ≡ (0, broken))
    × (read_u16_be broken ≡ (0, broken))
    × (read_b broken ≡ (0, broken))
    × (read_bool broken ≡ (false, broken))
    × (read_var_uint broken ≡ (0, broken))
    × (read_var_bytes 8 broken ≡ (some [], broken))
    × (read_string 8 broken ≡ ([], broken))
read-IsSticky_example = read-IsSticky read_b broken eof 8 (7 ∷ 8 ∷ []) refl

read_var_bytes-le_example : WithinLimit 2 (read_var_bytes 2 (from_buf (3 ∷ 1 ∷ 1 ∷ 1 ∷ [])))
read_var_bytes-le_example = read_var_bytes-le 2 (from_buf (3 ∷ 1 ∷ 1 ∷ 1 ∷ []))

read_var_uint_cut_example : failed (read_var_uint (from_buf (0xfd ∷ 0x2c ∷ []))).1.err ≡ true
read_var_uint_cut_example = read_var_uint_cut 300 0x01 (0xfd ∷ 0x2c ∷ []) [] var_uint_300

abbrev two_bytes : List ℕ
two_bytes = 4 ∷ 5 ∷ []

get_var_size_iff_example :
    (get_var_size two_bytes ≡ length (write_var_bytes two_bytes new_buf_bin_writer).buf)
    ↔ ((length two_bytes ≢ 0xFFFF) × (length two_bytes < 0xFFFFFFFF))
get_var_size_iff_example = get_var_size_iff two_bytes
