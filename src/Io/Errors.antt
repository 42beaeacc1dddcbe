-- ===== src/Io/Errors.antt =====
-- pkg/io: sticky errors, limits on lengths and input that is cut short.
use epicchain_go.Common.{
  ℕ, zero, suc, ◌+◌, ◌*◌, ◌/◌, ◌%◌, ◌^◌, ◌<◌, ◌≤◌, ◌≡◌, refl, sym, ap, ◌∙◌, Bool, true, false,
  Option, none, some, List, [], ◌∷◌, ◌++◌, arith, length, take, drop, replicate, length-append,
  length-replicate, length-take, ltb, All, Bool-cases, inl, inr, if◌then◌else◌, ◌⊎◌, Option-cases,
  ltb-false→le,
}
use epicchain_go.Io.Reader.{
  IoError, BinReader, from_buf, failed, read_full, read_bytes, le_value, read_fixed, read_u64_le,
  read_u32_le, read_u16_le, read_u16_be, read_b, read_bool, read_var_uint, read_var_bytes,
  read_string, read_array,
}
use epicchain_go.Io.Writer.{
  BinWriter, write_bytes, var_uint_bytes, write_var_uint, write_var_bytes, write_string, write_b,
  write_bool, write_u64_le, write_u32_le, write_u16_le, write_u16_be, bytes,
}
use epicchain_go.Io.RoundTrip.{read_b-cons}

-- After an error every read leaves the reader as it is. ReadBytes leaves its buffer as it is, the reads of
-- numbers, of a Boolean and of a string return zero, false and the empty string, ReadVarBytes an empty slice
-- that is not nil, and ReadArray leaves the slice as it was, whatever its elements are read by.
pub read-IsSticky :
    {A : Type 0} (decode_binary : BinReader → A × BinReader) (r : BinReader) (e : IoError)
    (max_size : ℕ) (buf : List ℕ)
    → r.err ≡ some e
    → (read_bytes buf r ≡ (buf, r))
      × (read_array decode_binary max_size r ≡ (none, r))
      × (read_u64_le r ≡ (0, r))
      × (read_u32_le r ≡ (0, r))
      × (read_u16_le r ≡ (0, r))
      × (read_u16_be r ≡ (0, r))
      × (read_b r ≡ (0, r))
      × (read_bool r ≡ (false, r))
      × (read_var_uint r ≡ (0, r))
      × (read_var_bytes max_size r ≡ (some [], r))
      × (read_string max_size r ≡ ([], r))
unfolding read_u64_le read_u32_le read_u16_le read_u16_be read_b read_bool read_var_uint
    read_var_bytes read_string read_fixed read_bytes read_array
read-IsSticky decode_binary r e max_size buf h = ground arith

-- After an error every write leaves the writer as it is.
pub write-IsSticky :
    (w : BinWriter) (e : IoError) (v : ℕ) (b : List ℕ) (t : Bool)
    → w.err ≡ some e
    → (write_u64_le v w ≡ w)
      × (write_u32_le v w ≡ w)
      × (write_u16_le v w ≡ w)
      × (write_u16_be v w ≡ w)
      × (write_b v w ≡ w)
      × (write_bool t w ≡ w)
      × (write_var_uint v w ≡ w)
      × (write_var_bytes b w ≡ w)
      × (write_string b w ≡ w)
      × (bytes w ≡ (none, w))
unfolding write_u64_le write_u32_le write_u16_le write_u16_be write_b write_bool write_var_uint
    write_var_bytes write_string write_bytes bytes
write-IsSticky w e v b t h = ground arith

length-read_bytes : (buf : List ℕ) (r : BinReader) → length (read_bytes buf r).0 ≡ length buf
unfolding read_bytes read_full
length-read_bytes buf r = ground (
  arith,
  length-append r.rest (drop (length r.rest) buf),
  epicchain_go.Common.length-drop (length r.rest) buf,
  length-take (length buf) r.rest,
)

-- What ReadVarBytes may answer.
abbrev pub WithinLimit : ℕ → Option (List ℕ) × BinReader → Type 0
WithinLimit max_size (some b, r) = length b ≤ max_size
WithinLimit max_size (none, r) = failed r.err ≡ true

-- ReadVarBytes, on any reader, answers either at most its limit of bytes, or nothing and an error.
pub read_var_bytes-le :
    (max_size : ℕ) (r : BinReader) → WithinLimit max_size (read_var_bytes max_size r)
unfolding read_var_bytes
read_var_bytes-le max_size r = elim (Bool-cases (ltb max_size (read_var_uint r).0)) [
  | inl big ↦ rw big refl
  | inr fits ↦ rw fits (
      omega (
        arith,
        length-read_bytes (replicate (read_var_uint r).0 0) (read_var_uint r).1,
        length-replicate (read_var_uint r).0 (zero),
        ltb-false→le max_size (read_var_uint r).0 fits,
      ))
]

short_fixed :
    (size : ℕ) (value : List ℕ → ℕ) (src : List ℕ)
    → length src < size
    → failed (read_fixed size value (from_buf src)).1.err ≡ true
unfolding read_fixed read_bytes read_full
short_fixed size value src h = ground (arith, length-replicate size (zero))

-- The first byte of a written number tells how many follow.
var_uint_bytes_shape :
    (v b : ℕ) (t : List ℕ)
    → var_uint_bytes v ≡ b ∷ t
    → ((b ≡ 0xfd) × (length t ≡ 2))
      ⊎ (((b ≡ 0xfe) × (length t ≡ 4)) ⊎ (((b ≡ 0xff) × (length t ≡ 8)) ⊎ (length t ≡ 0)))
unfolding var_uint_bytes
var_uint_bytes_shape v b t h = ground (arith, ap length h)

-- ReadVarUint fails on every proper prefix of the bytes of a number.
pub read_var_uint_cut :
    (v x : ℕ) (front back : List ℕ)
    → var_uint_bytes v ≡ front ++ (x ∷ back)
    → failed (read_var_uint (from_buf front)).1.err ≡ true
unfolding read_var_uint read_b read_fixed read_bytes read_full read_u16_le read_u32_le read_u64_le
read_var_uint_cut v x [] back h = refl
read_var_uint_cut v x (b ∷ front) back h = ground (
  arith,
  read_b-cons b front,
  var_uint_bytes_shape v b (front ++ (x ∷ back)) h,
  length-append front (x ∷ back),
  short_fixed 2 le_value front,
  short_fixed 4 le_value front,
  short_fixed 8 le_value front,
)
