-- ===== src/Io/RoundTrip.antt =====
-- pkg/io: BinReader on what BinWriter writes.
use epicchain_go.Common.{
  ℕ, zero, suc, ◌/◌, ◌%◌, ◌^◌, ◌<◌, ◌≤◌, ◌≡◌, refl, sym, ap, ◌∙◌, none, some, List, [], ◌∷◌, ◌++◌,
  arith, length, replicate, length-append, length-replicate, take-append_length, drop-append_length,
  All,
}
use mathlib.Core.List.{append_assoc, append-nil}
use epicchain_go.Io.Reader.{
  BinReader, from_buf, read_full, read_bytes, le_value, read_fixed, read_u64_le, read_u32_le,
  read_u16_le, read_b, read_var_uint, read_var_bytes, read_elems, read_array,
}
use epicchain_go.Io.Writer.{
  BinWriter, write_bytes, le_bytes, var_uint_bytes, put_var_uint, write_var_uint, write_var_bytes,
  write_string, write_elems, write_array, new_buf_bin_writer,
}

pub read_bytes-append :
    (b rest buf : List ℕ)
    → length buf ≡ length b
    → read_bytes buf (from_buf (b ++ rest)) ≡ (b, from_buf rest)
unfolding read_bytes read_full
read_bytes-append [] rest [] e = ground arith
read_bytes-append [] rest (x ∷ buf) e = absurd (omega arith)
read_bytes-append (x ∷ b) rest buf e = rw e (
    ground (
      arith,
      length-append b rest,
      take-append_length (x ∷ b) rest,
      drop-append_length (x ∷ b) rest,
    ))

pub le_value-le_bytes : (n v : ℕ) → v < 256 ^ n → le_value (le_bytes n v) ≡ v
le_value-le_bytes zero v h = omega arith
le_value-le_bytes (suc n) v h = omega (arith, le_value-le_bytes n (v / 256))

pub length-le_bytes : (n v : ℕ) → length (le_bytes n v) ≡ n
length-le_bytes zero v = refl
length-le_bytes (suc n) v = ap suc (length-le_bytes n (v / 256))

pub read_fixed-append :
    (size v : ℕ) (rest : List ℕ)
    → v < 256 ^ size
    → read_fixed size le_value (from_buf (le_bytes size v ++ rest)) ≡ (v, from_buf rest)
unfolding read_fixed
read_fixed-append size v rest h =
    rw
      (read_bytes-append (le_bytes size v) rest (replicate size 0)
        (length-replicate size 0 ∙ sym (length-le_bytes size v)))
      (rw (le_value-le_bytes size v h) refl)

-- Writing to a buffer without an error appends; both halves of a writer are kept in view.
pub write_var_uint-ok :
    (v : ℕ) (w : BinWriter)
    → w.err ≡ none
    → write_var_uint v w ≡ record { buf = w.buf ++ var_uint_bytes v; err = none }
unfolding write_var_uint write_bytes put_var_uint var_uint_bytes
write_var_uint-ok v w h = ground arith

pub read_b-cons : (b : ℕ) (rest : List ℕ) → read_b (from_buf (b ∷ rest)) ≡ (b, from_buf rest)
unfolding read_b read_fixed read_bytes read_full
read_b-cons b rest = ground arith

-- A uint64 in variable-length form is read back, and nothing behind it is touched.
pub read_var_uint-append :
    (v : ℕ) (rest : List ℕ)
    → v < 2 ^ 64
    → read_var_uint (from_buf (var_uint_bytes v ++ rest)) ≡ (v, from_buf rest)
unfolding read_var_uint var_uint_bytes read_u16_le read_u32_le read_u64_le
read_var_uint-append v rest h = ground (
  arith,
  read_b-cons (v % 256) rest,
  read_b-cons 0xfd (le_bytes 2 (v % 2 ^ 16) ++ rest),
  read_b-cons 0xfe (le_bytes 4 (v % 2 ^ 32) ++ rest),
  read_b-cons 0xff (le_bytes 8 v ++ rest),
  read_fixed-append 2 (v % 2 ^ 16) rest,
  read_fixed-append 4 (v % 2 ^ 32) rest,
  read_fixed-append 8 v rest,
)

pub write_var_bytes-ok :
    (b : List ℕ) (w : BinWriter)
    → w.err ≡ none
    → write_var_bytes b w ≡ record { buf = w.buf ++ (var_uint_bytes (length b) ++ b); err = none }
unfolding write_var_bytes write_bytes
write_var_bytes-ok b w h =
    rw (write_var_uint-ok (length b) w h, append_assoc w.buf (var_uint_bytes (length b)) b)

pub write_string-ok :
    (s : List ℕ) (w : BinWriter)
    → w.err ≡ none
    → write_string s w ≡ record { buf = w.buf ++ (var_uint_bytes (length s) ++ s); err = none }
unfolding write_string
write_string-ok s w h =
    rw (write_var_uint-ok (length s) w h, append_assoc w.buf (var_uint_bytes (length s)) s)

pub read_var_bytes-append :
    (max_size : ℕ) (b rest : List ℕ)
    → length b ≤ max_size
    → length b < 2 ^ 64
    → read_var_bytes max_size (from_buf ((var_uint_bytes (length b) ++ b) ++ rest))
      ≡ (some b, from_buf rest)
unfolding read_var_bytes
read_var_bytes-append max_size b rest fits h =
    rw (append_assoc (var_uint_bytes (length b)) b rest) (
      ground (
        arith,
        read_var_uint-append (length b) (b ++ rest),
        read_bytes-append b rest (replicate (length b) 0),
        length-replicate (length b) (zero),
      ))

-- What a client puts in an array: how an element is written, and that it is read back.
pub record Codec (A : Type 0) : Type 1 where
  pub encode_binary : A → BinWriter → BinWriter
  pub decode_binary : BinReader → A × BinReader
  pub wire : A → List ℕ
  pub IsWritable : A → Type 0
  pub encode_lem :
      (a : A) (w : BinWriter)
      → w.err ≡ none
      → encode_binary a w ≡ record { buf = w.buf ++ wire a; err = none }
  pub decode_lem :
      (a : A) (rest : List ℕ)
      → IsWritable a
      → decode_binary (from_buf (wire a ++ rest)) ≡ (a, from_buf rest)

module _ {A : Type 0} (c : Codec A) where
  open c use {encode_binary, decode_binary, wire, IsWritable, encode_lem, decode_lem}

  wires : List A → List ℕ
  wires [] = []
  wires (a ∷ as') = wire a ++ wires as'

  write_elems-ok :
      (as' : List A) (w : BinWriter)
      → w.err ≡ none
      → write_elems encode_binary as' w ≡ record { buf = w.buf ++ wires as'; err = none }
  unfolding write_elems wires
  write_elems-ok [] w h = rw (append-nil w.buf) (ground arith)
  write_elems-ok (a ∷ as') w h = rw (encode_lem a w h) (
      write_elems-ok as' (record { buf = w.buf ++ wire a; err = none }) refl
      ∙ rw (append_assoc w.buf (wire a) (wires as')))

  read_elems-append :
      (as' : List A) (rest : List ℕ)
      → All IsWritable as'
      → read_elems decode_binary (length as') (from_buf (wires as' ++ rest)) ≡ (as', from_buf rest)
  unfolding read_elems wires
  read_elems-append [] rest h = refl
  read_elems-append (a ∷ as') rest h =
      rw (append_assoc (wire a) (wires as') rest)
        (rw (decode_lem a (wires as' ++ rest) h.0) (rw (read_elems-append as' rest h.1) refl))

  -- What WriteArray writes of an array of writable elements, no longer than the reader's limit and below
  -- 2 ^ 64, ReadArray reads back, whatever follows it in the buffer, for any codec of the elements.
  pub read_array-write_array :
      (max_size : ℕ) (as' : List A) (rest : List ℕ)
      → All IsWritable as'
      → length as' ≤ max_size
      → length as' < 2 ^ 64
      → read_array decode_binary max_size
          (from_buf ((write_array encode_binary as' new_buf_bin_writer).buf ++ rest))
        ≡ (some as', from_buf rest)
  unfolding read_array write_array
  read_array-write_array max_size as' rest h fits small =
      rw (write_var_uint-ok (length as') new_buf_bin_writer refl) (
        rw (write_elems-ok as' (record { buf = var_uint_bytes (length as'); err = none }) refl) (
          rw (append_assoc (var_uint_bytes (length as')) (wires as') rest) (
            ground (
              arith,
              read_var_uint-append (length as') (wires as' ++ rest),
              read_elems-append as' rest h,
            ))))

-- What WriteVarUint writes of a uint64, ReadVarUint reads back, whatever follows it in the buffer.
pub read_var_uint-write_var_uint :
    (v : ℕ) (rest : List ℕ)
    → v < 2 ^ 64
    → read_var_uint (from_buf ((write_var_uint v new_buf_bin_writer).buf ++ rest))
      ≡ (v, from_buf rest)
read_var_uint-write_var_uint v rest h =
    rw (write_var_uint-ok v new_buf_bin_writer refl) (read_var_uint-append v rest h)

-- What WriteVarBytes writes of a byte string, no longer than the reader's limit and below 2 ^ 64,
-- ReadVarBytes reads back, whatever follows it in the buffer.
pub read_var_bytes-write_var_bytes :
    (max_size : ℕ) (b rest : List ℕ)
    → length b ≤ max_size
    → length b < 2 ^ 64
    → read_var_bytes max_size (from_buf ((write_var_bytes b new_buf_bin_writer).buf ++ rest))
      ≡ (some b, from_buf rest)
read_var_bytes-write_var_bytes max_size b rest fits h =
    rw (write_var_bytes-ok b new_buf_bin_writer refl) (read_var_bytes-append max_size b rest fits h)
