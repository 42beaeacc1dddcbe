-- ===== src/Io/Size.antt =====
-- pkg/io/size.go against the writer: where the estimated size is the written size.
use epicchain_go.Common.{ℕ, ◌<◌, ◌≡◌, ◌≢◌, ◌↔◌, refl, List, arith, length, length-append}
use epicchain_go.Io.Writer.{
  new_buf_bin_writer, var_uint_bytes, write_var_bytes, get_var_int_size, get_var_size,
}
use epicchain_go.Io.RoundTrip.{write_var_bytes-ok}

length-var_uint_bytes :
    (v : ℕ) → (length (var_uint_bytes v) ≡ get_var_int_size v) ↔ ((v ≢ 0xFFFF) × (v < 0xFFFFFFFF))
unfolding var_uint_bytes get_var_int_size
length-var_uint_bytes v = (λ h. ground arith, λ h. ground arith)

-- GetVarSize is the written size of a byte string exactly when its length is not 65535 and is below
-- 2 ^ 32 - 1.
pub get_var_size_iff :
    (b : List ℕ)
    → (get_var_size b ≡ length (write_var_bytes b new_buf_bin_writer).buf)
      ↔ ((length b ≢ 0xFFFF) × (length b < 0xFFFFFFFF))
unfolding get_var_size
get_var_size_iff b = rw (write_var_bytes-ok b new_buf_bin_writer refl) (
    let e = length-append (var_uint_bytes (length b)) b in
    let iff = length-var_uint_bytes (length b) in
    (λ h. iff.0 (omega arith), λ h. let k = iff.1 h in omega arith))
