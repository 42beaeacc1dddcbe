-- ===== src/Mpt/Keys.antt =====
-- pkg/core/mpt/helpers.go: the paths of keys.
use epicchain_go.Common.{
  ℕ, ◌+◌, ◌*◌, ◌/◌, ◌%◌, ◌<◌, List, [], ◌∷◌, ◌≡◌, refl, ap, sym, ◌∙◌, inl, inr, All, arith,
  Bool-cases, bytes_beq, bytes_beq_iff,
}
use epicchain_go.Mpt.Get.{to_nibbles, from_nibbles}
use epicchain_go.Mpt.View.{IsPath}

abbrev pub IsByte : ℕ → Type 0
IsByte b = b < 256

abbrev pub IsBytes : List ℕ → Type 0
IsBytes = All IsByte

pub to_nibbles-IsPath : (key : List ℕ) → IsBytes key → IsPath (to_nibbles key)
unfolding to_nibbles
to_nibbles-IsPath [] b = tt
to_nibbles-IsPath (x ∷ key) b = (omega (arith, b.0), (omega arith, to_nibbles-IsPath key b.1))

-- The path of a key tells the key.
pub from_nibbles-to_nibbles : (key : List ℕ) → IsBytes key → from_nibbles (to_nibbles key) ≡ key
unfolding to_nibbles from_nibbles
from_nibbles-to_nibbles [] b = refl
from_nibbles-to_nibbles (x ∷ key) b =
    let e : (x / 16 * 16 % 256 + x % 16) % 256 ≡ x = omega (arith, b.0) in
    rw (e, from_nibbles-to_nibbles key b.1) refl

pub to_nibbles-injective :
    (k l : List ℕ) → IsBytes k → IsBytes l → to_nibbles k ≡ to_nibbles l → k ≡ l
to_nibbles-injective k l bk bl e =
    sym (from_nibbles-to_nibbles k bk) ∙ ap from_nibbles e ∙ from_nibbles-to_nibbles l bl

-- Paths are compared as their keys are.
pub bytes_beq-to_nibbles :
    (k l : List ℕ) → IsBytes k → IsBytes l → bytes_beq (to_nibbles k) (to_nibbles l) ≡ bytes_beq k l
bytes_beq-to_nibbles k l bk bl = elim (Bool-cases (bytes_beq k l)) [
  | inl same ↦
      rw same (
        (bytes_beq_iff (to_nibbles k) (to_nibbles l)).1
          (ap to_nibbles ((bytes_beq_iff k l).0 same)))
  | inr differ ↦ elim (Bool-cases (bytes_beq (to_nibbles k) (to_nibbles l))) [
    | inr differ2 ↦ differ2 ∙ sym differ
    | inl same2 ↦
        let e =
          to_nibbles-injective k l bk bl ((bytes_beq_iff (to_nibbles k) (to_nibbles l)).0 same2) in
        absurd (cc ((bytes_beq_iff k l).1 e, differ))
  ]
]
