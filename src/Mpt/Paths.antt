-- ===== src/Mpt/Paths.antt =====
-- pkg/core/mpt/helpers.go: prefixes of paths, and views below them.
use epicchain_go.Common.{
  ℕ, List, [], ◌∷◌, ◌++◌, length, drop, ◌==◌, ◌≡◌, ◌≢◌, refl, ap, inl, inr, Option, none, some,
  arith, Bool-cases, ==_iff, ==-refl,
}
use epicchain_go.Mpt.Get.{strip_prefix}
use epicchain_go.Mpt.Put.{lcp}
use epicchain_go.Mpt.View.{View, under, update, IsPath}

pub strip_prefix-some :
    (key path rest : List ℕ) → strip_prefix key path ≡ some rest → path ≡ key ++ rest
unfolding strip_prefix
strip_prefix-some [] path rest e = cc
strip_prefix-some (x ∷ key) [] rest e = cc
strip_prefix-some (x ∷ key) (y ∷ path) rest e = ground (arith, strip_prefix-some key path rest)

pub strip_prefix-append : (key rest : List ℕ) → strip_prefix key (key ++ rest) ≡ some rest
unfolding strip_prefix
strip_prefix-append [] rest = refl
strip_prefix-append (x ∷ key) rest = rw (==-refl x, strip_prefix-append key rest) refl

-- The first of the two nibbles at which the key and the path part, if the path has one.
abbrev pub IsOther : ℕ → List ℕ → Type 0
IsOther x [] = Unit
IsOther x (y ∷ path) = x ≢ y

-- How a path parts from a key that is no prefix of it.
pub record Parts (key path : List ℕ) : Type 0 where
  pub shared : List ℕ
  pub turn : ℕ
  pub key_tail : List ℕ
  pub path_tail : List ℕ
  pub key_eq : key ≡ shared ++ (turn ∷ key_tail)
  pub path_eq : path ≡ shared ++ path_tail
  pub other : IsOther turn path_tail
  pub lcp_eq : lcp key path ≡ shared
  pub key_drop : drop (length (lcp key path)) key ≡ turn ∷ key_tail
  pub path_drop : drop (length (lcp key path)) path ≡ path_tail

pub strip_prefix-Parts : (key path : List ℕ) → strip_prefix key path ≡ none → Parts key path
unfolding strip_prefix lcp
strip_prefix-Parts [] path e = cc
strip_prefix-Parts (x ∷ key) [] e = record {
  shared = [];
  turn = x;
  key_tail = key;
  path_tail = [];
  key_eq = refl;
  path_eq = refl;
  other = tt;
  lcp_eq = refl;
  key_drop = refl;
  path_drop = refl;
}
strip_prefix-Parts (x ∷ key) (y ∷ path) e = elim (Bool-cases (x == y)) [
  | inr differ ↦ record {
    shared = [];
    turn = x;
    key_tail = key;
    path_tail = y ∷ path;
    key_eq = refl;
    path_eq = refl;
    other = ground (arith, differ);
    lcp_eq = rw differ refl;
    key_drop = rw differ refl;
    path_drop = rw differ refl;
  }
  | inl same ↦
      let p = strip_prefix-Parts key path (rw same at e) in
      record {
        shared = x ∷ p.shared;
        turn = p.turn;
        key_tail = p.key_tail;
        path_tail = p.path_tail;
        key_eq = ap (λ t. x ∷ t) p.key_eq;
        path_eq = rw (← (==_iff x y).0 same) (ap (λ t. x ∷ t) p.path_eq);
        other = p.other;
        lcp_eq = rw same (ap (λ t. x ∷ t) p.lcp_eq);
        key_drop = rw same p.key_drop;
        path_drop = rw same p.path_drop;
      }
]

pub under-append :
    (a b : List ℕ) (f : View) (q : List ℕ) → under (a ++ b) f q ≡ under a (under b f) q
unfolding under
under-append [] b f q = refl
under-append (x ∷ a) b f [] = refl
under-append (x ∷ a) b f (y ∷ q) = rw (under-append a b f q) refl

-- Views that agree on every path of nibbles.
abbrev pub Same : View → View → Type 0
Same f g = (q : List ℕ) → IsPath q → f q ≡ g q

pub under-Same : (key : List ℕ) (f g : View) → Same f g → Same (under key f) (under key g)
unfolding under
under-Same [] f g s q p = s q p
under-Same (x ∷ key) f g s [] p = refl
under-Same (x ∷ key) f g s (y ∷ q) p = rw (under-Same key f g s q p.1) refl

-- A change below a key.
pub under-update :
    (key p : List ℕ) (v : Option (List ℕ)) (f : View) (q : List ℕ)
    → under key (update p v f) q ≡ update (key ++ p) v (under key f) q
unfolding under update
under-update [] p v f q = refl
under-update (x ∷ key) p v f [] = refl
under-update (x ∷ key) p v f (y ∷ q) = elim (Bool-cases (x == y)) [
  | inl same ↦ rw (same, under-update key p v f q) refl
  | inr differ ↦ rw differ refl
]
