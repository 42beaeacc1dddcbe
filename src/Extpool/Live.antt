-- ===== src/Extpool/Live.antt =====
-- pkg/network/extpool/pool.go: what RemoveStale makes of the lists and of the map.
use epicchain_go.Common.{
  ℕ, ◌≤◌, ◌≡◌, refl, sym, ap, ◌∙◌, inl, inr, Bool, true, false, not, ◌&&◌, ◌||◌, Option, none, some,
  List, [], ◌∷◌, arith, nat_eq, Map, lookup, delete, lookup-delete, length, ◌==◌, ltb, ==_iff,
  Bool-cases, if◌then◌else◌, subst,
}
use epicchain_go.Extpool.Pool.{Extensible, Ledger, or_nil, is_stale, sweep_list, sweep_senders}
use epicchain_go.Extpool.Sound.{find, IsDistinct}

some_eq : {A : Type 0} {x y : A} → some x ≡ some y → x ≡ y
some_eq e = cc

-- Each sender once, as in a Go map.
abbrev pub HasSenderOnce : Map ℕ (List Extensible) → Type 0
HasSenderOnce [] = Unit
HasSenderOnce ((s, l) ∷ m) = (lookup s m ≡ none) × HasSenderOnce m

module _ (index : ℕ) (chain : Ledger) where
  -- A payload is valid past the height, its sender allowed, and its witness good.
  abbrev pub is_live : Extensible → Bool
  is_live e =
      ltb index e.valid_block_end
      && (chain.is_extensible_allowed e.sender && chain.verify_witness e)

  abbrev pub if_live : Option Extensible → Option Extensible
  if_live none = none
  if_live (some e) = if is_live e then some e else none

  unfoldable pub live_only : List Extensible → List Extensible
  live_only [] = []
  live_only (x ∷ l) = let rest = live_only l in if is_live x then x ∷ rest else rest

  is_stale-is_live : (e : Extensible) → is_stale index chain e ≡ not (is_live e)
  is_stale-is_live e = ground arith

  -- What the sweep of a list deletes from the map.
  unfoldable pub stale_in : ℕ → List Extensible → Bool
  stale_in h [] = false
  stale_in h (x ∷ l) = ((x.hash == h) && not (is_live x)) || stale_in h l

  sweep_list-live_only :
      (l : List Extensible) (v : Map ℕ Extensible) → (sweep_list index chain l v).0 ≡ live_only l
  unfolding sweep_list live_only
  sweep_list-live_only [] v = refl
  sweep_list-live_only (x ∷ l) v = elim (Bool-cases (is_live x)) [
    | inl live ↦ rw (is_stale-is_live x, live) (ap (λ z. x ∷ z) (sweep_list-live_only l v))
    | inr dead ↦ rw (is_stale-is_live x, dead) (sweep_list-live_only l (delete x.hash v))
  ]

  sweep_list-verified :
      (l : List Extensible) (v : Map ℕ Extensible) (h : ℕ)
      → lookup h (sweep_list index chain l v).1 ≡ (if stale_in h l then none else lookup h v)
  unfolding sweep_list stale_in
  sweep_list-verified [] v h = refl
  sweep_list-verified (x ∷ l) v h = elim (Bool-cases (is_live x)) [
    | inl live ↦ rw (is_stale-is_live x, live) (sweep_list-verified l v h ∙ ground arith)
    | inr dead ↦
        rw (is_stale-is_live x, dead)
          (sweep_list-verified l (delete x.hash v) h ∙ ground (arith, lookup-delete x.hash h v))
  ]

  unfoldable pub stale_any : ℕ → Map ℕ (List Extensible) → Bool
  stale_any h [] = false
  stale_any h ((s, l) ∷ ss) = stale_in h l || stale_any h ss

  pub sweep_senders-verified :
      (ss : Map ℕ (List Extensible)) (v : Map ℕ Extensible) (h : ℕ)
      → lookup h (sweep_senders index chain ss v).1 ≡ (if stale_any h ss then none else lookup h v)
  unfolding sweep_senders stale_any
  sweep_senders-verified [] v h = refl
  sweep_senders-verified ((s, l) ∷ ss) v h =
      sweep_senders-verified ss (sweep_list index chain l v).1 h
      ∙ ground (arith, sweep_list-verified l v h)

  nil_queue : (l : List Extensible) → (length l == 0) ≡ true → l ≡ []
  nil_queue [] e = refl
  nil_queue (x ∷ l) e = absurd (ground (arith, e))

  pub sweep_senders-live_only :
      (ss : Map ℕ (List Extensible)) (v : Map ℕ Extensible) (s : ℕ)
      → HasSenderOnce ss
      → or_nil (lookup s (sweep_senders index chain ss v).0) ≡ live_only (or_nil (lookup s ss))
  unfolding sweep_senders lookup
  sweep_senders-live_only [] v s once = unfold live_only in refl
  sweep_senders-live_only ((t, l) ∷ ss) v s (alone, once) =
      let swept = sweep_list index chain l v in
      let rest = sweep_senders-live_only ss swept.1 s once in
      let kept : swept.0 ≡ live_only l = sweep_list-live_only l v in
      elim (Bool-cases (t == s)) [
        | inl same ↦ elim (Bool-cases (length swept.0 == 0)) [
          | inl empty ↦
              let gone : lookup s ss ≡ none =
                subst (λ x. lookup x ss ≡ none) ((==_iff t s).0 same) alone in
              rw (empty, same)
                (rest ∙ rw gone (unfold live_only in sym (sym kept ∙ nil_queue swept.0 empty)))
          | inr some_left ↦ rw (some_left, same) kept
        ]
        | inr other ↦ elim (Bool-cases (length swept.0 == 0)) [
          | inl empty ↦ rw (empty, other) rest
          | inr some_left ↦ rw (some_left, other) rest
        ]
      ]

  pub find-live_only :
      (l : List Extensible) (h : ℕ) → IsDistinct l → find h (live_only l) ≡ if_live (find h l)
  unfolding find live_only
  find-live_only [] h d = refl
  find-live_only (x ∷ l) h d = elim (Bool-cases (x.hash == h)) [
    | inl same ↦
        let alone : find h l ≡ none = subst (λ k. find k l ≡ none) ((==_iff x.hash h).0 same) d.0 in
        elim (Bool-cases (is_live x)) [
          | inl live ↦ rw (live, same) (rw live refl)
          | inr dead ↦ rw (dead, same) (find-live_only l h d.1 ∙ rw alone (rw dead refl))
        ]
    | inr other ↦ elim (Bool-cases (is_live x)) [
      | inl live ↦ rw (live, other) (find-live_only l h d.1)
      | inr dead ↦ rw (dead, other) (find-live_only l h d.1)
    ]
  ]

  pub live_only-le : (l : List Extensible) → length (live_only l) ≤ length l
  unfolding live_only
  live_only-le [] = omega arith
  live_only-le (x ∷ l) = ground (arith, live_only-le l)

  pub live_only-IsDistinct : (l : List Extensible) → IsDistinct l → IsDistinct (live_only l)
  unfolding live_only
  live_only-IsDistinct [] d = tt
  live_only-IsDistinct (x ∷ l) d = elim (Bool-cases (is_live x)) [
    | inl live ↦ rw live (find-live_only l x.hash d.1 ∙ rw d.0 refl, live_only-IsDistinct l d.1)
    | inr dead ↦ rw dead (live_only-IsDistinct l d.1)
  ]
