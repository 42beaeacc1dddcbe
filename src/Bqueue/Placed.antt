-- ===== src/Bqueue/Placed.antt =====
-- pkg/network/bqueue/queue.go: where blocks stand in the ring.
use epicchain_go.Common.{
  ◌≢◌, ℕ, zero, suc, ◌+◌, ◌%◌, ◌^◌, ◌<◌, ◌≡◌, refl, sym, ap, ◌∙◌, inl, inr, false, ◌&&◌, ◌||◌, ◌==◌,
  ltb, leb, Option, none, some, List, [], ◌∷◌, arith, length, get_elem?, set, replicate, Bool-cases,
  length-set, length-replicate, if◌then◌else◌,
}
use epicchain_go.Bqueue.Queue.{
  Block, Queue, new, slot, is_newer, enqueue, put_block, clear_old, clear_between, clear_same,
  clear_taken, discard,
}

-- A block stands at the position of its index.
abbrev pub IsPlaced : List (Option Block) → Type 0
IsPlaced l = (p : ℕ) (b : Block) → get_elem? l p ≡ some (some b) → b.index % 2000 ≡ p

pub get_elem?-set :
    {A : Type 0} (l : List A) (i j : ℕ) (v : A)
    → get_elem? (set l i v) j ≡ (if (i == j) && ltb i (length l) then some v else get_elem? l j)
get_elem?-set [] i j v = ground arith
get_elem?-set (x ∷ l) zero zero v = ground arith
get_elem?-set (x ∷ l) zero (suc j) v = ground arith
get_elem?-set (x ∷ l) (suc i) zero v = ground arith
get_elem?-set (x ∷ l) (suc i) (suc j) v = ground (arith, get_elem?-set l i j v)

pub get_elem?-replicate :
    (n j : ℕ) (b : Block) → get_elem? (replicate {A = Option Block} n none) j ≢ some (some b)
get_elem?-replicate zero j b = λ e. cc
get_elem?-replicate (suc n) zero b = λ e. cc
get_elem?-replicate (suc n) (suc j) b = get_elem?-replicate n j b

IsPlaced-replicate : (n : ℕ) → IsPlaced (replicate n none)
IsPlaced-replicate n p b e = absurd (get_elem?-replicate n p b e)

IsPlaced-set-some :
    (l : List (Option Block)) (b : Block) → IsPlaced l → IsPlaced (set l (b.index % 2000) (some b))
IsPlaced-set-some l b h p c e = elim (Bool-cases (b.index % 2000 == p)) [
  | inl same ↦ elim (Bool-cases (ltb p (length l))) [
    | inl inside ↦ ground (arith, get_elem?-set l (b.index % 2000) p (some b))
    | inr outside ↦ h p c (sym (get_elem?-set l (b.index % 2000) p (some b) ∙ ground arith) ∙ e)
  ]
  | inr other ↦ h p c (sym (get_elem?-set l (b.index % 2000) p (some b) ∙ rw other refl) ∙ e)
]

IsPlaced-set-none : (l : List (Option Block)) (i : ℕ) → IsPlaced l → IsPlaced (set l i none)
IsPlaced-set-none l i h p c e = elim (Bool-cases ((i == p) && ltb i (length l))) [
  | inl same ↦
      let gone : get_elem? (set l i none) p ≡ some none = get_elem?-set l i p none ∙ rw same refl in
      absurd (cc (gone, e))
  | inr other ↦ h p c (sym (get_elem?-set l i p none ∙ rw other refl) ∙ e)
]

pub slot-some : (o : Option (Option Block)) (b : Block) → slot o ≡ some b → o ≡ some (some b)
slot-some none b e = cc
slot-some (some o) b e = ap (λ z. some z) e

-- The ring has its size, and blocks stand at the positions of their indices.
pub record IsRing (bq : Queue) : Type 0 where
  pub placed : IsPlaced bq.queue
  pub sized : length bq.queue ≡ 2000

pub new-IsRing : IsRing new
new-IsRing = record {
  placed = IsPlaced-replicate 2000;
  sized = length-replicate {A = Option Block} 2000 none;
}

enqueue-IsRing : (b : Block) (bq : Queue) → IsRing bq → IsRing (enqueue b bq)
unfolding enqueue
enqueue-IsRing b bq r =
    elim (Bool-cases (is_newer b (slot (get_elem? bq.queue (b.index % 2000))))) [
      | inl newer ↦ rw newer (record {
        placed = IsPlaced-set-some bq.queue b r.placed;
        sized = length-set bq.queue (b.index % 2000) (some b) ∙ r.sized;
      })
      | inr older ↦ rw older r
    ]

pub put_block-IsRing : (h : ℕ) (b : Block) (bq : Queue) → IsRing bq → IsRing (put_block h b bq)
unfolding put_block
put_block-IsRing h b bq r =
    let k = enqueue-IsRing b bq r in
    elim (Bool-cases (bq.discarded || (leb b.index h || ltb ((h + 2000) % 2 ^ 32) b.index))) [
      | inl refused ↦ rw refused r
      | inr taken ↦ rw taken (record { placed = k.placed; sized = k.sized })
    ]

clear_same-IsRing :
    (p : ℕ) (b : Block) (o : Option Block) (bq : Queue) → IsRing bq → IsRing (clear_same p b o bq)
clear_same-IsRing p b none bq r = r
clear_same-IsRing p b (some c) bq r = elim (Bool-cases ((c.index == b.index) && (c.id == b.id))) [
  | inl same ↦ rw same (record {
    placed = IsPlaced-set-none bq.queue p r.placed;
    sized = length-set bq.queue p none ∙ r.sized;
  })
  | inr other ↦ rw other r
]

pub clear_taken-IsRing : (p : ℕ) (b : Block) (bq : Queue) → IsRing bq → IsRing (clear_taken p b bq)
unfolding clear_taken
clear_taken-IsRing p b bq r =
    clear_same-IsRing p b (slot (get_elem? bq.queue p)) _
      (record { placed = r.placed; sized = r.sized })

pub discard-IsRing : (bq : Queue) → IsRing bq → IsRing (discard bq)
unfolding discard
discard-IsRing bq r = elim (Bool-cases bq.discarded) [
  | inl done ↦ rw done (record { placed = r.placed; sized = r.sized })
  | inr first ↦ rw first (record {
    placed = IsPlaced-replicate (length bq.queue);
    sized = length-replicate (length bq.queue) none ∙ r.sized;
  })
]

clear_old-idle :
    (i : ℕ) (bq : Queue) (o : Option Block)
    → i + 1 < 2 ^ 32
    → slot (get_elem? bq.queue (((i + 1) % 2 ^ 32) % 2000)) ≡ o
    → IsRing bq
    → clear_old i (((i + 1) % 2 ^ 32) % 2000) o bq ≡ bq
clear_old-idle i bq none small e r = refl
clear_old-idle i bq (some b) small e r =
    let at = r.placed (((i + 1) % 2 ^ 32) % 2000) b (slot-some _ b e) in
    let other : (b.index == i) ≡ false = ground arith in rw other refl

pub clear_between_idle :
    (n i : ℕ) (bq : Queue) → i + n < 2 ^ 32 → IsRing bq → clear_between n i bq ≡ bq
unfolding clear_between
clear_between_idle zero i bq small r = refl
clear_between_idle (suc n) i bq small r =
    rw
      (clear_old-idle i bq (slot (get_elem? bq.queue (((i + 1) % 2 ^ 32) % 2000))) (omega arith)
        refl r)
      (clear_between_idle n (i + 1) bq (omega arith) r)
