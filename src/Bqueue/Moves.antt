-- ===== src/Bqueue/Moves.antt =====
-- pkg/network/bqueue/queue.go: the queue through sequences of its moments.
use epicchain_go.Common.{
  subst, ==_iff, ℕ, zero, suc, ◌+◌, ◌-◌, ◌%◌, ◌^◌, ◌≤◌, ◌<◌, ◌≡◌, refl, sym, ap, ◌∙◌, inl, inr,
  true, false, ◌&&◌, ◌||◌, ◌==◌, ltb, leb, Option, none, some, List, [], ◌∷◌, arith, get_elem?, set,
  Bool-cases, if◌then◌else◌,
}
use epicchain_go.Bqueue.Queue.{
  Block, Queue, incr, new, slot, is_newer, enqueue, put_block, take_next, clear_taken, discard,
}
use epicchain_go.Bqueue.Placed.{
  get_elem?-set, IsRing, new-IsRing, put_block-IsRing, clear_taken-IsRing, discard-IsRing,
  clear_between_idle,
}

-- The moments of a queue: PutBlock at some height, the two parts of a round of Run, and Discard.
pub data Step (bq : Queue) : Queue → Type 0 where
  puts : (h : ℕ) (b : Block) → Step bq (put_block h b bq)
  takes :
      (last_height h : ℕ) → last_height ≤ h → h < 2 ^ 32 → Step bq (take_next last_height h bq).1
  clears : (p : ℕ) (b : Block) → Step bq (clear_taken p b bq)
  discards : Step bq (discard bq)

pub data Reach : Queue → Type 0 where
  fresh : Reach new
  next : {bq bq' : Queue} → Reach bq → Step bq bq' → Reach bq'

Step-IsRing : (bq bq' : Queue) → Step bq bq' → IsRing bq → IsRing bq'
unfolding take_next
Step-IsRing bq bq' (puts h b) r = put_block-IsRing h b bq r
Step-IsRing bq bq' (takes k h le small) r =
    subst IsRing (sym (clear_between_idle (h - k) k bq (omega arith) r)) r
Step-IsRing bq bq' (clears p b) r = clear_taken-IsRing p b bq r
Step-IsRing bq bq' discards r = discard-IsRing bq r

pub Reach-IsRing : {bq : Queue} → Reach bq → IsRing bq
Reach-IsRing fresh = new-IsRing
Reach-IsRing (next r st) = Step-IsRing _ _ st (Reach-IsRing r)

-- On every queue that its moments lead to, the first part of a round of Run leaves the queue as it is: the
-- loop that is to clear the blocks between the last height and the present one clears none.
pub take_next_idle :
    (bq : Queue) (last_height h : ℕ)
    → Reach bq
    → last_height ≤ h
    → h < 2 ^ 32
    → (take_next last_height h bq).1 ≡ bq
unfolding take_next
take_next_idle bq k h r le small = clear_between_idle (h - k) k bq (omega arith) (Reach-IsRing r)

-- On every queue that its moments lead to and that is not discarded, PutBlock of a block that is above the
-- height, by at most the size of the ring, puts it at its position if that is free or has a block with a
-- smaller index, and leaves every other position, and this one otherwise, as it is.
pub put_block_lem :
    (bq : Queue) (h : ℕ) (b : Block)
    → Reach bq
    → bq.discarded ≡ false
    → h < b.index
    → b.index ≤ h + 2000
    → h + 2000 < 2 ^ 32
    → (j : ℕ)
    → get_elem? (put_block h b bq).queue j ≡ (
        if (b.index % 2000 == j) && is_newer b (slot (get_elem? bq.queue j))
        then some (some b)
        else get_elem? bq.queue j)
unfolding put_block enqueue
put_block_lem bq h b r live above within small j =
    let ring = Reach-IsRing r in
    let accepted : (bq.discarded || (leb b.index h || ltb ((h + 2000) % 2 ^ 32) b.index)) ≡ false =
      ground arith in
    rw accepted (elim (Bool-cases (b.index % 2000 == j)) [
      | inl same ↦
          rw (same, ← (==_iff (b.index % 2000) j).0 same)
            (elim (Bool-cases (is_newer b (slot (get_elem? bq.queue (b.index % 2000))))) [
              | inl newer ↦ rw newer (
                  get_elem?-set bq.queue (b.index % 2000) (b.index % 2000) (some b)
                  ∙ ground (arith, ring.sized))
              | inr older ↦ rw older (ground arith)
            ])
      | inr other ↦
          rw other (elim (Bool-cases (is_newer b (slot (get_elem? bq.queue (b.index % 2000))))) [
            | inl newer ↦
                rw newer (get_elem?-set bq.queue (b.index % 2000) j (some b) ∙ rw other refl)
            | inr older ↦ rw older refl
          ])
    ])

-- How many blocks the ring has.
unfoldable pub filled : List (Option Block) → ℕ
filled [] = 0
filled (none ∷ bs) = filled bs
filled (some b ∷ bs) = suc (filled bs)

filled-set :
    (l : List (Option Block)) (i : ℕ) (b c : Block)
    → slot (get_elem? l i) ≡ some c
    → filled (set l i (some b)) ≡ filled l
unfolding filled
filled-set [] i b c e = refl
filled-set (none ∷ l) zero b c e = cc
filled-set (some x ∷ l) zero b c e = refl
filled-set (none ∷ l) (suc i) b c e = filled-set l i b c e
filled-set (some x ∷ l) (suc i) b c e = ap (λ n. suc n) (filled-set l i b c e)

-- PutBlock of a block that it accepts, whose position has a block with a smaller index, counts one block
-- more, although the ring has as many as before.
pub put_block_miscounts :
    (bq : Queue) (h : ℕ) (b c : Block)
    → bq.discarded ≡ false
    → h < b.index
    → b.index ≤ (h + 2000) % 2 ^ 32
    → slot (get_elem? bq.queue (b.index % 2000)) ≡ some c
    → c.index < b.index
    → ((put_block h b bq).len ≡ incr bq.len) × (filled (put_block h b bq).queue ≡ filled bq.queue)
unfolding put_block enqueue
put_block_miscounts bq h b c live above within at older =
    let accepted : (bq.discarded || (leb b.index h || ltb ((h + 2000) % 2 ^ 32) b.index)) ≡ false =
      ground arith in
    let newer : is_newer b (slot (get_elem? bq.queue (b.index % 2000))) ≡ true =
      rw at (ground arith) in
    rw (accepted, newer) (refl, filled-set bq.queue (b.index % 2000) b c at)
