-- ===== src/Bqueue/CatchUp.antt =====
-- pkg/network/bqueue/queue.go: that the inner loop of Run ends, and how far it takes the chain.
use epicchain_go.Common.{
  subst, ℕ, zero, suc, ◌+◌, ◌-◌, ◌%◌, ◌^◌, ◌≤◌, ◌<◌, ◌≡◌, refl, sym, ap, ◌∙◌, inl, inr, true, false,
  ◌&&◌, ◌==◌, Bool, Option, none, some, List, [], ◌∷◌, arith, get_elem?, set, Option-cases, ==-refl,
  if◌then◌else◌, length,
}
use epicchain_go.Bqueue.Queue.{Block, Queue, slot, take_next, clear_taken}
use epicchain_go.Bqueue.Placed.{get_elem?-set, IsRing, clear_taken-IsRing, clear_between_idle}
use epicchain_go.Bqueue.Moves.{Reach, Reach-IsRing, filled}
use epicchain_go.Bqueue.Serve.{Blockqueuer, Served, serve, run}

filled-set-none :
    (l : List (Option Block)) (i : ℕ) (c : Block)
    → slot (get_elem? l i) ≡ some c
    → suc (filled (set l i none)) ≡ filled l
unfolding filled
filled-set-none [] i c e = cc
filled-set-none (none ∷ l) zero c e = cc
filled-set-none (some x ∷ l) zero c e = refl
filled-set-none (none ∷ l) (suc i) c e = filled-set-none l i c e
filled-set-none (some x ∷ l) (suc i) c e = ap (λ n. suc n) (filled-set-none l i c e)

filled-le : (l : List (Option Block)) → filled l ≤ length l
unfolding filled
filled-le [] = omega arith
filled-le (none ∷ l) = let le = filled-le l in omega arith
filled-le (some b ∷ l) = let le = filled-le l in omega arith

Reach-filled : {bq : Queue} → Reach bq → filled bq.queue ≤ 2000
Reach-filled {bq} r = subst (λ n. filled bq.queue ≤ n) (Reach-IsRing r).sized (filled-le bq.queue)

-- The block that was taken is cleared.
clear_taken-set :
    (p : ℕ) (b : Block) (bq : Queue)
    → slot (get_elem? bq.queue p) ≡ some b
    → (clear_taken p b bq).queue ≡ set bq.queue p none
unfolding clear_taken
clear_taken-set p b bq e = rw (e, ==-refl b.index, ==-refl b.id) refl

clear_taken-filled :
    (p : ℕ) (b : Block) (bq : Queue)
    → slot (get_elem? bq.queue p) ≡ some b
    → suc (filled (clear_taken p b bq).queue) ≡ filled bq.queue
clear_taken-filled p b bq e = rw (clear_taken-set p b bq e) (filled-set-none bq.queue p b e)

-- indexToPosition of the next height
abbrev next_position : ℕ → ℕ
next_position h = ((h + 1) % 2 ^ 32) % 2000

other_position :
    (h i : ℕ) → i + 1 < 2000 → h + 1 < 2 ^ 32 → (next_position h == (h + 1 + suc i) % 2000) ≡ false
other_position h i lt small = ground arith

-- Blocks that a chain accepts stand ready for the next heights.
abbrev pub Ready : (Block → Type 0) → ℕ → ℕ → List (Option Block) → Type 0
Ready Good h m l =
    (i : ℕ)
    → i < m
    → (b : Block) × ((slot (get_elem? l ((h + 1 + i) % 2000)) ≡ some b)
        × ((b.index ≡ h + 1 + i) × Good b))

Ready-clear_taken :
    (Good : Block → Type 0) (h m : ℕ) (b : Block) (bq : Queue)
    → suc m ≤ 2000
    → h + 1 < 2 ^ 32
    → slot (get_elem? bq.queue (next_position h)) ≡ some b
    → Ready Good h (suc m) bq.queue
    → Ready Good (h + 1) m (clear_taken (next_position h) b bq).queue
Ready-clear_taken Good h m b bq le small at ready i lt =
    let (c, (e, (ix, good))) = ready (suc i) (omega arith) in
    let same : (h + 1 + 1 + i) % 2000 ≡ (h + 1 + suc i) % 2000 = ap (λ x. x % 2000) (omega arith) in
    (
      c,
      (
        rw
            (
              clear_taken-set (next_position h) b bq at,
              same,
              get_elem?-set bq.queue (next_position h) ((h + 1 + suc i) % 2000) none,
              other_position h i (omega arith) small,
            )
            e,
        (ix ∙ omega arith, good),
      ),
    )

module _ {C : Type 0} (api : Blockqueuer C) where
  -- The next block is not in the queue that is left.
  abbrev pub IsDone : Served C → Type 0
  IsDone r = slot (get_elem? r.queue.queue (next_position (api.block_height r.chain))) ≡ none

  -- A chain that does not go back, and takes the next block if it is good.
  pub record IsForward (Good : Block → Type 0) : Type 0 where
    pub bounded : (c : C) → api.block_height c < 2 ^ 32
    pub grows : (c : C) (b : Block) → api.block_height c ≤ api.block_height (api.add_block b c).1
    pub accepts :
        (c : C) (b : Block)
        → b.index ≡ api.block_height c + 1
        → Good b
        → api.block_height (api.add_block b c).1 ≡ api.block_height c + 1

  -- The chain has come to the height at least, and the next block is not there.
  abbrev pub IsAhead : ℕ → Served C → Type 0
  IsAhead h r = (h ≤ api.block_height r.chain) × IsDone r

module _ {C : Type 0} (api : Blockqueuer C) (relays : Bool) where
  -- The blocks relayed after a round.
  abbrev relay : Block → Bool → List Block → List Block
  relay b ok relayed = if ok && relays then b ∷ relayed else relayed

  serve_end :
      (n k : ℕ) (c : C) (bq : Queue) (bs : List Block)
      → IsRing bq
      → k < 2 ^ 32
      → api.block_height c < 2 ^ 32
      → slot (get_elem? bq.queue (next_position (api.block_height c))) ≡ none
      → serve api relays (suc n) k c bq bs
        ≡ some (record { chain = c; queue = bq; last_height = api.block_height c; relayed = bs })
  unfolding serve take_next
  serve_end n k c bq bs r sk sc e =
      rw (serve, take_next, e, clear_between_idle (api.block_height c - k) k bq (omega arith) r)
        refl

  serve_round :
      (n k : ℕ) (c : C) (bq : Queue) (bs : List Block) (b : Block)
      → IsRing bq
      → k < 2 ^ 32
      → api.block_height c < 2 ^ 32
      → slot (get_elem? bq.queue (next_position (api.block_height c))) ≡ some b
      → serve api relays (suc n) k c bq bs ≡ (
          let added = api.add_block b c in
          serve api relays n
            (api.block_height c)
            added.1
            (clear_taken (next_position (api.block_height c)) b bq)
            (relay b added.0 bs))
  unfolding serve take_next
  serve_round n k c bq bs b r sk sc e =
      rw (serve, take_next, e, clear_between_idle (api.block_height c - k) k bq (omega arith) r)
        refl

  serve-IsDone :
      (n k : ℕ) (c : C) (bq : Queue) (bs : List Block)
      → ((d : C) → api.block_height d < 2 ^ 32)
      → IsRing bq
      → k < 2 ^ 32
      → filled bq.queue < n
      → (r : Served C) × ((serve api relays n k c bq bs ≡ some r) × IsDone api r)
  serve-IsDone zero k c bq bs small r sk lt = absurd (omega arith)
  serve-IsDone (suc n) k c bq bs small r sk lt =
      let h = api.block_height c in
      elim (Option-cases (slot (get_elem? bq.queue (next_position h)))) [
        | inl gone ↦ (_, (serve_end n k c bq bs r sk (small c) gone, gone))
        | inr (b, at) ↦
            let added = api.add_block b c in
            let fewer = clear_taken-filled (next_position h) b bq at in
            rw (serve_round n k c bq bs b r sk (small c) at) (
              serve-IsDone n h added.1 (clear_taken (next_position h) b bq) (relay b added.0 bs)
                small (clear_taken-IsRing (next_position h) b bq r) (small c) (omega arith))
      ]

  -- On every queue that its moments lead to and that has a signal, the inner loop of Run ends, after 2001
  -- rounds at most, whatever the chain, with heights of 32 bits, answers to AddBlock; and then the place of
  -- the block after the chain's height is free.
  pub run-IsDone :
      (n k : ℕ) (c : C) (bq : Queue)
      → ((d : C) → api.block_height d < 2 ^ 32)
      → Reach bq
      → bq.signalled ≡ true
      → k < 2 ^ 32
      → 2000 < n
      → (r : Served C) × ((run api relays n k c bq ≡ some r) × IsDone api r)
  unfolding run
  run-IsDone n k c bq small reach woken sk lt =
      let ring = Reach-IsRing reach in
      let le = Reach-filled reach in
      rw woken (
        serve-IsDone n k c (record bq { signalled = false }) [] small
          (record { placed = ring.placed; sized = ring.sized }) sk (omega arith))

  serve-IsAhead :
      (Good : Block → Type 0)
      → IsForward api Good
      → (n m k : ℕ) (c : C) (bq : Queue) (bs : List Block) → IsRing bq
      → k < 2 ^ 32
      → m ≤ 2000
      → api.block_height c + m < 2 ^ 32
      → Ready Good (api.block_height c) m bq.queue
      → filled bq.queue < n
      → (r : Served C) × ((serve api relays n k c bq bs ≡ some r)
          × IsAhead api (api.block_height c + m) r)
  serve-IsAhead Good fw zero m k c bq bs r sk le sm ready lt = absurd (omega arith)
  serve-IsAhead Good fw (suc n) zero k c bq bs r sk le sm ready lt =
      let h = api.block_height c in
      elim (Option-cases (slot (get_elem? bq.queue (next_position h)))) [
        | inl gone ↦ (_, (serve_end n k c bq bs r sk (fw.bounded c) gone, (omega arith, gone)))
        | inr (b, at) ↦
            let added = api.add_block b c in
            let fewer = clear_taken-filled (next_position h) b bq at in
            let grown = fw.grows c b in
            let later = fw.bounded added.1 in
            let (s, (e, (up, free))) =
              serve-IsAhead Good fw n zero h added.1 (clear_taken (next_position h) b bq)
                (relay b added.0 bs) (clear_taken-IsRing (next_position h) b bq r) (fw.bounded c) le
                (omega arith) (λ i lt. absurd (omega arith)) (omega arith) in
            (s, (serve_round n k c bq bs b r sk (fw.bounded c) at ∙ e, (omega arith, free)))
      ]
  serve-IsAhead Good fw (suc n) (suc m) k c bq bs r sk le sm ready lt =
      let h = api.block_height c in
      let (b, (here, (ix, good))) = ready 0 (omega arith) in
      let position : next_position h ≡ (h + 1 + 0) % 2000 = omega arith in
      let at : slot (get_elem? bq.queue (next_position h)) ≡ some b = rw position here in
      let added = api.add_block b c in
      let up1 : api.block_height added.1 ≡ h + 1 = fw.accepts c b (ix ∙ omega arith) good in
      let fewer = clear_taken-filled (next_position h) b bq at in
      let left = Ready-clear_taken Good h m b bq le (omega arith) at ready in
      let (s, (e, (up, free))) =
        serve-IsAhead Good fw n m h added.1 (clear_taken (next_position h) b bq)
          (relay b added.0 bs) (clear_taken-IsRing (next_position h) b bq r) (fw.bounded c)
          (omega arith) (omega arith)
          (subst (λ x. Ready Good x m (clear_taken (next_position h) b bq).queue) (sym up1) left)
          (omega arith) in
      (s, (serve_round n k c bq bs b r sk (fw.bounded c) at ∙ e, (omega arith, free)))

  pub run-IsAhead :
      (Good : Block → Type 0)
      → IsForward api Good
      → (n m k : ℕ) (c : C) (bq : Queue) → Reach bq
      → bq.signalled ≡ true
      → k < 2 ^ 32
      → m ≤ 2000
      → api.block_height c + m < 2 ^ 32
      → Ready Good (api.block_height c) m bq.queue
      → 2000 < n
      → (r : Served C) × ((run api relays n k c bq ≡ some r)
          × IsAhead api (api.block_height c + m) r)
  unfolding run
  run-IsAhead Good fw n m k c bq reach woken sk le sm ready lt =
      let ring = Reach-IsRing reach in
      let few = Reach-filled reach in
      rw woken (
        serve-IsAhead Good fw n m k c (record bq { signalled = false }) []
          (record { placed = ring.placed; sized = ring.sized }) sk le sm ready (omega arith))
