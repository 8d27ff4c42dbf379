-- ===== src/Pool/Get.antt =====
-- `pool_get` of pool.c.
use fast_http.Prelude.{
  ℕ, zero, suc, ◌+◌, ◌-◌, ◌*◌, ◌/◌, ◌%◌, ◌^◌, ◌≤◌, ◌<◌, ◌≡◌, ◌≢◌, refl, sym, ap, ◌∙◌, Bool, true,
  false, ◌&&◌, none, some, List, [], ◌∷◌, ◌++◌, arith, bit_or, u32, leb, ◌==◌, length, drop, set,
  get_or, inl, inr, Bool-cases, every_below, every_below_passes, dec_le, dec_lt, length-drop,
}
use native.Mathlib.Nat.{mul-le-mul_right}
use fast_http.Prelude.Bits.{bit_or-disjoint}
use fast_http.Prelude.Digits.{digit}
use fast_http.Pool.{Pool, node_size, first, in_block, find_free, pool_get}
use fast_http.Pool.Words.{AllWords, Found, NoneFree, find_free_lem}
use fast_http.Pool.Slots.{slot_digit, taken, get_or-set_ne}
use fast_http.Pool.Held.{IsValid, held, elem, slot_at, slot_at-InSlot}
use fast_http.Pool.Nodes.{elem-added, elem-added_other, Distinct-added}
use fast_http.Pool.Change.{held-changed, held-unchanged, held-slot_at, held-in_block, held_outside}

-- What a call returns for an object that was free.
pub record Gets (p : Pool) (result : Pool × ℕ) : Type 0 where
  pub after : Pool
  pub object : ℕ
  pub returns : result ≡ (after, object)
  pub valid : IsValid after
  pub was_free : held p object ≡ false
  pub is_held : held after object ≡ true
  pub others : (q : ℕ) → q ≢ object → held after q ≡ held p q

get_or-drop : (n : ℕ) (l : List ℕ) (m : ℕ) → get_or (drop n l) m 0 ≡ get_or l (n + m) 0
get_or-drop zero l m = ap (λ k. get_or l k 0) {x = m} {y = 0 + m} (omega arith)
get_or-drop (suc n) [] m = refl
get_or-drop (suc n) (x ∷ l) m =
    get_or-drop n l m ∙ ap (λ k. get_or (x ∷ l) k 0) {x = suc (n + m)} {y = suc n + m} (omega arith)

AllWords-drop : (n : ℕ) (l : List ℕ) → AllWords l → AllWords (drop n l)
AllWords-drop zero l w = w
AllWords-drop (suc n) [] w = w
AllWords-drop (suc n) (x ∷ l) (a, w) = AllWords-drop n l w

-- The words in front of the place where the search ended are full.
full_up_to :
    {p : Pool} (n : ℕ)
    → IsValid p
    → ((m : ℕ) → m < n → get_or (drop p.last p.bits) m 0 ≡ 0xffff_ffff)
    → (m : ℕ) → m < p.last + n
    → get_or p.bits m 0 ≡ 0xffff_ffff
full_up_to {p} n v full m h = elim (dec_lt m p.last) [
  | yes before ↦ v.full m before
  | no behind ↦
      ap (λ k. get_or p.bits k 0) {x = m} {y = p.last + (m - p.last)} (omega arith)
      ∙ (sym (get_or-drop p.last p.bits (m - p.last)) ∙ full (m - p.last) (omega arith))
]

slot-returns :
    (p : Pool) (entry i j : ℕ)
    → find_free (drop p.last p.bits) p.last ≡ some (i, j, 2 ^ j)
    → first p + u32 (bit_or (i * 2 ^ 5) j * p.size) ≡ slot_at p (i * 32 + j)
    → pool_get p entry ≡ (
      record p { last = i; bits = set p.bits i (bit_or (get_or p.bits i 0) (2 ^ j)) },
      slot_at p (i * 32 + j),
    )
unfolding pool_get
slot-returns p entry i j e place =
    rw (pool_get, e)
      (ap
        (λ a. (record p { last = i; bits = set p.bits i (bit_or (get_or p.bits i 0) (2 ^ j)) }, a))
        place)

-- The code's address of an object is where that object lies.
address :
    {p : Pool} (i j : ℕ)
    → IsValid p
    → j < 32
    → i * 32 + j < p.capacity
    → first p + u32 (bit_or (i * 2 ^ 5) j * p.size) ≡ slot_at p (i * 32 + j)
address {p} i j v low inside =
    let number : bit_or (i * 2 ^ 5) j * p.size ≡ (i * 32 + j) * p.size =
      ap (λ n. n * p.size) (bit_or-disjoint 5 i j low) in
    let below : (i * 32 + j) * p.size ≤ p.capacity * p.size =
      mul-le-mul_right {m = i * 32 + j} {n = p.capacity} p.size (omega arith) in
    omega (arith, number, below, v.fits, v.whole)

-- An object of the block.
get_slot :
    {p : Pool} (entry : ℕ)
    → IsValid p
    → Found (drop p.last p.bits) p.last (find_free (drop p.last p.bits) p.last)
    → Gets p (pool_get p entry)
get_slot {p} entry v w =
    let i = p.last + w.n in
    let k = i * 32 + w.j in
    let within : i < length p.bits =
      omega (arith, w.within, length-drop p.last p.bits, v.last_in) in
    let low : k < p.capacity = omega (arith, w.low, v.whole) in
    let d = taken p.bits i w.j within w.low in
    let word : get_or p.bits (k / 32) 0 ≡ get_or (drop p.last p.bits) w.n 0 =
      ap (λ n. get_or p.bits n 0) {x = k / 32} {y = i} (omega (arith, w.low))
      ∙ sym (get_or-drop p.last p.bits w.n) in
    let clear : slot_digit p.bits k ≡ 0 =
      ap (digit (get_or p.bits (k / 32) 0)) {x = k % 32} {y = w.j} (omega (arith, w.low))
      ∙ (ap (λ b. digit b w.j) word ∙ w.free) in
    record {
      after = record p { last = i; bits = set p.bits i (bit_or (get_or p.bits i 0) (2 ^ w.j)) };
      object = slot_at p k;
      returns = slot-returns p entry i w.j w.returns (address i w.j v w.low low);
      valid = record {
        whole = omega (arith, v.whole, d.same_length);
        fits = v.fits;
        sized = v.sized;
        words = d.words v.words;
        last_in = omega (arith, d.same_length);
        full = λ m h. get_or-set_ne p.bits i m _ (omega arith) ∙ full_up_to w.n v w.full_before m h;
        distinct = v.distinct;
      };
      was_free = held-slot_at k v low ∙ ap (λ n. n == 1) clear;
      is_held = held-changed p i v low d;
      others = held-unchanged p i v low d;
    }

abbrev grown : Pool → ℕ → Pool
grown p entry = record p { last = p.capacity / 2 ^ 5; head = p.head ++ entry ∷ [] }

node-returns :
    (p : Pool) (entry : ℕ)
    → find_free (drop p.last p.bits) p.last ≡ none
    → pool_get p entry ≡ (grown p entry, entry + node_size)
unfolding pool_get
node-returns p entry e = rw (pool_get, e) refl

-- An object of its own.
get_node :
    {p : Pool} (entry : ℕ)
    → IsValid p
    → in_block p (entry + node_size) ≡ false
    → elem entry p.head ≡ false
    → NoneFree (drop p.last p.bits) (find_free (drop p.last p.bits) p.last)
    → Gets p (pool_get p entry)
get_node {p} entry v out new w = record {
  after = record p { last = p.capacity / 2 ^ 5; head = p.head ++ entry ∷ [] };
  object = entry + node_size;
  returns = node-returns p entry w.returns;
  valid = record {
    whole = v.whole;
    fits = v.fits;
    sized = v.sized;
    words = v.words;
    last_in = omega (arith, v.whole);
    full = λ m h.
        full_up_to (length (drop p.last p.bits)) v w.full m
          (omega (arith, v.whole, length-drop p.last p.bits, v.last_in));
    distinct = Distinct-added entry p.head v.distinct new;
  };
  was_free = held_outside p (entry + node_size) out ∙ (node p.head ∙ new);
  is_held =
      held_outside (grown p entry) (entry + node_size) out
      ∙ (node (p.head ++ entry ∷ []) ∙ elem-added entry p.head);
  others = λ q other. elim (Bool-cases (in_block p q)) [
    | inl inside ↦ held-in_block (grown p entry) q inside ∙ sym (held-in_block p q inside)
    | inr outside ↦
        held_outside (grown p entry) q outside
        ∙ (same q other (dec_le 16 q) ∙ sym (held_outside p q outside))
  ];
}
  where
    node :
        (l : List ℕ)
        → (leb node_size (entry + node_size) && elem (entry + node_size - node_size) l)
          ≡ elem entry l
    node l =
        let test : leb 16 (entry + 16) ≡ true = ground arith in
        rw test (ap (λ n. elem n l) {x = entry + 16 - 16} {y = entry} (omega arith))

    same :
        (q : ℕ)
        → q ≢ entry + node_size
        → Dec (16 ≤ q)
        → (leb node_size q && elem (q - node_size) (p.head ++ entry ∷ []))
          ≡ (leb node_size q && elem (q - node_size) p.head)
    same q other (yes enough) =
        ap (λ b. leb node_size q && b) (elem-added_other entry (q - 16) p.head (omega arith))
    same q other (no small) = let test : leb 16 q ≡ false = ground arith in rw test refl

-- `pool_get` of a well-formed pool gives out an object that was not given out and leaves every other as
-- it was, and the pool well formed, where `malloc` gives a node that is neither in the block nor in the list.
pub pool_get_lem :
    {p : Pool} (entry : ℕ)
    → IsValid p
    → in_block p (entry + node_size) ≡ false
    → elem entry p.head ≡ false
    → Gets p (pool_get p entry)
pool_get_lem {p} entry v out new =
    elim (find_free_lem (drop p.last p.bits) p.last (AllWords-drop p.last p.bits v.words)) [
      | inl w ↦ get_node entry v out new w
      | inr w ↦ get_slot entry v w
    ]

all_digits : every_below (λ j. digit 0xffff_ffff j == 1) 32 ≡ true
unfolding every_below digit
all_digits = refl

-- While an object of a well-formed pool's block is free, `pool_get` gives out one of the block and leaves
-- `malloc` alone.
pub pool_get-in_block :
    {p : Pool} (entry k : ℕ)
    → IsValid p
    → k < p.capacity
    → held p (slot_at p k) ≡ false
    → in_block p (pool_get p entry).1 ≡ true
pool_get-in_block {p} entry k v low free =
    elim (find_free_lem (drop p.last p.bits) p.last (AllWords-drop p.last p.bits v.words)) [
      | inr w ↦
          let within : p.last + w.n < length p.bits =
            omega (arith, w.within, length-drop p.last p.bits, v.last_in) in
          let low' : (p.last + w.n) * 32 + w.j < p.capacity = omega (arith, w.low, v.whole) in
          let place = address (p.last + w.n) w.j v w.low low' in
          let s = slot_at-InSlot ((p.last + w.n) * 32 + w.j) v low' in
          ap (λ o. in_block p o.1) (slot-returns p entry (p.last + w.n) w.j w.returns place)
          ∙ s.inside
      | inl w ↦
          let word =
            full_up_to (length (drop p.last p.bits)) v w.full (k / 32)
              (omega (arith, v.whole, length-drop p.last p.bits, v.last_in)) in
          let set : held p (slot_at p k) ≡ true =
            held-slot_at k v low
            ∙ (ap (λ b. digit b (k % 32) == 1) word
                ∙ every_below_passes (λ j. digit 0xffff_ffff j == 1) {k = k % 32} 32 all_digits
                    (omega arith)) in
          absurd (contradiction set free)
    ]
  where
    contradiction : {b : Bool} → b ≡ true → b ≡ false → ⊥
    contradiction h h' = cc
