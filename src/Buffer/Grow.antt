-- ===== src/Buffer/Grow.antt =====
-- The sizes that buffer.c computes, and a new buffer.
use fast_http.Prelude.{
  ℕ, zero, suc, ◌+◌, ◌-◌, ◌*◌, ◌/◌, ◌%◌, ◌^◌, ◌≤◌, ◌<◌, ◌≡◌, refl, ap, ◌∙◌, true, false, Option,
  none, some, List, ◌++◌, arith, u32, length, replicate, ltb, leb, dec_lt, dec_le, length-append,
}
use native.Mathlib.Nat.{pow-suc, mul_assoc, mul-le-mul_left, one-le-pow}
use fast_http.Str.{Allocator}
use fast_http.Buffer.{Buffer, size_t, double_until, step_until, init_sizes, buffer_init_ex}
use fast_http.Buffer.Blocks.{flat, AllBlocks}

-- Doubling up to at most `top`, which is reached after `k` doublings.
record Doubled (min_cap cap top : ℕ) (result : Option ℕ) : Type 0 where
  out : ℕ
  more : ℕ
  returns : result ≡ some out
  enough : min_cap ≤ out
  least : cap ≤ out
  still : out * 2 ^ more ≡ top
  few : more < 64

double_until_lem :
    (k fuel min_cap cap top : ℕ)
    → cap * 2 ^ k ≡ top
    → min_cap ≤ top
    → top < 2 ^ 63
    → k < fuel
    → k < 64
    → Doubled min_cap cap top (double_until fuel min_cap cap)
unfolding double_until
double_until_lem k zero min_cap cap top e h short enough few = absurd (omega arith)
double_until_lem zero (suc fuel) min_cap cap top e h short enough few = record {
  out = cap;
  more = 0;
  returns = let stop : ltb cap min_cap ≡ false = ground (arith, e) in rw stop refl;
  enough = omega (arith, e);
  least = omega arith;
  still = e;
  few = omega arith;
}
double_until_lem (suc k) (suc fuel) min_cap cap top e h short enough few =
    elim (dec_lt cap min_cap) [
      | no large ↦
          let stop : ltb cap min_cap ≡ false = ground arith in
          record {
            out = cap;
            more = suc k;
            returns = rw stop refl;
            enough = omega arith;
            least = omega arith;
            still = e;
            few = few;
          }
      | yes small ↦
          let go : ltb cap min_cap ≡ true = ground arith in
          let no_wrap : size_t (cap * 2) ≡ cap * 2 = omega (arith, h, short) in
          let next : cap * 2 * 2 ^ k ≡ top =
            mul_assoc cap 2 (2 ^ k)
            ∙ (ap (λ n. cap * n) {x = 2 * 2 ^ k} {y = 2 ^ suc k} (omega (arith, pow-suc 2 k))
                ∙ e) in
          let w =
            double_until_lem k fuel min_cap (cap * 2) top next h short (omega arith)
              (omega arith) in
          record {
            out = w.out;
            more = w.more;
            returns = rw (go, no_wrap) w.returns;
            enough = w.enough;
            least = omega (arith, w.least);
            still = w.still;
            few = w.few;
          }
    ]

step_again :
    (fuel min_cap cap : ℕ)
    → ltb cap min_cap ≡ true
    → size_t (cap + 1024) ≡ cap + 1024
    → step_until (suc fuel) min_cap cap ≡ step_until fuel min_cap (cap + 1024)
unfolding step_until
step_again fuel min_cap cap e0 e1 = rw (e0, e1) refl

step_until_lem :
    (k fuel min_cap cap : ℕ)
    → min_cap ≤ cap + k
    → k < fuel
    → cap % 1024 ≡ 0
    → 1024 ≤ cap
    → cap ≤ min_cap + 1023
    → min_cap + 1024 < 2 ^ 32
    → (c : ℕ) × (step_until fuel min_cap cap ≡ some c)
      × (min_cap ≤ c)
      × (c % 1024 ≡ 0)
      × (c ≤ min_cap + 1023)
      × (1024 ≤ c)
unfolding step_until
step_until_lem k zero min_cap cap h f even big bound short = absurd (omega arith)
step_until_lem k (suc fuel) min_cap cap h f even big bound short = elim (dec_lt cap min_cap) [
  | no large ↦
      let stop : ltb cap min_cap ≡ false = ground arith in
      (cap, rw stop refl, omega arith, even, bound, big)
  | yes small ↦
      let go : ltb cap min_cap ≡ true = ground arith in
      let no_wrap : size_t (cap + 1024) ≡ cap + 1024 = omega arith in
      let (c, e, least, whole, most, large) =
        step_until_lem (k - 1) fuel min_cap (cap + 1024) (omega arith) (omega arith) (omega arith)
          (omega arith) (omega arith) short in
      (c, step_again fuel min_cap cap go no_wrap ∙ e, least, whole, most, large)
]

new_array :
    (b : List ℕ) (n m : ℕ)
    → length b ≡ 1024
    → AllBlocks (replicate n (some b) ++ replicate m none)
      × (length (flat (replicate n (some b) ++ replicate m none)) ≡ n * 1024)
unfolding flat AllBlocks
new_array b zero zero size = (tt, refl)
new_array b zero (suc m) size = (tt, refl)
new_array b (suc n) m size =
    let (blocks, count) = new_array b n m size in
    (
      (size, blocks),
      omega (arith, length-append b (flat (replicate n (some b) ++ replicate m none)), count, size),
    )

init-returns :
    (mem : Allocator) (capacity array_cap c alen acap acap' : ℕ)
    → init_sizes capacity ≡ some (c, alen, acap)
    → double_until 65 array_cap acap ≡ some acap'
    → leb alen acap' ≡ true
    → u32 c ≡ c
    → u32 acap' ≡ acap'
    → buffer_init_ex mem capacity array_cap
      ≡ some (record {
        ref = 1;
        len = 0;
        cap = c;
        array_cap = acap';
        array = replicate alen (some (mem.block 1024)) ++ replicate (acap' - alen) none;
      })
unfolding buffer_init_ex
init-returns mem capacity array_cap c alen acap acap' e0 e1 e2 e3 e4 = rw (e0, e1, e2, e3, e4) refl

-- The sizes: a capacity that the blocks hold, and an array that may be doubled up to 2 ^ 31.
record Sizes (capacity : ℕ) : Type 0 where
  c : ℕ
  alen : ℕ
  acap : ℕ
  more : ℕ
  returns : init_sizes capacity ≡ some (c, alen, acap)
  enough : capacity ≤ c
  held : c ≤ alen * 1024
  short : c < 2 ^ 32
  room : alen ≤ acap
  still : acap * 2 ^ more ≡ 2 ^ 31
  few : more < 64

large-returns :
    (capacity c acap : ℕ)
    → leb capacity 1024 ≡ false
    → step_until (capacity + 1) capacity 1024 ≡ some c
    → double_until 65 (c / 1024) 1 ≡ some acap
    → init_sizes capacity ≡ some (c, c / 1024, acap)
unfolding init_sizes
large-returns capacity c acap e0 e1 e2 = rw (e0, e1, e2) refl

small-returns :
    (capacity c : ℕ)
    → leb capacity 1024 ≡ true
    → double_until 65 capacity 32 ≡ some c
    → init_sizes capacity ≡ some (c, 1, 1)
unfolding init_sizes
small-returns capacity c e0 e1 = rw (e0, e1) refl

at_most : (n k top : ℕ) → n * 2 ^ k ≡ top → n ≤ top
at_most n k top e =
    omega (arith, e, mul-le-mul_left {m = 1} {n = 2 ^ k} n (one-le-pow k 2 (omega arith)))

init_sizes_lem : (capacity : ℕ) → capacity + 1024 < 2 ^ 32 → Sizes capacity
init_sizes_lem capacity fits = elim (dec_le capacity 1024) [
  | yes small ↦
      let w =
        double_until_lem 5 65 capacity 32 1024 refl small (omega arith) (omega arith)
          (omega arith) in
      let most : w.out ≤ 1024 = at_most w.out w.more 1024 w.still in
      record {
        c = w.out;
        alen = 1;
        acap = 1;
        more = 31;
        returns = small-returns capacity w.out (ground arith) w.returns;
        enough = w.enough;
        held = omega (arith, most);
        short = omega (arith, most);
        room = omega arith;
        still = refl;
        few = omega arith;
      }
  | no large ↦
      let (c, e, least, whole, most, big) =
        step_until_lem capacity (capacity + 1) capacity 1024 (omega arith) (omega arith) refl
          (omega arith) (omega arith) fits in
      let w =
        double_until_lem 31 65 (c / 1024) 1 (2 ^ 31) refl (omega (arith, most, fits)) (omega arith)
          (omega arith) (omega arith) in
      record {
        c = c;
        alen = c / 1024;
        acap = w.out;
        more = w.more;
        returns = large-returns capacity c w.out (ground arith) e w.returns;
        enough = least;
        held = omega (arith, whole);
        short = omega (arith, most, fits);
        room = w.enough;
        still = w.still;
        few = w.few;
      }
]

-- `buffer_init_ex` gives an empty buffer whose blocks hold its capacity, with at least the capacity and the
-- array asked for, if the capacity and 1024 fit a `uint32_t` and the array is at most 2 ^ 31 long.
pub buffer_init_ex_lem :
    (mem : Allocator) (capacity array_cap : ℕ)
    → capacity + 1024 < 2 ^ 32
    → array_cap ≤ 2 ^ 31
    → (p : Buffer) × (buffer_init_ex mem capacity array_cap ≡ some p)
      × AllBlocks p.array
      × (p.len ≡ 0)
      × (capacity ≤ p.cap)
      × (p.cap ≤ length (flat p.array))
      × (p.cap < 2 ^ 32)
      × (array_cap ≤ p.array_cap)
buffer_init_ex_lem mem capacity array_cap fits most =
    let s = init_sizes_lem capacity fits in
    let w =
      double_until_lem s.more 65 array_cap s.acap (2 ^ 31) s.still most (omega arith)
        (omega (arith, s.few)) s.few in
    let top : w.out ≤ 2 ^ 31 = at_most w.out w.more (2 ^ 31) w.still in
    let (blocks, count) =
      new_array (mem.block 1024) s.alen (w.out - s.alen) (mem.length-block 1024) in
    (
      record {
        ref = 1;
        len = 0;
        cap = s.c;
        array_cap = w.out;
        array = replicate s.alen (some (mem.block 1024)) ++ replicate (w.out - s.alen) none;
      },
      init-returns mem capacity array_cap s.c s.alen s.acap w.out s.returns w.returns
          (ground (arith, s.room, w.least)) (omega (arith, s.short)) (omega (arith, top)),
      blocks,
      refl,
      s.enough,
      omega (arith, count, s.held),
      s.short,
      w.enough,
    )
