-- ===== src/HttpServer/Answer/Range.antt =====
-- How many pieces `fill_uv_buf_ts` of httpserver.c makes of a range, against the number that
-- `write_http_resp` has room for.
use native.Mathlib.Nat.{div-eq_of_lt-le, div-eq_of_lt, mod-lt}
use fast_http.Prelude.{
  ℕ, zero, suc, ◌+◌, ◌-◌, ◌*◌, ◌/◌, ◌%◌, ◌^◌, ◌≤◌, ◌<◌, ◌≡◌, refl, sym, ap, ◌∙◌, Option, some, List,
  [], arith, length, drop, slice, take-zero,
}
use fast_http.Dynmem.{Dynmem}
use fast_http.Dynmem.Walk.{flat}
use fast_http.Dynmem.Sizes.{IsValid}
use fast_http.HttpServer.Answer.{UvBuf, pages_of, fill_loop, fill_uv_buf_ts}
use fast_http.HttpServer.Answer.Piece.{sent_bytes, sum_len}
use fast_http.HttpServer.Answer.Aligned.{aligned_bounds}
use fast_http.HttpServer.Answer.Fill.{fill_uv_buf_ts_lem}

-- The pages that a range touches.
abbrev pub touched : ℕ → ℕ → ℕ → ℕ
touched ps offset zero = 0
touched ps offset (suc len) = (offset % ps + len + ps) / ps

pub record Ranged (m : Dynmem) (offset len : ℕ) (result : Option (List UvBuf)) : Type 0 where
  pub bufs : List UvBuf
  pub returns : result ≡ some bufs
  pub bytes : sent_bytes bufs ≡ some (slice offset (sum_len bufs) (flat m.pages))
  pub count : length bufs ≡ touched m.page offset len
  pub one : offset % m.page + len ≤ m.page → sum_len bufs ≡ len

pub fill_uv_buf_ts-Ranged :
    {m : Dynmem} (offset len : ℕ)
    → IsValid m
    → offset + len ≤ m.cap
    → Ranged m offset len (fill_uv_buf_ts m offset len)
unfolding fill_uv_buf_ts fill_loop sent_bytes
fill_uv_buf_ts-Ranged {m} offset zero v inside = record {
  bufs = [];
  returns = ground (arith, v.cap_small);
  bytes = ap some (sym (take-zero 0 (drop offset (flat m.pages)) refl));
  count = refl;
  one = λ _. refl;
}
fill_uv_buf_ts-Ranged {m} offset (suc len) v inside =
    let (bufs, returns, bytes, _, enough, least, one, _) =
      fill_uv_buf_ts_lem offset (suc len) v (omega arith) inside in
    record {
      bufs = bufs;
      returns = returns;
      bytes = bytes;
      count = sym (div-eq_of_lt-le {k = length bufs} m.page (omega arith) (omega arith));
      one = one;
    }

module _ (ps : ℕ) (pos : 0 < ps) where
  pages_of-le : (size : ℕ) → size + ps < 2 ^ 32 → pages_of ps size ≡ (size + (ps - 1)) / ps
  pages_of-le size fits = ap (λ (x : ℕ). x / ps) (omega arith)

  -- From the start of a page the pieces fill the room.
  pub touched-aligned :
      (offset len : ℕ)
      → offset % ps ≡ 0
      → len + ps < 2 ^ 32
      → touched ps offset len ≡ pages_of ps len
  touched-aligned offset zero start fits = sym (pages_of-le 0 fits ∙ div-eq_of_lt (omega arith))
  touched-aligned offset (suc len) start fits =
      ap (λ (x : ℕ). x / ps) (omega arith) ∙ sym (pages_of-le (suc len) fits)

  -- A range inside of a page takes as many pieces as there is room for.
  pub touched-inside :
      (offset len : ℕ)
      → offset % ps + len ≤ ps
      → len + ps < 2 ^ 32
      → touched ps offset len ≡ pages_of ps len
  touched-inside offset zero inside fits = sym (pages_of-le 0 fits ∙ div-eq_of_lt (omega arith))
  touched-inside offset (suc len) inside fits =
      div-eq_of_lt-le {k = 1} ps (omega arith) (omega arith)
      ∙ sym (pages_of-le (suc len) fits ∙ div-eq_of_lt-le {k = 1} ps (omega arith) (omega arith))

  -- A range that reaches into one more page than its length needs.
  pub touched-over :
      (offset len : ℕ)
      → 0 < len
      → len + ps < 2 ^ 32
      → pages_of ps len * ps < offset % ps + len
      → touched ps offset len ≡ pages_of ps len + 1
  touched-over offset zero some_len fits over = absurd (omega arith)
  touched-over offset (suc len) some_len fits over =
      let count = pages_of-le (suc len) fits in
      let reach : suc len ≤ pages_of ps (suc len) * ps =
        rw count ((aligned_bounds (suc len) ps pos).0) in
      div-eq_of_lt-le {k = pages_of ps (suc len) + 1} ps (grind (arith, over))
        (grind (arith, mod-lt offset pos, reach))
