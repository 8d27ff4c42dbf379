-- ===== src/Str/Put.antt =====
-- `memcpy` into a block: what it holds afterwards.
use fast_http.Prelude.{
  ℕ, ◌+◌, ◌≤◌, ◌≡◌, ap, ◌∙◌, Option, some, List, ◌++◌, arith, length, take, drop, length-append,
  length-take, length-drop, take-append_ge, take-append_le, take-all,
}
use fast_http.Str.{put}

-- The bytes `out` are `dst` with the first `n` of `src` from `off` on.
pub record Written (dst : List ℕ) (off : ℕ) (src : List ℕ) (n : ℕ) (result : Option (List ℕ))
    : Type 0 where
  pub out : List ℕ
  pub returns : result ≡ some out
  pub same_length : length out ≡ length dst
  pub holds : take (off + n) out ≡ take off dst ++ take n src

pub put_lem :
    (dst : List ℕ) (off : ℕ) (src : List ℕ) (n : ℕ)
    → off + n ≤ length dst
    → n ≤ length src
    → Written dst off src n (put dst off src n)
unfolding put
put_lem dst off src n room enough = record {
  out = take off dst ++ (take n src ++ drop (off + n) dst);
  returns = ground arith;
  same_length = omega (
    arith,
    length-append (take off dst) (take n src ++ drop (off + n) dst),
    length-append (take n src) (drop (off + n) dst),
    length-take off dst,
    length-take n src,
    length-drop (off + n) dst,
  );
  holds =
      take-append_ge (off + n) n (take off dst) (take n src ++ drop (off + n) dst)
        (omega (arith, length-take off dst))
      ∙ ap (λ l. take off dst ++ l)
          (take-append_le n (take n src) (drop (off + n) dst) (omega (arith, length-take n src))
            ∙ take-all n (take n src) (omega (arith, length-take n src)));
}
