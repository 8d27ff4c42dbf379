-- ===== src/HttpServer/Answer/Appends.antt =====
-- Steps of httpserver.c that put bytes behind the contents of the buffer, and their composition.
use fast_http.Prelude.{
  ℕ, ◌+◌, ◌^◌, ◌≤◌, ◌<◌, ◌≡◌, refl, sym, ap, ◌∙◌, Option, some, List, [], ◌++◌, append-nil,
  append_assoc, arith, ◌>>=◌, length, take, drop, slice, length-append, length-take, length-drop,
  take-all, take-append_le, drop-append_le,
}
use fast_http.Dynmem.{Dynmem, Malloc}
use fast_http.Dynmem.Walk.{flat}
use fast_http.Dynmem.Sizes.{IsValid, contents}
use fast_http.Dynmem.Sizes.Growth.{length-flat-pages}
use fast_http.Dynmem.Bytes.Write.{append_lem, page-append}
use fast_http.HttpContext.{HttpValue}
use fast_http.HttpContext.Response.{bytes_of}
use fast_http.HttpServer.{mem_array_copyfrom}
use fast_http.HttpServer.Copy.{mem_array_copyfrom_lem}
use fast_http.HttpServer.Answer.{put_text}
use fast_http.HttpServer.Answer.Line.{Extended}

abbrev pub Inside : ℕ → HttpValue → Type 0
Inside n v = v.pos + v.len ≤ n

pub length-contents : {m : Dynmem} → IsValid m → length (contents m) ≡ m.len
length-contents {m} v =
    omega (arith, length-take m.len (flat m.pages), length-flat-pages v, v.len_in)

pub Extended-refl : {m : Dynmem} → IsValid m → Extended m [] m
Extended-refl {m} v = record {
  valid = v;
  same_page = refl;
  grows = omega arith;
  holds = sym (append-nil (contents m));
}

pub Extended-trans :
    {m m1 m2 : Dynmem} (a b : List ℕ) → Extended m a m1 → Extended m1 b m2 → Extended m (a ++ b) m2
Extended-trans {m} a b e f = record {
  valid = f.valid;
  same_page = f.same_page ∙ e.same_page;
  grows = omega (arith, f.grows, e.grows, length-append a b);
  holds = f.holds ∙ ap (λ l. l ++ b) e.holds ∙ append_assoc (contents m) a b;
}

-- A value that lies in the buffer keeps its bytes.
pub bytes_of-Extended :
    {m m' : Dynmem} (bytes : List ℕ) (u : HttpValue)
    → IsValid m
    → Extended m bytes m'
    → Inside m.len u
    → bytes_of m' u ≡ bytes_of m u
bytes_of-Extended {m} bytes u v e h =
    let size = length-contents v in
    ap (slice u.pos u.len) e.holds
    ∙ ap (take u.len) (drop-append_le u.pos (contents m) bytes (omega arith))
    ∙ take-append_le u.len (drop u.pos (contents m)) bytes
        (omega (arith, length-drop u.pos (contents m)))

-- A step of the code that puts bytes behind the contents.
pub record Appends (m : Dynmem) (bytes : List ℕ) (result : Option Dynmem) : Type 0 where
  pub out : Dynmem
  pub returns : result ≡ some out
  pub extended : Extended m bytes out

pub Appends-bind :
    {m : Dynmem} (a b : List ℕ) (result : Option Dynmem) (f : Dynmem → Option Dynmem)
    → Appends m a result
    → ((m' : Dynmem) → Extended m a m' → Appends m' b (f m'))
    → Appends m (a ++ b) (result >>= f)
Appends-bind a b result f first second =
    let rest = second first.out first.extended in
    record {
      out = rest.out;
      returns = ap (λ o. o >>= f) first.returns ∙ rest.returns;
      extended = Extended-trans a b first.extended rest.extended;
    }

module _ (mem : Malloc) {m : Dynmem} (v : IsValid m) where
  pub put_text-Appends :
      (src : List ℕ) → m.len + length src + m.page < 2 ^ 32 → Appends m src (put_text mem src m)
  unfolding put_text
  put_text-Appends src fits =
      let (m', e, valid, grows, holds) = append_lem mem src (length src) v fits (omega arith) in
      record {
        out = m';
        returns = rw e refl;
        extended = record {
          valid = valid;
          same_page = page-append mem src (length src) (length src) m' v fits (omega arith) e;
          grows = grows;
          holds = holds ∙ ap (λ l. contents m ++ l) (take-all (length src) src (omega arith));
        };
      }

  pub copy-Appends :
      (u : HttpValue)
      → Inside m.len u
      → m.len + u.len + m.page < 2 ^ 32
      → Appends m (bytes_of m u) (mem_array_copyfrom mem m u)
  copy-Appends u inside fits =
      let (m', e, valid, holds, page) = mem_array_copyfrom_lem mem m u v inside fits in
      record {
        out = m';
        returns = e;
        extended = record {
          valid = valid;
          same_page = page;
          grows =
              sym (length-contents valid)
              ∙ ap length holds
              ∙ length-append (contents m) (bytes_of m u)
              ∙ omega (arith, length-contents v);
          holds = holds;
        };
      }

pub length-bytes_of :
    {m : Dynmem} (u : HttpValue) → IsValid m → Inside m.len u → length (bytes_of m u) ≡ u.len
length-bytes_of {m} u v inside = omega (
  arith,
  length-take u.len (drop u.pos (contents m)),
  length-drop u.pos (contents m),
  length-contents v,
)
