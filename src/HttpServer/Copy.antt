-- ===== src/HttpServer/Copy.antt =====
-- What `mem_array_copyfrom` of httpserver.c appends.
use fast_http.Prelude.{
  ℕ, ◌+◌, ◌-◌, ◌^◌, ◌≤◌, ◌<◌, ◌≡◌, refl, sym, ap, ◌∙◌, true, false, some, List, ◌++◌, arith, ◌==◌,
  length, drop, min, append-nil, take-all, length-take, length-drop, ℕ_discrete, take-zero,
}
use fast_http.Dynmem.{Dynmem, Malloc}
use fast_http.Dynmem.Foreach.{read, append}
use fast_http.Dynmem.Walk.{flat}
use fast_http.Dynmem.Sizes.{IsValid, contents}
use fast_http.Dynmem.Sizes.Growth.{length-flat-pages}
use fast_http.Dynmem.Bytes.Read.{read_lem}
use fast_http.Dynmem.Bytes.Write.{append_lem, page-append}
use fast_http.HttpContext.{HttpValue}
use fast_http.HttpContext.Response.{bytes_of}
use fast_http.HttpServer.{mem_array_copyfrom}

copy-returns :
    (mem : Malloc) (m m' : Dynmem) (v : HttpValue) (n : ℕ) (tmp : List ℕ)
    → (v.len == 0) ≡ false
    → read m v.pos v.len ≡ some (n, tmp)
    → (n == v.len) ≡ true
    → append mem m tmp v.len ≡ some (v.len, m')
    → mem_array_copyfrom mem m v ≡ some m'
unfolding mem_array_copyfrom
copy-returns mem m m' v n tmp e0 e1 e2 e3 = rw (e0, e1, e2, e3) refl

-- In a well-formed buffer, `mem_array_copyfrom` puts the bytes of a value that lies in the contents behind
-- them and keeps the page size, if the new length and a page fit a `uint32_t`.
pub mem_array_copyfrom_lem :
    (mem : Malloc) (m : Dynmem) (v : HttpValue)
    → IsValid m
    → v.pos + v.len ≤ m.len
    → m.len + v.len + m.page < 2 ^ 32
    → (m' : Dynmem) × (mem_array_copyfrom mem m v ≡ some m')
      × IsValid m'
      × (contents m' ≡ contents m ++ bytes_of m v)
      × (m'.page ≡ m.page)
unfolding mem_array_copyfrom
mem_array_copyfrom_lem mem m v valid inside fits = elim (ℕ_discrete v.len 0) [
  | yes empty ↦
      let test : (v.len == 0) ≡ true = ground arith in
      (
        m,
        rw test refl,
        valid,
        sym (append-nil (contents m))
            ∙ ap (λ l. contents m ++ l) (sym (take-zero v.len (drop v.pos (contents m)) empty)),
        refl,
      )
  | no some_bytes ↦
      let stored : length (contents m) ≡ m.len =
        omega (arith, length-take m.len (flat m.pages), length-flat-pages valid, valid.len_in) in
      let size : length (bytes_of m v) ≡ v.len = omega (
        arith,
        length-take v.len (drop v.pos (contents m)),
        length-drop v.pos (contents m),
        stored,
      ) in
      let (m', e, valid', _, held) =
        append_lem mem (bytes_of m v) v.len valid fits (omega (arith, size)) in
      (
        m',
        copy-returns mem m m' v (min v.len (m.len - v.pos)) (bytes_of m v) (ground arith)
            (read_lem v.pos v.len valid (omega arith)) (same_count v.len v.pos m.len inside) e,
        valid',
        held ∙ ap (λ l. contents m ++ l) (take-all v.len (bytes_of m v) (omega (arith, size))),
        page-append mem (bytes_of m v) v.len v.len m' valid fits (omega (arith, size)) e,
      )
]
  where
    same_count : (len pos total : ℕ) → pos + len ≤ total → (min len (total - pos) == len) ≡ true
    same_count len pos total h = ground arith
