-- ===== src/HttpServer/Answer/Array.antt =====
-- The array of pieces of `write_http_resp` of httpserver.c.
use fast_http.Prelude.{
  ℕ, ◌+◌, ◌≡◌, refl, sym, ap, ◌∙◌, Option, none, some, List, [], ◌∷◌, ◌++◌, map, append-nil, arith,
  u32, leb, >>=-some, replicate, length-replicate, append_assoc, true, length, length-append,
  drop-all, drop-append_ge,
}
use fast_http.Dynmem.{Dynmem, Malloc, align}
use fast_http.HttpContext.Response.{Response}
use fast_http.HttpServer.Answer.{
  UvBuf, pages_of, terminator, fill_array, fill_uv_buf_ts, write_http_header, write_http_resp,
}
use fast_http.HttpServer.Answer.Piece.{piece_bytes, sent_bytes, sum_len}

unsome : {x y : List ℕ} → ◌≡◌ {A = Option (List ℕ)} (some x) (some y) → x ≡ y
unsome h = cc

-- What is sent of two arrays of pieces, one behind the other.
pub sent-append :
    (xs ys : List UvBuf) (a b : List ℕ)
    → sent_bytes xs ≡ some a
    → sent_bytes ys ≡ some b
    → sent_bytes (xs ++ ys) ≡ some (a ++ b)
unfolding sent_bytes
sent-append [] ys a b e f = f ∙ ap (λ l. some (l ++ b)) (unsome e)
sent-append (x ∷ xs) ys a b e f =
    let (first, e1, e2) = >>=-some (piece_bytes x) _ e in
    let (rest, e3, whole) = >>=-some (sent_bytes xs) _ e2 in
    rw (e1, sent-append xs ys rest b e3 f)
      (ap some (sym (append_assoc first rest b) ∙ ap (λ l. l ++ b) (unsome whole)))

pub sum_len-append : (xs ys : List UvBuf) → sum_len (xs ++ ys) ≡ sum_len xs + sum_len ys
sum_len-append [] ys = omega arith
sum_len-append (x ∷ xs) ys = omega (arith, sum_len-append xs ys)

-- The array where the pieces fill the room for them, and where there is one more.
pub fill_array-exact :
    (n : ℕ) (bufs : List UvBuf)
    → length bufs ≡ n
    → fill_array n bufs ≡ some (map some bufs ++ some terminator ∷ [])
unfolding fill_array
fill_array-exact n bufs e =
    let fits : leb (length bufs) (n + 1) ≡ true = ground arith in
    rw fits (
      ap (λ l. some (map some bufs ++ l))
        (drop-append_ge (length bufs) 0 (replicate n none) (some terminator ∷ [])
          (omega (arith, length-replicate {A = Option UvBuf} n none))))

pub fill_array-over :
    (n : ℕ) (bufs : List UvBuf) → length bufs ≡ n + 1 → fill_array n bufs ≡ some (map some bufs)
unfolding fill_array
fill_array-over n bufs e =
    let fits : leb (length bufs) (n + 1) ≡ true = ground arith in
    let room = length-append {A = Option UvBuf} (replicate n none) (some terminator ∷ []) in
    rw fits (
      ap (λ l. some (map some bufs ++ l))
        (drop-all (length bufs) (replicate n none ++ some terminator ∷ [])
          (omega (arith, room, length-replicate {A = Option UvBuf} n none)))
      ∙ ap some (append-nil (map some bufs)))

-- The parts of the run.
pub resp-returns :
    (mem : Malloc) (dynmem_grow : Dynmem → ℕ → Dynmem) (res : Response) (start size : ℕ)
    (p : Dynmem) (n : ℕ) (head body : List UvBuf) (array : List (Option UvBuf))
    → (align mem res.buffer).0 ≡ start
    → write_http_header mem dynmem_grow (record res { buffer = (align mem res.buffer).1 })
      ≡ some (size, p)
    → u32 (pages_of p.page size + pages_of p.page res.body.len) ≡ n
    → fill_uv_buf_ts p start size ≡ some head
    → fill_uv_buf_ts p res.body.pos res.body.len ≡ some body
    → fill_array n (head ++ body) ≡ some array
    → write_http_resp mem dynmem_grow res
      ≡ some (record { buffer = p; write_bufs = array; nbufs = n })
unfolding write_http_resp
resp-returns mem dynmem_grow res start size p n head body array e0 e1 e2 e3 e4 e5 =
    rw (e0, e1, e2, e3, e4, e5) refl
