-- ===== src/HttpServer/Answer/Whole.antt =====
-- `write_http_resp` of httpserver.c: when the response is sent as it stands, and when it is not.
use fast_http.Prelude.{
  ℕ, ◌+◌, ◌*◌, ◌%◌, ◌≤◌, ◌<◌, ◌≡◌, refl, sym, ap, ◌∙◌, none, some, List, [], ◌∷◌, ◌++◌, map, arith,
  u32, length,
}
use fast_http.Dynmem.{Dynmem, Malloc}
use fast_http.Dynmem.Sizes.{page_bounds}
use fast_http.HttpContext.Response.{Response, bytes_of}
use fast_http.HttpServer.Answer.{
  UvBuf, Written, pages_of, terminator, write_http_resp, log_write_status,
}
use fast_http.HttpServer.Answer.Piece.{sent_bytes}
use fast_http.HttpServer.Answer.Lines.{header_text}
use fast_http.HttpServer.Answer.Range.{touched-inside, touched-over}
use fast_http.HttpServer.Answer.Array.{fill_array-exact, fill_array-over}
use fast_http.HttpServer.Answer.Log.{log-terminator, log-overrun}
use fast_http.HttpServer.Answer.Send.{Ready, run}

module _ (mem : Malloc) (dynmem_grow : Dynmem → ℕ → Dynmem) (res : Response)
    (moves : (m : Dynmem) (n : ℕ) → dynmem_grow m n ≡ record m { len = u32 (m.len + n) })
    (ready : Ready res) where
  -- `dynmem_grow` moves the length by the number given. If a response is ready, its header takes at
  -- most a page and its body lies in one page, then `write_http_resp` hands `uv_write` pieces that
  -- are the header and the body, byte for byte; the array of pieces ends with the terminator, and
  -- `log_write_status` finds the size of both.
  pub write_http_resp_lem :
      length (header_text res) ≤ res.buffer.page
      → res.body.pos % res.buffer.page + res.body.len ≤ res.buffer.page
      → (w : Written) × (pieces : List UvBuf) × (write_http_resp mem dynmem_grow res ≡ some w)
        × (w.write_bufs ≡ map some pieces ++ some terminator ∷ [])
        × (w.nbufs ≡ length pieces)
        × (sent_bytes pieces ≡ some (header_text res ++ bytes_of res.buffer res.body))
        × (log_write_status w.write_bufs ≡ some (length (header_text res) + res.body.len))
  write_http_resp_lem small inside =
      let r = run mem dynmem_grow res moves ready in
      let (bytes, size) = r.whole small inside in
      let full =
        r.count
        ∙ ap (λ (n : ℕ). pages_of res.buffer.page (length (header_text res)) + n)
            (touched-inside res.buffer.page (page_bounds ready.valid).0 res.body.pos res.body.len
              inside (omega (arith, ready.room, ready.in_body, ready.valid.len_in))) in
      (
        _,
        r.pieces,
        r.returns _ (fill_array-exact _ r.pieces full),
        refl,
        sym full,
        r.sends ∙ ap some bytes,
        log-terminator r.pieces r.bytes r.sends
              (omega (arith, size, ready.room, ready.in_body, ready.valid.len_in))
            ∙ ap some size,
      )

  -- `dynmem_grow` moves the length by the number given. If the nonempty body of a response that is
  -- ready reaches into one page more than a body of its length takes from the start of a page, then
  -- `write_http_resp` fills the array of pieces to its end, so that it has no terminator, and counts
  -- one piece less for `uv_write`; `log_write_status` then reads behind the array.
  pub write_http_resp-overrun :
      0 < res.body.len
      → pages_of res.buffer.page res.body.len * res.buffer.page
        < res.body.pos % res.buffer.page + res.body.len
      → (w : Written) × (pieces : List UvBuf) × (write_http_resp mem dynmem_grow res ≡ some w)
        × (w.write_bufs ≡ map some pieces)
        × (length pieces ≡ w.nbufs + 1)
        × (log_write_status w.write_bufs ≡ none)
  write_http_resp-overrun some_body over =
      let r = run mem dynmem_grow res moves ready in
      let more =
        touched-over res.buffer.page (page_bounds ready.valid).0 res.body.pos res.body.len some_body
          (omega (arith, ready.room, ready.in_body, ready.valid.len_in)) over in
      let full : length r.pieces
          ≡ pages_of res.buffer.page (length (header_text res))
            + pages_of res.buffer.page res.body.len
            + 1 =
        omega (arith, r.count, more) in
      (
        _,
        r.pieces,
        r.returns _ (fill_array-over _ r.pieces full),
        refl,
        full,
        log-overrun r.pieces r.bytes r.sends,
      )
