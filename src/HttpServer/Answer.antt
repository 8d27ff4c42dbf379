-- ===== src/HttpServer/Answer.antt =====
-- httpserver.c: how a response is put behind the body into the buffer and cut into the pieces that
-- `uv_write` sends.
--
-- `dynmem_grow` with a number of bytes, which this file calls and dynmem.c does not have, is a
-- parameter. A `uv_buf_t` is a pointer into a page and a length.
pub mod Piece
pub mod Fill
pub mod Appends
pub mod Lines
pub mod Header
pub mod Line
pub mod Aligned
pub mod Range
pub mod Log
pub mod Array
pub mod Send
pub mod Whole
use fast_http.Prelude.{
  ℕ, zero, suc, ◌+◌, ◌-◌, ◌/◌, ◌%◌, ◌<◌, Bool, true, false, Option, none, some, List, [], ◌∷◌, ◌++◌,
  u32, sub32, replicate, map, ltb, leb, ◌==◌, if◌then◌else◌, ◌>>=◌, ◌>>◌, require, length, take,
  drop, slice,
}
use fast_http.Dynmem.{Page, Dynmem, Malloc, Pointer, null, place, get, surplus, next_surplus, align}
use fast_http.Dynmem.Foreach.{append}
use fast_http.HttpContext.{HttpHeader}
use fast_http.HttpContext.Response.{Response, BodyType, hc_body_memory, hc_body_callback}
use fast_http.HttpServer.{mem_array_copyfrom, get_message_by_status}

-- `uv_buf_t`
pub record UvBuf : Type 0 where
  pub base : Pointer
  pub len : ℕ

-- `for (omax = offset + len; offset < omax; ++p)`; `none` is also a loop that runs out of fuel.
unfoldable pub fill_loop : ℕ → Dynmem → ℕ → ℕ → ℕ → Option (List UvBuf)
fill_loop zero pbuf omax offset len = none
fill_loop (suc fuel) pbuf omax offset len =
    let max_len = surplus pbuf offset in
    let n = if ltb max_len len then max_len else len in
    let rest = fill_loop fuel pbuf omax (u32 (offset + n)) len in
    let step =
      get pbuf offset >>= λ base. rest >>= λ bufs. some (record { base = base; len = n } ∷ bufs) in
    if ltb offset omax then step else some []

-- The entries that it fills; the result of the C function is their number.
unfoldable pub fill_uv_buf_ts : Dynmem → ℕ → ℕ → Option (List UvBuf)
fill_uv_buf_ts pbuf offset len = fill_loop (suc len) pbuf (u32 (offset + len)) offset len

-- What `%u` prints, with as many digits as the fuel.
unfoldable pub decimal : ℕ → ℕ → List ℕ
decimal zero n = []
decimal (suc fuel) n =
    let front = decimal fuel (n / 10) in (if ltb n 10 then [] else front) ++ (b'0' + n % 10) ∷ []

-- `RESP_STATUS` with its three arguments; a `uint32_t` has at most ten digits.
unfoldable pub resp_status : ℕ → List ℕ → ℕ → List ℕ
unfolding decimal
resp_status status message body_len =
    b'H'
    ∷ b'T'
    ∷ b'T'
    ∷ b'P'
    ∷ b'/'
    ∷ b'1'
    ∷ b'.'
    ∷ b'1'
    ∷ b' '
    ∷ (decimal 10 status
        ++ b' '
          ∷ (message
              ++ 13
                ∷ 10
                ∷ b'S'
                ∷ b'e'
                ∷ b'r'
                ∷ b'v'
                ∷ b'e'
                ∷ b'r'
                ∷ b':'
                ∷ b' '
                ∷ b'k'
                ∷ b'h'
                ∷ b's'
                ∷ b'/'
                ∷ b'0'
                ∷ b'.'
                ∷ b'5'
                ∷ b'0'
                ∷ 13
                ∷ 10
                ∷ b'C'
                ∷ b'o'
                ∷ b'n'
                ∷ b't'
                ∷ b'e'
                ∷ b'n'
                ∷ b't'
                ∷ b'-'
                ∷ b'L'
                ∷ b'e'
                ∷ b'n'
                ∷ b'g'
                ∷ b't'
                ∷ b'h'
                ∷ b':'
                ∷ b' '
                ∷ (decimal 10 body_len ++ 13 ∷ 10 ∷ [])))

-- `KEEP_ALIVE`
abbrev pub keep_alive_text : List ℕ
keep_alive_text =
    b'C' ∷ b'o' ∷ b'n' ∷ b'n' ∷ b'e' ∷ b'c' ∷ b't' ∷ b'i' ∷ b'o' ∷ b'n' ∷ b':' ∷ b' ' ∷ b'k' ∷ b'e'
    ∷ b'e' ∷ b'p' ∷ b'-' ∷ b'a' ∷ b'l' ∷ b'i' ∷ b'v' ∷ b'e' ∷ 13 ∷ 10 ∷ []

-- `CONTENT_TYPE`
abbrev pub content_type_text : List ℕ
content_type_text =
    b'C' ∷ b'o' ∷ b'n' ∷ b't' ∷ b'e' ∷ b'n' ∷ b't' ∷ b'-' ∷ b'T' ∷ b'y' ∷ b'p' ∷ b'e' ∷ b':' ∷ b' '
    ∷ []

abbrev pub crlf : List ℕ
crlf = 13 ∷ 10 ∷ []

-- The bytes arrive at `dynmem_get(pos)`, all in its page; else the C code writes out of the block.
unfoldable pub store_at : ℕ → ℕ → List ℕ → List Page → Option (List Page)
store_at ps pos bytes [] = none
store_at ps pos bytes (n ∷ ns) =
    let later = store_at ps (pos - ps) bytes ns >>= λ ns'. some (n ∷ ns') in
    let here =
      require (leb (pos + length bytes) (length n.bytes))
      >> some (
          record n { bytes = take pos n.bytes ++ (bytes ++ drop (pos + length bytes) n.bytes) }
          ∷ ns) in
    if leb ps pos then later else here

-- `snprintf` to `dynmem_next_pos` with `dynmem_next_surplus` as the size, which is never 0: the text
-- is cut to leave room for its NUL, and the result is its whole length.
unfoldable pub print_next : Dynmem → List ℕ → Option (ℕ × Dynmem)
print_next pbuf text = do
  pages ← store_at pbuf.page pbuf.len (take (next_surplus pbuf - 1) text ++ 0 ∷ []) pbuf.pages
  some (length text, record pbuf { pages = pages })

-- `body_len` of `write_http_header`
unfoldable pub body_length : Response → ℕ
body_length res = elim res.body_type [
  | hc_body_memory ↦ res.body.len
  | hc_body_callback ↦ res.content_length
]

module _ (mem : Malloc) where
  -- `dynmem_append` where the result is not used.
  unfoldable pub put_text : List ℕ → Dynmem → Option Dynmem
  put_text src pbuf = append mem pbuf src (length src) >>= λ (_, pbuf'). some pbuf'

  unfoldable pub header_line : HttpHeader → Dynmem → Option Dynmem
  unfolding put_text
  header_line h pbuf = do
    p1 ← mem_array_copyfrom mem pbuf h.field
    p2 ← put_text (b':' ∷ b' ' ∷ []) p1
    p3 ← mem_array_copyfrom mem p2 h.value
    put_text crlf p3

  -- `list_foreach(hpos, &res->headers)`
  unfoldable pub header_lines : List HttpHeader → Dynmem → Option Dynmem
  unfolding header_line
  header_lines [] pbuf = some pbuf
  header_lines (h ∷ hs) pbuf = header_line h pbuf >>= λ pbuf'. header_lines hs pbuf'

  unfoldable pub content_type_line : Response → Dynmem → Option Dynmem
  unfolding put_text
  content_type_line res pbuf =
      let line = do
        p1 ← put_text content_type_text pbuf
        p2 ← mem_array_copyfrom mem p1 res.content_type
        put_text crlf p2
      in if res.content_type.len == 0 then some pbuf else line

  -- All lines behind the status line.
  unfoldable pub header_rest : Response → Dynmem → Option Dynmem
  unfolding put_text header_lines content_type_line
  header_rest res pbuf = do
    p1 ← (if res.keep_alive then put_text keep_alive_text else some) pbuf
    p2 ← content_type_line res p1
    p3 ← header_lines res.headers p2
    put_text crlf p3

  unfoldable pub write_http_header : (Dynmem → ℕ → Dynmem) → Response → Option (ℕ × Dynmem)
  unfolding header_rest body_length print_next
  write_http_header dynmem_grow res = do
    (prlen, p0) ←
        print_next res.buffer
          (resp_status res.status (get_message_by_status res.status) (body_length res))
    p1 ← header_rest res (dynmem_grow p0 prlen)
    some (sub32 p1.len res.buffer.len, p1)

-- What `write_http_resp` leaves behind and hands to `uv_write`. An entry of the array that was never
-- set is `none`.
pub record Written : Type 0 where
  pub buffer : Dynmem
  pub write_bufs : List (Option UvBuf)
  pub nbufs : ℕ

-- `(size + ps - 1) / ps`
abbrev pub pages_of : ℕ → ℕ → ℕ
pages_of ps size = sub32 (u32 (size + ps)) 1 / ps

-- The length of the terminator is never set, and never read.
abbrev pub terminator : UvBuf
terminator = record { base = null; len = 0 }

-- The block has `bufs_size + 1` entries; an entry behind them is a fault.
unfoldable pub fill_array : ℕ → List UvBuf → Option (List (Option UvBuf))
fill_array bufs_size bufs =
    require (leb (length bufs) (bufs_size + 1))
    >> some (map some bufs ++ drop (length bufs) (replicate bufs_size none ++ some terminator ∷ []))

unfoldable pub write_http_resp : Malloc → (Dynmem → ℕ → Dynmem) → Response → Option Written
unfolding write_http_header fill_uv_buf_ts fill_array
write_http_resp mem dynmem_grow res = do
  let aligned = align mem res.buffer
  (head_size, pbuf) ← write_http_header mem dynmem_grow (record res { buffer = aligned.1 })
  let bufs_size = u32 (pages_of pbuf.page head_size + pages_of pbuf.page res.body.len)
  head ← fill_uv_buf_ts pbuf aligned.0 head_size
  body ← fill_uv_buf_ts pbuf res.body.pos res.body.len
  array ← fill_array bufs_size (head ++ body)
  some (record { buffer = pbuf; write_bufs = array; nbufs = bufs_size })

-- The size that `log_write_status` adds up, up to the terminator: an entry that is not set and the
-- end of the block are a fault.
unfoldable pub log_write_status : List (Option UvBuf) → Option ℕ
log_write_status [] = none
log_write_status (none ∷ bufs) = none
log_write_status (some b ∷ bufs) =
    let rest = log_write_status bufs >>= λ count. some (u32 (b.len + count)) in
    elim b.base [ null ↦ some 0 | place _ _ ↦ rest ]
