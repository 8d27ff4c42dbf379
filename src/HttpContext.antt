-- ===== src/HttpContext.antt =====
-- httpctx.c and httpctx.h: what a connection knows of its request and its response. The bytes stand
-- in paged buffers, and a value is a position and a length there.
--
-- A pointer to a header's value is the value. The parser of http_parser.c calls the `on_` functions
-- back; each takes the request and returns it, or `none` for an access outside of what it may read.
-- `atoi` and the node that the pool of headers hands out are parameters.
pub mod Header
pub mod Path
pub mod Callbacks
pub mod Pieces
pub mod Response
pub mod Complete
mod Tests
use fast_http.Prelude.{
  ℕ, zero, suc, ◌+◌, ◌-◌, ◌^◌, Bool, true, false, ◌&&◌, ◌||◌, Option, none, some, List, [], ◌∷◌,
  ◌++◌, u32, sub32, u32_max, ltb, leb, ◌==◌, if◌then◌else◌, ◌>>=◌, ◌>>◌, require, length, take,
  get_or, get_elem?,
}
use fast_http.Dynmem.{Dynmem, deref, get, offset}
use fast_http.Dynmem.Foreach.{Callback, foreach, read, chr, equal}

-- `http_value_t`
pub record HttpValue : Type 0 where
  pub pos : ℕ
  pub len : ℕ

-- `http_header_t`
pub record HttpHeader : Type 0 where
  pub field : HttpValue
  pub value : HttpValue

-- `hc_http_version_t`
pub data Version : Type 0 where
  hc_http10 : Version
  hc_http11 : Version
  hc_http20 : Version

-- `hc_http_method_t`
pub data Method : Type 0 where
  hc_http_get : Method
  hc_http_post : Method
  hc_http_put : Method
  hc_http_delete : Method

-- `hc_parser_state_t`, and `HTTP_PARSER_COMPLETE`, which is stored in the same place.
pub data ParserState : Type 0 where
  p_begin : ParserState
  p_url : ParserState
  p_head_field : ParserState
  p_head_value : ParserState
  p_body : ParserState
  parser_complete : ParserState

-- `httpreq_t`, without the parser's own state and the pointer of the user; `buffer` is its field
-- `data`.
pub record Request : Type 0 where
  pub url : HttpValue
  pub host : Option HttpValue
  pub content_type : Option HttpValue
  pub path : HttpValue
  pub url_param : HttpValue
  pub content_length : ℕ
  pub headers : List HttpHeader
  pub body : HttpValue
  pub buffer : Dynmem
  pub parser_state : ParserState
  pub version : Version
  pub method : Method
  pub keep_alive : Bool

unfoldable pub parse_http_ver : ℕ → ℕ → Version
parse_http_ver major minor =
    if major == 1
    then (if minor == 0 then hc_http10 else hc_http11)
    else if major == 2
    then hc_http20
    else hc_http10

-- The numbers are `HTTP_GET`, `HTTP_POST`, `HTTP_PUT` and `HTTP_DELETE` of the parser.
unfoldable pub parse_http_method : ℕ → Method
parse_http_method n =
    if n == 1
    then hc_http_get
    else if n == 3
    then hc_http_post
    else if n == 4
    then hc_http_put
    else if n == 0
    then hc_http_delete
    else hc_http_post

-- `_CHAR_IGNORE_CASE_MAP`
abbrev pub char_ignore_case_map : List ℕ
char_ignore_case_map =
    0x00 ∷ 0x01 ∷ 0x02 ∷ 0x03 ∷ 0x04 ∷ 0x05 ∷ 0x06 ∷ 0x07 ∷ 0x08 ∷ 0x09 ∷ 0x0a ∷ 0x0b ∷ 0x0c ∷ 0x0d
    ∷ 0x0e ∷ 0x0f ∷ 0x10 ∷ 0x11 ∷ 0x12 ∷ 0x13 ∷ 0x14 ∷ 0x15 ∷ 0x16 ∷ 0x17 ∷ 0x18 ∷ 0x19 ∷ 0x1a
    ∷ 0x1b ∷ 0x1c ∷ 0x1d ∷ 0x1e ∷ 0x1f ∷ 0x20 ∷ 0x21 ∷ 0x22 ∷ 0x23 ∷ 0x24 ∷ 0x25 ∷ 0x26 ∷ 0x27
    ∷ 0x28 ∷ 0x29 ∷ 0x2a ∷ 0x2b ∷ 0x2c ∷ 0x2d ∷ 0x2e ∷ 0x2f ∷ 0x30 ∷ 0x31 ∷ 0x32 ∷ 0x33 ∷ 0x34
    ∷ 0x35 ∷ 0x36 ∷ 0x37 ∷ 0x38 ∷ 0x39 ∷ 0x3a ∷ 0x3b ∷ 0x3c ∷ 0x3d ∷ 0x3e ∷ 0x3f ∷ 0x40 ∷ 0x61
    ∷ 0x62 ∷ 0x63 ∷ 0x64 ∷ 0x65 ∷ 0x66 ∷ 0x67 ∷ 0x68 ∷ 0x69 ∷ 0x6a ∷ 0x6b ∷ 0x6c ∷ 0x6d ∷ 0x6e
    ∷ 0x6f ∷ 0x70 ∷ 0x71 ∷ 0x72 ∷ 0x73 ∷ 0x74 ∷ 0x75 ∷ 0x76 ∷ 0x77 ∷ 0x78 ∷ 0x79 ∷ 0x7a ∷ 0x5b
    ∷ 0x5c ∷ 0x5d ∷ 0x5e ∷ 0x5f ∷ 0x60 ∷ 0x61 ∷ 0x62 ∷ 0x63 ∷ 0x64 ∷ 0x65 ∷ 0x66 ∷ 0x67 ∷ 0x68
    ∷ 0x69 ∷ 0x6a ∷ 0x6b ∷ 0x6c ∷ 0x6d ∷ 0x6e ∷ 0x6f ∷ 0x70 ∷ 0x71 ∷ 0x72 ∷ 0x73 ∷ 0x74 ∷ 0x75
    ∷ 0x76 ∷ 0x77 ∷ 0x78 ∷ 0x79 ∷ 0x7a ∷ 0x7b ∷ 0x7c ∷ 0x7d ∷ 0x7e ∷ 0x7f ∷ 0x80 ∷ 0x81 ∷ 0x82
    ∷ 0x83 ∷ 0x84 ∷ 0x85 ∷ 0x86 ∷ 0x87 ∷ 0x88 ∷ 0x89 ∷ 0x8a ∷ 0x8b ∷ 0x8c ∷ 0x8d ∷ 0x8e ∷ 0x8f
    ∷ 0x90 ∷ 0x91 ∷ 0x92 ∷ 0x93 ∷ 0x94 ∷ 0x95 ∷ 0x96 ∷ 0x97 ∷ 0x98 ∷ 0x99 ∷ 0x9a ∷ 0x9b ∷ 0x9c
    ∷ 0x9d ∷ 0x9e ∷ 0x9f ∷ 0xa0 ∷ 0xa1 ∷ 0xa2 ∷ 0xa3 ∷ 0xa4 ∷ 0xa5 ∷ 0xa6 ∷ 0xa7 ∷ 0xa8 ∷ 0xa9
    ∷ 0xaa ∷ 0xab ∷ 0xac ∷ 0xad ∷ 0xae ∷ 0xaf ∷ 0xb0 ∷ 0xb1 ∷ 0xb2 ∷ 0xb3 ∷ 0xb4 ∷ 0xb5 ∷ 0xb6
    ∷ 0xb7 ∷ 0xb8 ∷ 0xb9 ∷ 0xba ∷ 0xbb ∷ 0xbc ∷ 0xbd ∷ 0xbe ∷ 0xbf ∷ 0xc0 ∷ 0xc1 ∷ 0xc2 ∷ 0xc3
    ∷ 0xc4 ∷ 0xc5 ∷ 0xc6 ∷ 0xc7 ∷ 0xc8 ∷ 0xc9 ∷ 0xca ∷ 0xcb ∷ 0xcc ∷ 0xcd ∷ 0xce ∷ 0xcf ∷ 0xd0
    ∷ 0xd1 ∷ 0xd2 ∷ 0xd3 ∷ 0xd4 ∷ 0xd5 ∷ 0xd6 ∷ 0xd7 ∷ 0xd8 ∷ 0xd9 ∷ 0xda ∷ 0xdb ∷ 0xdc ∷ 0xdd
    ∷ 0xde ∷ 0xdf ∷ 0xe0 ∷ 0xe1 ∷ 0xe2 ∷ 0xe3 ∷ 0xe4 ∷ 0xe5 ∷ 0xe6 ∷ 0xe7 ∷ 0xe8 ∷ 0xe9 ∷ 0xea
    ∷ 0xeb ∷ 0xec ∷ 0xed ∷ 0xee ∷ 0xef ∷ 0xf0 ∷ 0xf1 ∷ 0xf2 ∷ 0xf3 ∷ 0xf4 ∷ 0xf5 ∷ 0xf6 ∷ 0xf7
    ∷ 0xf8 ∷ 0xf9 ∷ 0xfa ∷ 0xfb ∷ 0xfc ∷ 0xfd ∷ 0xfe ∷ 0xff ∷ []

-- `len` bytes of both texts.
unfoldable pub stricmpx : List ℕ → List ℕ → ℕ → Option Bool
stricmpx src dst zero = some true
stricmpx [] dst (suc len) = none
stricmpx (s ∷ src) [] (suc len) = none
stricmpx (s ∷ src) (d ∷ dst) (suc len) =
    let rest = stricmpx src dst len in
    if get_or char_ignore_case_map s 0 == get_or char_ignore_case_map d 0 then rest else some false

-- `equal_param_t`
pub record EqualParam : Type 0 where
  pub text : List ℕ
  pub ret : Bool

unfoldable pub on_equal_ignore_case : Callback EqualParam
on_equal_ignore_case arg piece = do
  same ← stricmpx piece arg.text (length piece)
  if same then some (record arg { ret = true }, piece, length piece) else some (arg, piece, 0)

unfoldable pub equal_ignore_case : Dynmem → HttpValue → List ℕ → ℕ → Option Bool
equal_ignore_case buf val text tlen =
    foreach on_equal_ignore_case buf val.pos tlen (record { text = text; ret = false })
    >>= λ (_, _, arg). some arg.ret

unfoldable pub get_http_header : List HttpHeader → Dynmem → List ℕ → Option (Option HttpValue)
get_http_header [] buf field = some none
get_http_header (h ∷ hs) buf field =
    let rest = get_http_header hs buf field in
    let tested = equal_ignore_case buf h.field field (length field) in
    if h.field.len == length field
    then (tested >>= λ same. if same then some (some h.value) else rest)
    else rest

-- A number that is not read in full is a fault, since the rest of `tmp` was never set.
unfoldable pub get_http_header_uint : (List ℕ → ℕ) → List HttpHeader → Dynmem → List ℕ → Option ℕ
get_http_header_uint atoi hs buf field = do
  found ← get_http_header hs buf field
  elim found [
    | none ↦ some 0
    | some cl ↦
        read buf cl.pos cl.len >>= λ (n, tmp). require (n == cl.len) >> some (u32 (atoi tmp))
  ]

unfoldable pub get_param : Dynmem → HttpValue → Option ℕ
get_param buf url = do
  find_pos ← chr buf url.pos url.len b'?'
  some (if find_pos == u32_max then u32_max else u32 (find_pos + 1))

-- The path and the parameters, from the position of the parameters or -1.
unfoldable pub split_url : Request → ℕ → Request
split_url req param_pos =
    let url = req.url in
    if param_pos == u32_max
    then record req {
      path = record { pos = url.pos; len = url.len };
      url_param = record { pos = 0; len = 0 };
    }
    else record req {
      path = record { pos = url.pos; len = sub32 (sub32 param_pos url.pos) 1 };
      url_param = record { pos = param_pos; len = sub32 (u32 (url.pos + url.len)) param_pos };
    }

-- A slash at the end of the path is taken off.
unfoldable pub trim_path : Request → Option Request
trim_path req = do
  p ← get req.buffer (sub32 (u32 (req.path.pos + req.path.len)) 1)
  ch ← deref p
  let shorter = record req.path { len = sub32 req.path.len 1 }
  some (if ch == b'/' then record req { path = shorter } else req)

-- `Host`, `Content-Type` and `Content-Length`
abbrev pub host_name : List ℕ
host_name = b'H' ∷ b'o' ∷ b's' ∷ b't' ∷ []

abbrev pub content_type_name : List ℕ
content_type_name =
    b'C' ∷ b'o' ∷ b'n' ∷ b't' ∷ b'e' ∷ b'n' ∷ b't' ∷ b'-' ∷ b'T' ∷ b'y' ∷ b'p' ∷ b'e' ∷ []

abbrev pub content_length_name : List ℕ
content_length_name =
    b'C' ∷ b'o' ∷ b'n' ∷ b't' ∷ b'e' ∷ b'n' ∷ b't' ∷ b'-' ∷ b'L' ∷ b'e' ∷ b'n' ∷ b'g' ∷ b't' ∷ b'h'
    ∷ []

-- The parser's `http_major`, `http_minor` and `method` are arguments.
unfoldable pub on_message_complete : (List ℕ → ℕ) → ℕ → ℕ → ℕ → Request → Option Request
on_message_complete atoi major minor method req = do
  found_host ← get_http_header req.headers req.buffer host_name
  found_type ← get_http_header req.headers req.buffer content_type_name
  found_length ← get_http_header_uint atoi req.headers req.buffer content_length_name
  let filled = record req {
    version = parse_http_ver major minor;
    method = parse_http_method method;
    host = found_host;
    content_type = found_type;
    content_length = found_length;
    keep_alive = true;
  }
  param_pos ← get_param req.buffer req.url
  trimmed ← trim_path (split_url filled param_pos)
  some (record trimmed { parser_state = parser_complete })
