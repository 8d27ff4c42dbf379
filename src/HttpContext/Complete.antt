-- ===== src/HttpContext/Complete.antt =====
-- What `on_message_complete` of httpctx.c makes of a parsed request.
pub mod Length
pub mod Url
mod Tests
use fast_http.Prelude.{
  ℕ, zero, suc, ◌+◌, ◌-◌, ◌^◌, ◌≤◌, ◌<◌, ◌≡◌, refl, sym, ap, ◌∙◌, Bool, true, false, Option, none,
  some, List, [], ◌∷◌, arith, u32, u32_max, ◌==◌, if◌then◌else◌, ◌>>=◌, Option-cases, inl, inr,
  length, take, drop, slice, leb, length-take, length-drop, subst,
}
use fast_http.Dynmem.{Dynmem}
use fast_http.Dynmem.Foreach.{memchr, chr}
use fast_http.Dynmem.Walk.{flat}
use fast_http.Dynmem.Search.{chr_lem, memchr-lt}
use fast_http.Dynmem.Sizes.{IsValid, contents}
use fast_http.Dynmem.Sizes.Growth.{length-flat-pages}
use fast_http.HttpContext.{
  HttpValue, Request, parser_complete, get_param, split_url, trim_path, on_message_complete,
  get_http_header, get_http_header_uint, host_name, content_type_name, content_length_name,
  parse_http_ver, parse_http_method,
}
use fast_http.HttpContext.Header.{find_header, AllInPage, get_http_header_lem}
use fast_http.HttpContext.Path.{without_slash}
use fast_http.HttpContext.Complete.Length.{
  declared, InContents, get_http_header_uint-declared, version_of, parse_http_ver-version_of,
  method_numbers, method_of, parse_http_method-method_of,
}
use fast_http.HttpContext.Complete.Url.{
  raw, length-raw, path_part, param_part, Trims, trim_path-Trims, Cut, whole-Cut, parts-Cut,
}

get_param-none :
    (buf : Dynmem) (url : HttpValue)
    → chr buf url.pos url.len b'?' ≡ some u32_max
    → get_param buf url ≡ some u32_max
unfolding get_param
get_param-none buf url e = rw e refl

get_param-some :
    (buf : Dynmem) (url : HttpValue) (k : ℕ)
    → chr buf url.pos url.len b'?' ≡ some k
    → k < u32_max
    → get_param buf url ≡ some (k + 1)
unfolding get_param
get_param-some buf url k e small =
    let test : (k == u32_max) ≡ false = ground arith in
    rw (e, test) (ap some {x = u32 (k + 1)} (omega arith))

found-Cut :
    (r : Request)
    → IsValid r.buffer
    → r.url.pos < r.buffer.len
    → r.url.pos + r.url.len ≤ r.buffer.cap
    → r.url.pos + r.url.len < 2 ^ 32 - 1
    → Cut r (path_part (raw r.buffer r.url)) (param_part (raw r.buffer r.url))
found-Cut r v inside fits small =
    let url = raw r.buffer r.url in
    let found = chr_lem r.url.pos r.url.len b'?' v inside fits in
    elim (Option-cases (memchr b'?' url)) [
      | inl missing ↦
          let at : chr r.buffer r.url.pos r.url.len b'?' ≡ some u32_max = rw missing at found in
          rw (path_part, param_part, missing) (whole-Cut r (get_param-none r.buffer r.url at))
      | inr (i, there) ↦
          let at : chr r.buffer r.url.pos r.url.len b'?' ≡ some (r.url.pos + i) =
            rw there at found in
          let low : i < r.url.len =
            omega (arith, memchr-lt b'?' url i there, length-raw r.url v fits) in
          rw (path_part, param_part, there)
            (parts-Cut r i low small
              (get_param-some r.buffer r.url (r.url.pos + i) at (omega arith)))
    ]

-- The URL stands behind the length of the buffer: nothing is found.
unread-Cut : (r : Request) → r.buffer.len ≤ r.url.pos → Cut r (raw r.buffer r.url) []
unfolding chr
unread-Cut r behind = whole-Cut r (get_param-none r.buffer r.url (ground arith))

module _ (atoi : List ℕ → ℕ) (major minor method : ℕ) (req : Request) where
  -- The request with what the headers say.
  abbrev filled : ℕ → Request
  filled n = record req {
    version = parse_http_ver major minor;
    method = parse_http_method method;
    host = find_header req.headers (flat req.buffer.pages) host_name;
    content_type = find_header req.headers (flat req.buffer.pages) content_type_name;
    content_length = n;
    keep_alive = true;
  }

  complete-returns :
      (n at : ℕ) (r : Request)
      → get_http_header req.headers req.buffer host_name
        ≡ some (find_header req.headers (flat req.buffer.pages) host_name)
      → get_http_header req.headers req.buffer content_type_name
        ≡ some (find_header req.headers (flat req.buffer.pages) content_type_name)
      → get_http_header_uint atoi req.headers req.buffer content_length_name ≡ some n
      → get_param req.buffer req.url ≡ some at
      → trim_path (split_url (filled n) at) ≡ some r
      → on_message_complete atoi major minor method req
        ≡ some (record r { parser_state = parser_complete })
  unfolding on_message_complete
  complete-returns n at r e0 e1 e2 e3 e4 = rw (e0, e1, e2, e3, e4) refl

  -- What the request says when it is complete, with the bytes of its path and its parameters.
  pub record Completed (n : ℕ) (path param : List ℕ) : Type 0 where
    pub after : Request
    pub returns : on_message_complete atoi major minor method req ≡ some after
    pub state : after.parser_state ≡ parser_complete
    pub path_is : raw req.buffer after.path ≡ without_slash path
    pub param_is : raw req.buffer after.url_param ≡ param
    pub host_is : after.host ≡ find_header req.headers (flat req.buffer.pages) host_name
    pub type_is :
        after.content_type ≡ find_header req.headers (flat req.buffer.pages) content_type_name
    pub length_is : after.content_length ≡ n
    pub version_is : after.version ≡ version_of major minor
    pub method_is : after.method ≡ method_of method method_numbers
    pub kept_alive : after.keep_alive ≡ true
    pub url_is : after.url ≡ req.url
    pub headers_are : after.headers ≡ req.headers
    pub buffer_is : after.buffer ≡ req.buffer

  Cut-Completed :
      (n : ℕ) (path param : List ℕ)
      → IsValid req.buffer
      → AllInPage req.buffer req.headers
      → get_http_header_uint atoi req.headers req.buffer content_length_name ≡ some n
      → req.url.pos + req.url.len ≤ req.buffer.cap
      → 0 < length path
      → Cut (filled n) path param
      → Completed n path param
  Cut-Completed n path param v placed number fits some_path c =
      let shorter : Request = record (filled n) {
        path = record { pos = req.url.pos; len = c.path_len };
        url_param = c.param_value;
      } in
      let longer : 0 < c.path_len = omega (
        arith,
        some_path,
        ap length c.path_is,
        length-take c.path_len (drop req.url.pos (flat req.buffer.pages)),
      ) in
      let t = trim_path-Trims shorter v longer (omega (arith, c.within, fits)) in
      let r : Request = record shorter { path = record shorter.path { len = t.n } } in
      record {
        after = record r { parser_state = parser_complete };
        returns =
            complete-returns n c.at r
              (get_http_header_lem req.headers host_name v (omega arith) placed)
              (get_http_header_lem req.headers content_type_name v (omega arith) placed) number
              c.got (ap trim_path c.splits ∙ t.returns);
        state = refl;
        path_is = t.cut ∙ ap without_slash c.path_is;
        param_is = c.param_is;
        host_is = refl;
        type_is = refl;
        length_is = refl;
        version_is = parse_http_ver-version_of major minor;
        method_is = parse_http_method-method_of method;
        kept_alive = refl;
        url_is = refl;
        headers_are = refl;
        buffer_is = refl;
      }

  -- If the buffer is well formed, its length is past the start of the URL and the URL lies in its
  -- pages below 2 ^ 32 - 1, every header name stands in one page, the value of the first
  -- `Content-Length`, if there is one, lies in the contents, and the URL does not begin with a question
  -- mark, then `on_message_complete` returns, sets the path to the part of the URL in front of the first
  -- question mark, less a slash at its end, the parameters to what stands behind that mark, host and
  -- content type to the values of the first headers of these names, the length to what `atoi` makes of
  -- the bytes of the first `Content-Length` (0 without one), version and method to those of the parser's
  -- numbers, and leaves URL, headers and buffer as they were.
  pub on_message_complete_lem :
      IsValid req.buffer
      → AllInPage req.buffer req.headers
      → InContents req.buffer (find_header req.headers (flat req.buffer.pages) content_length_name)
      → req.url.pos < req.buffer.len
      → req.url.pos + req.url.len ≤ req.buffer.cap
      → req.url.pos + req.url.len < 2 ^ 32 - 1
      → 0 < length (path_part (raw req.buffer req.url))
      → Completed
          (declared atoi
            (contents req.buffer)
            (find_header req.headers (flat req.buffer.pages) content_length_name))
          (path_part (raw req.buffer req.url))
          (param_part (raw req.buffer req.url))
  on_message_complete_lem v placed held reached fits small some_path =
      let n =
        declared atoi (contents req.buffer)
          (find_header req.headers (flat req.buffer.pages) content_length_name) in
      let number =
        get_http_header_uint-declared atoi req.headers content_length_name v (omega arith) placed
          held in
      Cut-Completed n _ _ v placed number fits some_path (found-Cut (filled n) v reached fits small)

  -- If the buffer is well formed but its length has not reached the URL, which lies in its pages and is
  -- not empty, every header name stands in one page and the `Content-Length` reads as `n` (0 without
  -- one), then `on_message_complete` finds no question mark: the path is the whole URL, less a slash
  -- at its end, and there are no parameters. Host, content type, the length `n`, version and method are
  -- set all the same, and URL, headers and buffer stay as they were.
  pub on_message_complete-unread :
      (n : ℕ)
      → IsValid req.buffer
      → AllInPage req.buffer req.headers
      → get_http_header_uint atoi req.headers req.buffer content_length_name ≡ some n
      → req.buffer.len ≤ req.url.pos
      → req.url.pos + req.url.len ≤ req.buffer.cap
      → 0 < length (raw req.buffer req.url)
      → Completed n (raw req.buffer req.url) []
  on_message_complete-unread n v placed number behind fits some_path =
      Cut-Completed n _ _ v placed number fits some_path (unread-Cut (filled n) behind)
