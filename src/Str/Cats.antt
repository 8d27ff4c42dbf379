-- ===== src/Str/Cats.antt =====
-- What `string_cats` of str.c leaves.
use fast_http.Prelude.{
  ℕ, ◌+◌, ◌^◌, ◌≤◌, ◌<◌, ◌≡◌, refl, sym, ap, ◌∙◌, true, Option, some, List, [], ◌∷◌, ◌++◌, arith,
  map, u32, ltb, if◌then◌else◌, ◌>>=◌, length, take, set, length-append, take-set, take-all,
  take-take, take-append_le, length-take, min, append-nil, append_assoc, get_elem?, zero, suc,
}
use fast_http.Str.{Str, Allocator, str_grow, total_len, copy_args, string_cats}
use fast_http.Str.Put.{put_lem}
use fast_http.Str.Size.{IsValid, text}
use fast_http.Str.Append.{room_for}

-- The arguments, one behind the other.
unfoldable pub joined : List (List ℕ) → List ℕ
joined [] = []
joined (p ∷ args) = p ++ joined args

total_len_lem :
    (args : List (List ℕ)) (len : ℕ)
    → len + length (joined args) < 2 ^ 32
    → total_len len (map some args) ≡ len + length (joined args)
unfolding total_len joined
total_len_lem [] len fits = omega arith
total_len_lem (p ∷ args) len fits =
    let both = length-append p (joined args) in
    ap (λ n. total_len n (map some args)) {x = u32 (len + length p)} {y = len + length p}
      (omega (arith, both))
    ∙ (total_len_lem args (len + length p) (omega (arith, both)) ∙ omega (arith, both))

copy_args_lem :
    (args : List (List ℕ)) (bytes : List ℕ) (pos : ℕ)
    → pos + length (joined args) ≤ length bytes
    → (out : List ℕ) × (copy_args bytes pos (map some args)
        ≡ some (out, pos + length (joined args)))
      × (length out ≡ length bytes)
      × (take (pos + length (joined args)) out ≡ take pos bytes ++ joined args)
unfolding copy_args joined
copy_args_lem [] bytes pos room = (
  bytes,
  ap (λ n. some (bytes, n)) {x = pos} {y = pos + 0} (omega arith),
  refl,
  ap (λ n. take n bytes) {x = pos + 0} {y = pos} (omega arith) ∙ sym (append-nil (take pos bytes)),
)
copy_args_lem (p ∷ args) bytes pos room =
    let both = length-append p (joined args) in
    let w = put_lem bytes pos p (length p) (omega (arith, both)) (omega arith) in
    let (out, e, same, held) =
      copy_args_lem args w.out (pos + length p) (omega (arith, both, w.same_length)) in
    let end : pos + length p + length (joined args) ≡ pos + length (p ++ joined args) =
      omega (arith, both) in
    (
      out,
      ap (λ b. b >>= λ bytes'. copy_args bytes' (pos + length p) (map some args)) w.returns
          ∙ (e ∙ ap (λ n. some (out, n)) end),
      same ∙ w.same_length,
      ap (λ n. take n out) (sym end)
          ∙ (held
              ∙ (ap (λ l. l ++ joined args)
                    (w.holds ∙ ap (λ l. take pos bytes ++ l) (take-all (length p) p (omega arith)))
                  ∙ append_assoc (take pos bytes) p (joined args))),
    )

kept :
    (n k : ℕ) (out old add : List ℕ)
    → take (n + k) out ≡ take n old ++ add
    → n ≤ length old
    → take n out ≡ take n old
kept n k out old add h room =
    ap (λ j. take j out) {x = n} {y = min n (n + k)} (omega arith)
    ∙ (sym (take-take n (n + k) out)
        ∙ (ap (take n) h
            ∙ (take-append_le n (take n old) add (omega (arith, length-take n old))
                ∙ take-all n (take n old) (omega (arith, length-take n old)))))

nul_at :
    (n pos : ℕ) (out : List ℕ)
    → n ≡ pos
    → ltb pos (length out) ≡ true
    → get_elem? (set out pos 0) n ≡ some 0
nul_at n pos [] e inside = absurd (ground (arith, inside))
nul_at zero zero (x ∷ out) e inside = refl
nul_at zero (suc pos) (x ∷ out) e inside = absurd (omega (arith, e))
nul_at (suc n) zero (x ∷ out) e inside = absurd (omega (arith, e))
nul_at (suc n) (suc pos) (x ∷ out) e inside =
    nul_at n pos out (omega (arith, e)) (ground (arith, inside))

cats-returns :
    (mem : Allocator) (s : Str) (args : List (Option (List ℕ))) (len : ℕ) (g : Str) (out : List ℕ)
    (pos : ℕ)
    → total_len s.len args ≡ len
    → (if ltb s.cap len then str_grow mem s len else some s) ≡ some g
    → copy_args g.bytes g.len args ≡ some (out, pos)
    → ltb pos (length out) ≡ true
    → string_cats mem s args ≡ some (record g { bytes = set out pos 0 })
unfolding string_cats
cats-returns mem s args len g out pos total grown copied inside =
    rw (total, grown, copied, inside) refl

-- In a well-formed string, `string_cats` of arguments that are not NULL writes them behind the text, in
-- order, and a NUL directly behind the last of them, all inside its block, if the whole and 1033 fit a
-- `uint32_t`. But it leaves the length as it was: what it added is not part of the text.
pub string_cats_lem :
    (mem : Allocator) {s : Str} (args : List (List ℕ))
    → IsValid s
    → s.len + length (joined args) + 1033 < 2 ^ 32
    → (s' : Str) × (string_cats mem s (map some args) ≡ some s')
      × (take (s.len + length (joined args)) s'.bytes ≡ text s ++ joined args)
      × (get_elem? s'.bytes (s.len + length (joined args)) ≡ some 0)
      × (s'.len ≡ s.len)
      × (text s' ≡ text s)
string_cats_lem mem {s} args v fits =
    let nl = s.len + length (joined args) in
    let (g, e, vg, room, same_len, same_text) = room_for mem nl v fits in
    let (out, copied, same, held) =
      copy_args_lem args g.bytes g.len (omega (arith, vg.block_size, same_len)) in
    let pos = g.len + length (joined args) in
    let inside : ltb pos (length out) ≡ true = ground (arith, same, vg.block_size, same_len) in
    let end : nl ≡ pos = omega (arith, same_len) in
    let all : take nl (set out pos 0) ≡ text s ++ joined args =
      take-set nl pos 0 out (omega arith)
      ∙ (ap (λ n. take n out) end ∙ (held ∙ ap (λ l. l ++ joined args) same_text)) in
    let old : text (record g { bytes = set out pos 0 }) ≡ text s =
      take-set g.len pos 0 out (omega arith)
      ∙ (kept g.len (length (joined args)) out g.bytes (joined args) held
            (omega (arith, vg.block_size, vg.len_in))
          ∙ same_text) in
    (
      record g { bytes = set out pos 0 },
      cats-returns mem s (map some args) nl g out pos (total_len_lem args s.len (omega arith)) e
          copied inside,
      all,
      nul_at nl pos out end inside,
      same_len,
      old,
    )
