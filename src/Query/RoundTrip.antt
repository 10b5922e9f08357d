-- ===== src/Query/RoundTrip.antt =====
-- A query string that is printed and set again.
use lfz.Prelude.{ℕ, ◌≡◌, refl, sym, ap, ◌∙◌, arith, Bool, true, false, not, Bytes, List}
use lfz.Prelude.{
  [], ◌∷◌, ◌++◌, length, ◌==◌, is_empty, find-append, Lacks, All, All-append, find_if,
}
use lfz.Prelude.{append_assoc, append-nil, take-at, drop-after, some, elem}
use lfz.Encode.Percent.{percent_encode, percent_decode, is_unreserved}
use lfz.Encode.Percent.RoundTrip.{IsText, percent_decode-encode}
use lfz.Encode.Percent.Escaped.{
  percent_encode-IsEscaped, IsEscaped-Lacks, is_empty-percent_encode, is_escaped,
}
use lfz.Strings.{strtok, strtok_loop, strtok_found}
use lfz.Strings.Tokens.{pieces, kept, grow, strtok-pieces}
use lfz.Query.{
  Segment, assign, set, set_result, set_tokens, set_token, token_key, token_value, checked_value,
}
use lfz.Query.{with_value, print_segments, pop_back, query_to_string}
use lfz.Query.Keys.{IsAscending, IsBefore, assign-end, append-IsBefore, nothing-IsBefore}

-- A key and a value without null bytes, the key with a character.
pub record IsSegment (x : Segment) : Type 0 where
  pub key_text : All IsText x.key
  pub has_key : is_empty x.key ≡ false
  pub value_text : All IsText x.value

segment_text : Bool → Segment → Bytes
segment_text keep x = percent_encode keep x.key ++ (b'=' ∷ percent_encode keep x.value)

-- The texts with `&` between them.
joined : Bool → Segment → List Segment → Bytes
joined keep x [] = segment_text keep x
joined keep x (y ∷ s) = segment_text keep x ++ (b'&' ∷ joined keep y s)

texts : Bool → List Segment → List Bytes
texts keep [] = []
texts keep (x ∷ s) = segment_text keep x ∷ texts keep s

print_segments-joined :
    (keep : Bool) (x : Segment) (s : List Segment)
    → print_segments keep (x ∷ s) ≡ joined keep x s ++ (b'&' ∷ [])
unfolding print_segments joined segment_text
print_segments-joined keep x [] = sym (append_assoc (percent_encode keep x.key) _ _)
print_segments-joined keep x (y ∷ s) =
    ap (λ t. percent_encode keep x.key ++ (b'=' ∷ (percent_encode keep x.value ++ (b'&' ∷ t))))
      (print_segments-joined keep y s)
    ∙ simp append_assoc refl

pop_back-append : (t : Bytes) (c : ℕ) → pop_back (t ++ (c ∷ [])) ≡ t
unfolding pop_back
pop_back-append [] c = refl
pop_back-append (d ∷ []) c = refl
pop_back-append (d ∷ (e ∷ t)) c = ap (d ∷◌) (pop_back-append (e ∷ t) c)

abbrev is_ampersand : ℕ → Bool
is_ampersand c = elem c (b'&' ∷ [])

pieces-append :
    (t rest : Bytes)
    → Lacks b'&' t
    → pieces is_ampersand (t ++ (b'&' ∷ rest)) ≡ t ∷ pieces is_ampersand rest
unfolding pieces elem grow
pieces-append [] rest h = refl
pieces-append (c ∷ t) rest (hc, h) =
    let no : is_ampersand c ≡ false = ground (arith, hc) in
    rw (no, pieces) (ap (grow c) (pieces-append t rest h))

pieces_one : (t : Bytes) → Lacks b'&' t → pieces is_ampersand t ≡ t ∷ []
unfolding pieces elem grow
pieces_one [] h = refl
pieces_one (c ∷ t) (hc, h) =
    let no : is_ampersand c ≡ false = ground (arith, hc) in
    rw (no, pieces) (ap (grow c) (pieces_one t h))

segment_text-Lacks : (keep : Bool) (x : Segment) → IsSegment x → Lacks b'&' (segment_text keep x)
unfolding segment_text is_escaped is_unreserved
segment_text-Lacks keep x h =
    All-append (λ c. (c == b'&') ≡ false) (percent_encode keep x.key) _
      (IsEscaped-Lacks keep b'&' _ refl (percent_encode-IsEscaped keep x.key h.key_text))
      (refl, IsEscaped-Lacks keep b'&' _ refl (percent_encode-IsEscaped keep x.value h.value_text))

some_left : (t s : Bytes) (c : ℕ) → is_empty (t ++ (c ∷ s)) ≡ false
some_left [] s c = refl
some_left (d ∷ t) s c = refl

segment_text_some : (keep : Bool) (x : Segment) → is_empty (segment_text keep x) ≡ false
unfolding segment_text
segment_text_some keep x = some_left (percent_encode keep x.key) _ b'='

kept-cons : (t : Bytes) (ts : List Bytes) → is_empty t ≡ false → kept (t ∷ ts) ≡ t ∷ kept ts
unfolding kept
kept-cons t ts e = rw (e, kept) refl

kept-joined :
    (keep : Bool) (x : Segment) (s : List Segment)
    → All IsSegment (x ∷ s)
    → kept (pieces is_ampersand (joined keep x s)) ≡ texts keep (x ∷ s)
unfolding joined texts
kept-joined keep x [] (hx, h) =
    ap kept (pieces_one (segment_text keep x) (segment_text-Lacks keep x hx))
    ∙ kept-cons (segment_text keep x) [] (segment_text_some keep x)
    ∙ unfold kept in refl
kept-joined keep x (y ∷ s) (hx, h) =
    ap kept (pieces-append (segment_text keep x) (joined keep y s) (segment_text-Lacks keep x hx))
    ∙ kept-cons (segment_text keep x) (pieces is_ampersand (joined keep y s))
        (segment_text_some keep x)
    ∙ ap (segment_text keep x ∷◌) (kept-joined keep y s h)

value_back :
    (keep : Bool) (value : Bytes)
    → All IsText value
    → checked_value (percent_encode keep value) (percent_decode false (percent_encode keep value))
      ≡ some value
unfolding checked_value
value_back keep value h =
    rw (percent_decode-encode keep false value h, is_empty-percent_encode keep value h)
      (ground arith)

not_empty : (t : Bytes) → is_empty t ≡ false → (length t == 0) ≡ false
not_empty [] h = cc h
not_empty (c ∷ t) h = ground arith

no_equals : (keep : Bool) (x : Segment) → IsSegment x → Lacks b'=' (percent_encode keep x.key)
unfolding is_escaped is_unreserved
no_equals keep x h =
    IsEscaped-Lacks keep b'=' _ refl (percent_encode-IsEscaped keep x.key h.key_text)

set_token-text :
    (keep : Bool) (x : Segment) (done : List Segment)
    → IsSegment x
    → set_token (segment_text keep x) done ≡ some (assign x.key x.value done)
unfolding set_token segment_text token_key token_value with_value
set_token-text keep x done h =
    let name = percent_encode keep x.key in
    let value = percent_encode keep x.value in
    let front : (length name == 0) ≡ false =
      not_empty name (is_empty-percent_encode keep x.key h.key_text ∙ h.has_key) in
    rw
      (
        find-append b'=' name value (no_equals keep x h),
        take-at name value b'=',
        drop-after name value b'=',
        percent_decode-encode keep false x.key h.key_text,
        front,
        h.has_key,
        value_back keep x.value h.value_text,
      )
      refl

set_tokens-texts :
    (keep : Bool) (done s : List Segment)
    → All IsSegment s
    → IsAscending s
    → IsBefore done s
    → set_tokens (texts keep s) done ≡ some (done ++ s)
unfolding set_tokens texts
set_tokens-texts keep done [] h k b = ap some (sym (append-nil done))
set_tokens-texts keep done (x ∷ s) (hx, h) (kx, k) (bx, b) =
    rw (set_token-text keep x done hx, assign-end x done bx, set_tokens)
      (set_tokens-texts keep (done ++ (x ∷ [])) s h k (append-IsBefore done s x b kx)
        ∙ ap some (append_assoc done (x ∷ []) s))

-- query_string::set reads back what to_string printed of segments with keys and values without null
-- bytes, no empty key, and the keys in ascending order without case, as less_insensitive_ascii orders
-- a signed char, whether slashes are encoded or not.
pub set-query_to_string :
    (encode_slashes : Bool) (s : List Segment)
    → All IsSegment s
    → IsAscending s
    → set (query_to_string encode_slashes s) ≡ (true, s)
unfolding set query_to_string set_result
set-query_to_string encode_slashes [] h k =
    unfold strtok strtok_loop strtok_found find_if set_tokens in refl
set-query_to_string encode_slashes (x ∷ s) h k =
    let keep = not encode_slashes in
    ap (λ r. set_result (set_tokens r []))
      (ap (λ t. strtok t (b'&' ∷ []) true)
          (ap pop_back (print_segments-joined keep x s) ∙ pop_back-append (joined keep x s) b'&')
        ∙ strtok-pieces (joined keep x s) (b'&' ∷ []) true
        ∙ kept-joined keep x s h)
    ∙ ap set_result (set_tokens-texts keep [] (x ∷ s) h k (nothing-IsBefore (x ∷ s)))
