-- ===== src/Http/Parser/FirstLine/Resume.antt =====
-- The first-line parser can be stopped and resumed: it is a state machine over the bytes.
use https_proxy_server.Base.{
  ℕ, false, zero, suc, ◌+◌, ◌-◌, ◌≤◌, ◌<◌, ◌≡◌, refl, ap, ◌∙◌, arith, [], ◌∷◌, ◌++◌, ◌==◌, leb,
  ==→eq, Bool-cases, inl, inr, drop, length, length-drop, drop-append, drop-append_within, Bytes,
  codes,
}
use https_proxy_server.Http.Parser.Types.{
  ParseState, check, ParseResult, failed, finished, unfinished, HttpParser,
}
use https_proxy_server.Http.Parser.FirstLine.{
  FirstLineOutcome, continue, fail, finish, starts_with, check_word, first_line_in, first_line_step,
  first_line_loop, parse_first_line,
}

abbrev outcome_parser : FirstLineOutcome → HttpParser
outcome_parser (continue parser) = parser
outcome_parser (fail parser) = parser
outcome_parser (finish parser) = parser

check_word-off :
    (n : ℕ) (word : Bytes) (parser : HttpParser) → (check_word n word parser).off ≡ parser.off
unfolding check_word
check_word-off zero word parser = refl
check_word-off (suc zero) word parser = refl
check_word-off (suc (suc zero)) word parser = ground arith
check_word-off (suc (suc (suc zero))) word parser = ground arith
check_word-off (suc (suc (suc (suc zero)))) word parser = ground arith
check_word-off (suc (suc (suc (suc (suc zero))))) word parser = ground arith
check_word-off (suc (suc (suc (suc (suc (suc zero)))))) word parser = ground arith
check_word-off (suc (suc (suc (suc (suc (suc (suc n))))))) word parser = rw (
  not_at 2 (omega arith),
  not_at 3 (omega arith),
  not_at 4 (omega arith),
  not_at 5 (omega arith),
  not_at 6 (omega arith),
)
  where
    not_at : (k : ℕ) → k < 7 → (suc (suc (suc (suc (suc (suc (suc n)))))) == k) ≡ false
    not_at k h = ground arith

first_line_in-off :
    (s : ParseState) (p c : ℕ) (text : Bytes) (parser : HttpParser)
    → (outcome_parser (first_line_in s p c text parser)).off ≡ parser.off
unfolding first_line_in
first_line_in-off check p c text parser =
    ground (arith, check_word-off (p - parser.line_beg) (drop parser.line_beg text) parser)
first_line_in-off _ p c text parser = ground arith

first_line_step-off :
    (c : ℕ) (text : Bytes) (parser : HttpParser)
    → (outcome_parser (first_line_step c text parser)).off ≡ parser.off + 1
unfolding first_line_step
first_line_step-off c text parser = first_line_in-off parser.state parser.off c text _

-- A word is tested only where all its bytes are read.
starts_with-append :
    (text more word : Bytes)
    → length word ≤ length text
    → starts_with (text ++ more) word ≡ starts_with text word
starts_with-append text more [] h = refl
starts_with-append [] more (w ∷ word) h = absurd (omega arith)
starts_with-append (t ∷ text) more (w ∷ word) h =
    rw (starts_with-append text more word (omega arith))

check_word-append :
    (n : ℕ) (text more : Bytes) (parser : HttpParser)
    → n < length text
    → check_word n (text ++ more) parser ≡ check_word n text parser
unfolding check_word
check_word-append n text more parser h =
    let same =
      λ (word : Bytes) (e : length word ≤ length text). starts_with-append text more word e in
    elim (Bool-cases (n == 2)) [
      | inl e ↦
          let k = ==→eq n 2 e in
          rw (e, same (codes "GET") (omega arith), same (codes "PUT") (omega arith))
      | inr a ↦ rw a (elim (Bool-cases (n == 3)) [
        | inl e ↦
            let k = ==→eq n 3 e in
            rw (
              e,
              same (codes "HEAD") (omega arith),
              same (codes "POST") (omega arith),
              same (codes "HTTP") (omega arith),
            )
        | inr b ↦ rw b (elim (Bool-cases (n == 4)) [
          | inl e ↦
              let k = ==→eq n 4 e in
              rw (e, same (codes "TRACE") (omega arith), same (codes "PATCH") (omega arith))
          | inr d ↦ rw d (elim (Bool-cases (n == 5)) [
            | inl e ↦ let k = ==→eq n 5 e in rw (e, same (codes "DELETE") (omega arith))
            | inr f ↦ rw f (elim (Bool-cases (n == 6)) [
              | inl e ↦
                  let k = ==→eq n 6 e in
                  rw (e, same (codes "OPTIONS") (omega arith), same (codes "CONNECT") (omega arith))
              | inr g ↦ rw g
            ])
          ])
        ])
      ])
    ]

check-append :
    (text more : Bytes) (beg p : ℕ) (parser : HttpParser)
    → p < length text
    → check_word (p - beg) (drop beg (text ++ more)) parser
      ≡ check_word (p - beg) (drop beg text) parser
check-append text more beg p parser h = elim (Bool-cases (leb beg p)) [
  | inl le ↦ rw (drop-append_within beg text more (ground arith)) (
      check_word-append (p - beg) (drop beg text) more parser
        (ground (arith, length-drop beg text)))
  | inr gt ↦ let e : p - beg ≡ 0 = ground arith in rw e (unfold check_word in refl)
]

first_line_in-append :
    (s : ParseState) (p c : ℕ) (text more : Bytes) (parser : HttpParser)
    → p < length text
    → first_line_in s p c (text ++ more) parser ≡ first_line_in s p c text parser
unfolding first_line_in
first_line_in-append check p c text more parser h =
    rw (check-append text more parser.line_beg p parser h)
first_line_in-append _ p c text more parser h = refl

first_line_step-append :
    (c : ℕ) (text more : Bytes) (parser : HttpParser)
    → parser.off < length text
    → first_line_step c (text ++ more) parser ≡ first_line_step c text parser
unfolding first_line_step
first_line_step-append c text more parser h =
    first_line_in-append parser.state parser.off c text more _ h

-- The rest of a run that is unfinished after `xs`.
abbrev pub and_then :
    ParseResult × HttpParser → (HttpParser → ParseResult × HttpParser) → ParseResult × HttpParser
and_then (unfinished, parser) k = k parser
and_then (failed, parser) k = (failed, parser)
and_then (finished, parser) k = (finished, parser)

-- The parser after reading `xs` of `text`, with what is left of the loop behind it.
pub first_line_loop-append :
    (xs ys text : Bytes) (parser : HttpParser)
    → first_line_loop (xs ++ ys) text parser
      ≡ and_then (first_line_loop xs text parser) (first_line_loop ys text)
unfolding first_line_loop
first_line_loop-append [] ys text parser = refl
first_line_loop-append (c ∷ xs) ys text parser =
    split (first_line_step c text parser) refl (first_line_loop-append xs ys text)
  where
    split :
        (o : FirstLineOutcome)
        → first_line_step c text parser ≡ o
        → ((parser' : HttpParser)
            → first_line_loop (xs ++ ys) text parser'
              ≡ and_then (first_line_loop xs text parser') (first_line_loop ys text))
        → first_line_loop (c ∷ xs ++ ys) text parser
          ≡ and_then (first_line_loop (c ∷ xs) text parser) (first_line_loop ys text)
    split (continue parser') e ih = rw (e, first_line_loop) (ih parser')
    split (fail parser') e ih = rw (e, first_line_loop)
    split (finish parser') e ih = rw (e, first_line_loop)

-- Bytes behind those that are read change nothing.
first_line_loop-text :
    (xs text more : Bytes) (parser : HttpParser)
    → parser.off + length xs ≤ length text
    → first_line_loop xs (text ++ more) parser ≡ first_line_loop xs text parser
unfolding first_line_loop
first_line_loop-text [] text more parser h = refl
first_line_loop-text (c ∷ xs) text more parser h =
    rw (first_line_loop, first_line_step-append c text more parser (omega arith))
      (split (first_line_step c text parser) refl (first_line_loop-text xs text more))
  where
    split :
        (o : FirstLineOutcome)
        → first_line_step c text parser ≡ o
        → ((parser' : HttpParser)
            → parser'.off + length xs ≤ length text
            → first_line_loop xs (text ++ more) parser' ≡ first_line_loop xs text parser')
        → ◌≡◌ {A = ParseResult × HttpParser}
            (elim (first_line_step c text parser) [
              | continue parser' ↦ first_line_loop xs (text ++ more) parser'
              | fail parser' ↦ (failed, parser')
              | finish parser' ↦ (finished, parser')
            ])
            (first_line_loop (c ∷ xs) text parser)
    split (continue parser') e ih =
        rw (e, first_line_loop)
          (ih parser'
            (omega (arith, first_line_step-off c text parser, ap (λ o. (outcome_parser o).off) e)))
    split (fail parser') e ih = rw (e, first_line_loop)
    split (finish parser') e ih = rw (e, first_line_loop)

first_line_loop-off :
    (xs text : Bytes) (parser : HttpParser) {parser' : HttpParser}
    → first_line_loop xs text parser ≡ (unfinished, parser')
    → parser'.off ≡ parser.off + length xs
unfolding first_line_loop
first_line_loop-off [] text parser e = ground arith
first_line_loop-off (c ∷ xs) text parser {parser'} e =
    split (first_line_step c text parser) refl
      (λ q. first_line_loop-off xs text q {parser' = parser'})
  where
    split :
        (o : FirstLineOutcome)
        → first_line_step c text parser ≡ o
        → ((q : HttpParser)
            → first_line_loop xs text q ≡ (unfinished, parser')
            → parser'.off ≡ q.off + length xs)
        → parser'.off ≡ parser.off + suc (length xs)
    split (continue q) s ih = omega (
      arith,
      first_line_step-off c text parser,
      ap (λ o. (outcome_parser o).off) s,
      ih q (rw (s, first_line_loop) at e),
    )
    split (fail q) s ih = absurd (let t = rw (s, first_line_loop) at e in cc)
    split (finish q) s ih = absurd (let t = rw (s, first_line_loop) at e in cc)

-- A parser that has used up `text` without a result goes on, when `more` bytes have come behind
-- it, as if it had been given all of them at once.
pub parse_first_line-resume :
    (text more : Bytes) (parser parser' : HttpParser)
    → parser.off ≤ length text
    → parse_first_line text parser ≡ (unfinished, parser')
    → parse_first_line (text ++ more) parser' ≡ parse_first_line (text ++ more) parser
unfolding parse_first_line
parse_first_line-resume text more parser parser' h e =
    let all_read : parser'.off ≡ length text = omega (
      arith,
      first_line_loop-off (drop parser.off text) text parser e,
      length-drop parser.off text,
    ) in
    ap (λ n. first_line_loop (drop n (text ++ more)) (text ++ more) parser') all_read
    ∙ rw (
      drop-append text more,
      drop-append_within parser.off text more h,
      first_line_loop-append (drop parser.off text) more (text ++ more) parser,
      first_line_loop-text (drop parser.off text) text more parser
          (omega (arith, length-drop parser.off text)),
      e,
    )
