-- ===== src/Http/Parser/HeaderLine/Trailer.antt =====
-- What a parser does with a trailer after it has read a header.
use https_proxy_server.Base.{
  ℕ, zero, suc, ◌≤◌, ◌≡◌, refl, ap, subst, arith, [], ◌∷◌, length, drop, Bytes, Option, none, some,
}
use https_proxy_server.Http.Parser.Types.{
  ParseState, header_almost_done, ParseResult, failed, finished, unfinished, HttpParser,
}
use https_proxy_server.Http.Parser.FirstLine.{parse_first_line}
use https_proxy_server.Http.Parser.HeaderLine.{
  LineOutcome, continue, fail, finish, store_header, header_line_in, header_line_step,
  header_line_loop, parse_header_line, parse_trailer, parse_header,
}

-- A parser whose last call has read a header to its end.
abbrev pub HasFinished : HttpParser → Type 0
HasFinished parser = (parser.state ≡ header_almost_done) × (parser.off ≡ parser.hdr_len)

abbrev FinishesWell : LineOutcome → Type 0
FinishesWell (continue parser v) = Unit {0}
FinishesWell (fail parser) = Unit {0}
FinishesWell (finish parser) = HasFinished parser

store_header-state :
    (text v : Bytes) (parser : HttpParser) (beg : Option ℕ)
    → parser.name_beg ≡ beg
    → ((store_header text v parser).state ≡ parser.state)
      × ((store_header text v parser).off ≡ parser.off)
unfolding store_header
store_header-state text v parser none e = rw (e, store_header) (refl, refl)
store_header-state text v parser (some b) e = rw (e, store_header) (refl, refl)

header_line_in-FinishesWell :
    (s : ParseState) (p c : ℕ) (text v : Bytes) (parser : HttpParser)
    → parser.state ≡ s
    → FinishesWell (header_line_in s p c text parser v)
unfolding header_line_in
header_line_in-FinishesWell header_almost_done p c text v parser e =
    ground (arith, store_header-state text v parser parser.name_beg)
header_line_in-FinishesWell _ p c text v parser e = ground arith

header_line_loop-HasFinished :
    (xs text v : Bytes) (parser : HttpParser) {parser' : HttpParser}
    → header_line_loop xs text parser v ≡ (finished, parser')
    → HasFinished parser'
unfolding header_line_loop
header_line_loop-HasFinished [] text v parser e = cc
header_line_loop-HasFinished (c ∷ xs) text v parser {parser'} e =
    split (header_line_step c text parser v) refl
      (header_line_in-FinishesWell parser.state parser.off c text v _ refl)
      (λ w q. header_line_loop-HasFinished xs text w q {parser' = parser'})
  where
    split :
        (o : LineOutcome)
        → header_line_step c text parser v ≡ o
        → FinishesWell (header_line_step c text parser v)
        → ((w : Bytes) (q : HttpParser)
            → header_line_loop xs text q w ≡ (finished, parser')
            → HasFinished parser')
        → HasFinished parser'
    split (continue q w) s well ih = ih w q (rw (s, header_line_loop) at e)
    split (fail q) s well ih = let t = rw (s, header_line_loop) at e in cc
    split (finish q) s well ih =
        let t = rw (s, header_line_loop) at e in
        subst HasFinished (ap (λ (r : ParseResult × HttpParser). r.1) t) (rw s at well)

parse_header-HasFinished :
    (text : Bytes) (parser : HttpParser) {parser' : HttpParser}
    → parse_header text parser ≡ (finished, parser')
    → HasFinished parser'
unfolding parse_header parse_header_line
parse_header-HasFinished text parser {parser'} e = split (parse_first_line text parser) refl
  where
    split : (r : ParseResult × HttpParser) → parse_first_line text parser ≡ r → HasFinished parser'
    split (failed, q) s = let t = rw (s, parse_header) at e in cc
    split (unfinished, q) s = let t = rw (s, parse_header) at e in cc
    split (finished, q) s =
        header_line_loop-HasFinished (drop q.off text) text [] q (rw (s, parse_header) at e)

drop_all : (n : ℕ) (xs : Bytes) → length xs ≤ n → drop n xs ≡ []
drop_all zero [] h = refl
drop_all zero (x ∷ xs) h = absurd (omega arith)
drop_all (suc n) [] h = refl
drop_all (suc n) (x ∷ xs) h = drop_all n xs (omega arith)

-- After a header has been read, `parse_trailer` reads nothing of a trailer that is no longer than
-- the header was, and asks for more: the parser's offset still counts the bytes of the header.
pub parse_trailer-unfinished :
    (text trailer : Bytes) (parser : HttpParser) {parser' : HttpParser}
    → parse_header text parser ≡ (finished, parser')
    → length trailer ≤ parser'.hdr_len
    → parse_trailer trailer parser' ≡ (unfinished, parser')
unfolding parse_trailer parse_header_line
parse_trailer-unfinished text trailer parser {parser'} e h =
    rw (drop_all parser'.off trailer (omega (arith, (parse_header-HasFinished text parser e).1)))
      (unfold header_line_loop in refl)
